-- ===== src/Utils/Ends.antt =====
-- write_while comes to an end whatever the host answers.
use ext.Base.{
  ℕ, zero, suc, ◌+◌, ◌^◌, ◌≤◌, ◌≡◌, refl, [], ◌∷◌, length, take, drop, length-drop, arith, ◌⊎◌, inl,
  inr,
}
use ext.Base.Image.{Bytes}
use ext.Os.{Host, World, ok, failed, pure, Reply-cases, ◌>>=◌, write, continue, fail}
use ext.Os.Settles.{Settles}
use ext.Utils.{write_loop, write_while}

-- A call moves a byte or fails.
write_cases :
    (h : Host) (b : ℕ) (bs : Bytes) (w : World)
    → ((k : ℕ) × (w' : World) × (write (b ∷ bs) h w ≡ (ok (length (b ∷ take k bs)), w')))
      ⊎ ((write (b ∷ bs) h w).0 ≡ failed)
unfolding write
write_cases h b bs w = elim (Reply-cases (h.reply w.calls)) [
  | inl e ↦ rw (e, write) (inr refl)
  | inr (k, e) ↦ rw (e, write) (inl (k, _, refl))
]

write_loop-settles :
    (h : Host) (fuel : ℕ) (bs : Bytes) (total : ℕ) (w : World)
    → length bs ≤ fuel
    → ((n : ℕ) × ((write_loop fuel bs total h w).0 ≡ ok n))
      ⊎ ((write_loop fuel bs total h w).0 ≡ failed)
unfolding write_loop ◌>>=◌ continue fail pure
write_loop-settles h zero [] total w l = inl (total, refl)
write_loop-settles h (suc fuel) [] total w l = inl (total, refl)
write_loop-settles h zero (b ∷ bs) total w l = absurd (omega arith)
write_loop-settles h (suc fuel) (b ∷ bs) total w l = elim (write_cases h b bs w) [
  | inl (k, w', e) ↦
      let n = length-drop (length (b ∷ take k bs)) (b ∷ bs) in
      rw e (
        write_loop-settles h fuel (drop (length (b ∷ take k bs)) (b ∷ bs))
          (total + length (b ∷ take k bs)) w' (omega arith))
  | inr e ↦ rw e (inr refl)
]

pub write_while-Settles : (bs : Bytes) → length bs ≤ 2 ^ 18 → Settles (write_while bs)
unfolding write_while
write_while-Settles bs l = record {
  at = λ h w r. write_loop-settles h h.rounds bs 0 w (omega arith);
}
