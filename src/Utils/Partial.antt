-- ===== src/Utils/Partial.antt =====
-- What write_while has done whatever the host answers: a front part of the buffer is in the file.
use ext.Base.{
  subst, ◌⊎◌, inl, inr, length-take, ℕ, zero, suc, ◌+◌, ◌≤◌, ◌≡◌, refl, sym, ap, ◌∙◌, [], ◌∷◌, ◌++◌,
  length, take, drop, arith, length-drop,
}
use ext.Base.Image.{Bytes}
use ext.Os.{
  Host, File, Reply-cases, error, ok, failed, hung, Outcome, World, hang, pure, ◌>>=◌, write,
}
use ext.Utils.{write_loop, write_while}
use ext.Utils.Write.{
  after_write, write_loop-nil, write_loop_step, after_write-append, after_write-nil,
}

-- What a run of the loop has done, whatever the host: a front part of the buffer is in the file,
-- all of it if the loop returns, and the loop ends by returning, by -1 or for want of fuel.
pub record Wrote (bs : Bytes) (total : ℕ) (f : File) (out : Outcome ℕ × World) : Type 0 where
  pub count : ℕ
  pub within : count ≤ length bs
  pub file : out.1.file ≡ after_write f (take count bs)
  pub ends :
      (out.0 ≡ ok (total + length bs)) × (count ≡ length bs) ⊎ (out.0 ≡ failed) ⊎ (out.0 ≡ hung)

take-nil : (n : ℕ) → take {A = ℕ} n [] ≡ []
take-nil zero = refl
take-nil (suc n) = refl

take-append :
    (n m : ℕ) (bs : Bytes)
    → take (length (take n bs) + m) bs ≡ take n bs ++ take m (drop (length (take n bs)) bs)
take-append zero m bs = ap (λ k. take k bs) (omega arith)
take-append (suc n) m [] = take-nil (0 + m) ∙ sym (take-nil m)
take-append (suc n) m (b ∷ bs) =
    let e : suc (length (take n bs)) + m ≡ suc (length (take n bs) + m) = omega arith in
    rw e (ap (λ l. b ∷ l) (take-append n m bs))

-- One more round in front of a run.
Wrote-cons :
    (k : ℕ) (bs : Bytes) (total : ℕ) (f : File) (out : Outcome ℕ × World)
    → let chunk = take (suc k) bs in
      Wrote (drop (length chunk) bs) (total + length chunk) (after_write f chunk) out
      → Wrote bs total f out
Wrote-cons k bs total f out w =
    let chunk = take (suc k) bs in
    let size = length-drop (length chunk) bs in
    let short = length-take (suc k) bs in
    record {
      count = length chunk + w.count;
      within = omega (arith, w.within);
      file =
          w.file
          ∙ after_write-append f chunk _
          ∙ ap (after_write f) (sym (take-append (suc k) w.count bs));
      ends = ground (arith, w.ends, size, short);
    }

write_loop_hangs :
    (h : Host) (b : ℕ) (bs : Bytes) (total : ℕ) (f : File) (t : ℕ)
    → write_loop zero (b ∷ bs) total h (record { file = f; calls = t })
      ≡ (hung, record { file = f; calls = t })
unfolding write_loop hang
write_loop_hangs h b bs total f t = refl

write_loop_fails :
    (h : Host) (fuel b : ℕ) (bs : Bytes) (total : ℕ) (f : File) (t : ℕ)
    → h.reply t ≡ error
    → write_loop (suc fuel) (b ∷ bs) total h (record { file = f; calls = t })
      ≡ (failed, record { file = f; calls = suc t })
unfolding write_loop write ◌>>=◌
write_loop_fails h fuel b bs total f t e = ground arith

module _ (h : Host) where
  write_loop-Wrote :
      (fuel : ℕ) (bs : Bytes) (total : ℕ) (f : File) (t : ℕ)
      → Wrote bs total f (write_loop fuel bs total h (record { file = f; calls = t }))
  unfolding pure
  write_loop-Wrote fuel [] total f t = rw write_loop-nil (record {
    count = 0;
    within = omega arith;
    file = sym (after_write-nil f);
    ends = inl (ap (λ n. ok n) (omega arith), refl);
  })
  write_loop-Wrote zero (b ∷ bs) total f t =
      subst (Wrote (b ∷ bs) total f) (sym (write_loop_hangs h b bs total f t)) (record {
        count = 0;
        within = omega arith;
        file = sym (after_write-nil f);
        ends = inr (inr refl);
      })
  write_loop-Wrote (suc fuel) (b ∷ bs) total f t = elim (Reply-cases (h.reply t)) [
    | inl e ↦
        subst (Wrote (b ∷ bs) total f) (sym (write_loop_fails h fuel b bs total f t e)) (record {
          count = 0;
          within = omega arith;
          file = sym (after_write-nil f);
          ends = inr (inl refl);
        })
    | inr (k, e) ↦
        subst (Wrote (b ∷ bs) total f) (sym (write_loop_step h fuel b bs total f t k e)) (
          Wrote-cons k (b ∷ bs) total f _ (
            write_loop-Wrote fuel (drop (length (take (suc k) (b ∷ bs))) (b ∷ bs))
              (total + length (take (suc k) (b ∷ bs))) (after_write f (take (suc k) (b ∷ bs)))
              (suc t)))
  ]

-- Whatever the host answers, write_while leaves a front part of its buffer in the file and no
-- other change; it returns only if that is the whole buffer, and it returns the size of it.
pub write_while_lem :
    (h : Host) (bs : Bytes) (f : File) (t : ℕ)
    → Wrote bs 0 f (write_while bs h (record { file = f; calls = t }))
unfolding write_while
write_while_lem h bs f t = write_loop-Wrote h h.rounds bs 0 f t
