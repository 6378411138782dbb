-- ===== src/Utils/Write.antt =====
-- What the loop of write_while does on a steady host: it writes the whole buffer.
use ext.Base.{
  append_assoc, subst, ℕ, zero, suc, ◌+◌, ◌^◌, ◌≤◌, ◌≡◌, refl, sym, ap, ap₂, ◌∙◌, [], ◌∷◌, ◌++◌,
  length, take, drop, arith, length-drop, length-append,
}
use ext.Base.Image.{Bytes, write_at, write_at-write_at}
use ext.Os.{Host, File, moves, ok, pure, ◌>>=◌, write, continue, IsSteady}
use ext.Os.Ends.{Ends, Ends-pure, Ends-bind}
use ext.Utils.{write_loop, write_while}

-- The file after `bs` was written.
abbrev pub after_write : File → Bytes → File
after_write f bs = record { bytes = write_at f.pos bs f.bytes; pos = f.pos + length bs }

pub write_loop-nil : (fuel total : ℕ) → write_loop fuel [] total ≡ pure total
unfolding write_loop
write_loop-nil zero total = refl
write_loop-nil (suc fuel) total = refl

append-take-drop : (n : ℕ) (bs : Bytes) → take n bs ++ drop (length (take n bs)) bs ≡ bs
append-take-drop zero bs = refl
append-take-drop (suc n) [] = refl
append-take-drop (suc n) (b ∷ bs) = ap (λ l. b ∷ l) (append-take-drop n bs)

pub after_write-append :
    (f : File) (cs bs : Bytes) → after_write (after_write f cs) bs ≡ after_write f (cs ++ bs)
after_write-append f cs bs =
    let e = write_at-write_at f.pos (f.pos + length cs) cs bs f.bytes refl in
    ground (arith, e, length-append cs bs)

write_step :
    (h : Host) (bs : Bytes) (f : File) (t k : ℕ)
    → h.reply t ≡ moves k
    → write bs h (record { file = f; calls = t }) ≡ (
      ok (length (take (suc k) bs)),
      record { file = after_write f (take (suc k) bs); calls = suc t },
    )
unfolding write
write_step h bs f t k e = rw (write, e)

joined :
    (f : File) (b : ℕ) (bs : Bytes) (total k : ℕ)
    → let chunk = b ∷ take k bs in
      let rest = drop (length chunk) (b ∷ bs) in
      ◌≡◌ {A = ℕ × File}
        (total + length chunk + length rest, after_write (after_write f chunk) rest)
        (total + length (b ∷ bs), after_write f (b ∷ bs))
joined f b bs total k =
    let all = append-take-drop (suc k) (b ∷ bs) in
    let sum =
      length-append (take (suc k) (b ∷ bs)) (drop (length (take (suc k) (b ∷ bs))) (b ∷ bs)) in
    let e : length (take (suc k) (b ∷ bs)) + length (drop (length (take (suc k) (b ∷ bs))) (b ∷ bs))
        ≡ length (b ∷ bs) =
      sym sum ∙ ap length all in
    ap₂ (λ x y. (x, y)) (omega arith) (after_write-append f _ _ ∙ ap (after_write f) all)

-- One round of the loop.
pub write_loop_step :
    (h : Host) (fuel b : ℕ) (bs : Bytes) (total : ℕ) (f : File) (t k : ℕ)
    → h.reply t ≡ moves k
    → let chunk = b ∷ take k bs in
      write_loop (suc fuel) (b ∷ bs) total h (record { file = f; calls = t })
      ≡ write_loop fuel
          (drop (length chunk) (b ∷ bs))
          (total + length chunk)
          h
          (record { file = after_write f chunk; calls = suc t })
unfolding write_loop ◌>>=◌
write_loop_step h fuel b bs total f t k e = rw (write_step h (b ∷ bs) f t k e, continue)

module _ (h : Host) (moving : (t : ℕ) → (k : ℕ) × (h.reply t ≡ moves k)) where
  write_loop-Ends :
      (fuel : ℕ) (bs : Bytes) (total : ℕ) (f : File)
      → length bs ≤ fuel
      → Ends h (write_loop fuel bs total) f (total + length bs) (after_write f bs)
  unfolding write_at
  write_loop-Ends fuel [] total f l =
      let e : f.pos + 0 ≡ f.pos = omega arith in
      let d : total + 0 ≡ total = omega arith in rw (write_loop-nil, d, e) (Ends-pure total f)
  write_loop-Ends zero (b ∷ bs) total f l = absurd (omega arith)
  write_loop-Ends (suc fuel) (b ∷ bs) total f l = record {
    at = λ t.
        let (k, e) = moving t in
        let chunk = b ∷ take k bs in
        let rest = drop (length chunk) (b ∷ bs) in
        let short = length-drop (length chunk) (b ∷ bs) in
        let again =
          write_loop-Ends fuel rest (total + length chunk) (after_write f chunk) (omega arith) in
        let (t', r) = again.at (suc t) in
        (
          t',
          write_loop_step h fuel b bs total f t k e
              ∙ r
              ∙ ap (λ p. (ok p.0, record { file = p.1; calls = t' })) (joined f b bs total k),
        );
  }

-- Under a host that fails no call, write_while writes the whole of a buffer of at most 2^18 bytes
-- at the position of the file and returns its size.
pub write_while-Ends :
    {h : Host} (s : IsSteady h) (bs : Bytes) (f : File)
    → length bs ≤ 2 ^ 18
    → Ends h (write_while bs) f (length bs) (after_write f bs)
unfolding write_while
write_while-Ends {h} s bs f l =
    let total : 0 + length bs ≡ length bs = omega arith in
    record {
      at =
          (subst (λ n. Ends h (write_loop h.rounds bs 0) f n (after_write f bs)) total
            (write_loop-Ends h s.moving h.rounds bs 0 f (omega (arith, s.enough)))).at;
    }

pub after_write-nil : (f : File) → after_write f [] ≡ f
unfolding write_at
after_write-nil f = ap (λ p. record { bytes = f.bytes; pos = p }) (omega arith)

-- Two and three writes in a row are one.
module _ {h : Host} (s : IsSteady h) where
  pub write_two-Ends :
      (bs cs : Bytes) (f : File)
      → length bs ≤ 2 ^ 18
      → length cs ≤ 2 ^ 18
      → Ends h
          (do x ← write_while bs; y ← write_while cs; pure (x + y))
          f
          (length bs + length cs)
          (after_write f (bs ++ cs))
  write_two-Ends bs cs f l m =
      subst (Ends h _ f (length bs + length cs)) (after_write-append f bs cs) (
        Ends-bind _ _ (write_while-Ends s bs f l)
          (Ends-bind _ _ (write_while-Ends s cs (after_write f bs) m) (Ends-pure _ _)))

  pub write_three-Ends :
      (bs cs ds : Bytes) (f : File)
      → length bs ≤ 2 ^ 18
      → length cs ≤ 2 ^ 18
      → length ds ≤ 2 ^ 18
      → Ends h
          (do x ← write_while bs; y ← write_while cs; z ← write_while ds; pure (x + y + z))
          f
          (length bs + length cs + length ds)
          (after_write f (bs ++ (cs ++ ds)))
  write_three-Ends bs cs ds f l m n =
      subst (Ends h _ f (length bs + length cs + length ds))
        (ap (λ g. after_write g ds) (after_write-append f bs cs)
          ∙ after_write-append f (bs ++ cs) ds
          ∙ ap (after_write f) (append_assoc bs cs ds))
        (Ends-bind _ _ (write_while-Ends s bs f l) (
          Ends-bind _ _ (write_while-Ends s cs (after_write f bs) m) (
            Ends-bind _ _ (write_while-Ends s ds (after_write (after_write f bs) cs) n)
              (Ends-pure _ _))))
