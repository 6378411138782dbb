-- ===== src/Utils/Read.antt =====
-- What the loop of read_while does: on a steady host it reads all that was asked for, if the file
-- holds it; at the end of the file it never ends.
use ext.Base.{
  inl, inr, ◌≢◌, ◌<◌, ◌∷◌, length-take, ℕ, zero, suc, ◌+◌, ◌-◌, ◌^◌, ◌≤◌, ◌≡◌, refl, sym, ap, ap₂,
  ◌∙◌, [], ◌++◌, length, arith, min, append_assoc, append-nil,
}
use mathlib.Core.Path.{subst₂}
use ext.Base.Holds.{Holds}
use ext.Base.Image.{Bytes, read_at, read_at-append, read_at-zero, length-read_at}
use ext.Os.{
  World, attempt, Host, File, ok, hung, hang, moves, error, caught, Reply-cases, pure, ◌>>=◌, read,
  continue, IsSteady,
}
use ext.Os.Ends.{Ends, Ends-pure}
use ext.Utils.{read_loop, read_while, fill_loop, fill_while}

-- The file after `n` bytes were read.
abbrev pub after_read : File → ℕ → File
after_read f n = record { bytes = f.bytes; pos = f.pos + n }

read_step :
    (h : Host) (n : ℕ) (f : File) (t k : ℕ)
    → h.reply t ≡ moves k
    → f.pos + n ≤ length f.bytes
    → read n h (record { file = f; calls = t }) ≡ (
      ok (read_at f.pos (min n (suc k)) f.bytes),
      record { file = after_read f (min n (suc k)); calls = suc t },
    )
unfolding read
read_step h n f t k e l =
    let size = length-read_at f.pos (min n (suc k)) f.bytes (omega arith) in rw (read, e, size)

read_loop_step :
    (h : Host) (fuel left : ℕ) (buffer : Bytes) (f : File) (t k : ℕ)
    → h.reply t ≡ moves k
    → f.pos + suc left ≤ length f.bytes
    → read_loop (suc fuel) (suc left) buffer h (record { file = f; calls = t })
      ≡ read_loop fuel
          (suc left - min (suc left) (suc k))
          (buffer ++ read_at f.pos (min (suc left) (suc k)) f.bytes)
          h
          (record { file = after_read f (min (suc left) (suc k)); calls = suc t })
unfolding read_loop ◌>>=◌
read_loop_step h fuel left buffer f t k e l =
    let size = length-read_at f.pos (min (suc left) (suc k)) f.bytes (omega arith) in
    rw (read_step h (suc left) f t k e l, continue, size)

read_loop-zero : (fuel : ℕ) (buffer : Bytes) → read_loop fuel zero buffer ≡ pure buffer
unfolding read_loop
read_loop-zero zero buffer = refl
read_loop-zero (suc fuel) buffer = refl

-- Two steps of reading are one.
joined :
    (f : File) (n c : ℕ) (buffer : Bytes)
    → c ≤ n
    → f.pos + n ≤ length f.bytes
    → ◌≡◌ {A = Bytes × File}
        (
          (buffer ++ read_at f.pos c f.bytes) ++ read_at (f.pos + c) (n - c) f.bytes,
          after_read (after_read f c) (n - c),
        )
        (buffer ++ read_at f.pos n f.bytes, after_read f n)
joined f n c buffer l m =
    let whole : c + (n - c) ≡ n = omega arith in
    let split : read_at f.pos n f.bytes
        ≡ read_at f.pos c f.bytes ++ read_at (f.pos + c) (n - c) f.bytes =
      ap (λ k. read_at f.pos k f.bytes) (sym whole)
      ∙ read_at-append f.pos c (n - c) (f.pos + c) f.bytes refl (omega arith) in
    ap₂ (λ x y. (x, y))
      (append_assoc buffer (read_at f.pos c f.bytes) (read_at (f.pos + c) (n - c) f.bytes)
        ∙ ap (λ l. buffer ++ l) (sym split))
      (ap (λ p. record { bytes = f.bytes; pos = p }) (omega arith))

module _ (h : Host) (moving : (t : ℕ) → (k : ℕ) × (h.reply t ≡ moves k)) where
  read_loop-Ends :
      (fuel left : ℕ) (buffer : Bytes) (f : File)
      → left ≤ fuel
      → f.pos + left ≤ length f.bytes
      → Ends h
          (read_loop fuel left buffer)
          f
          (buffer ++ read_at f.pos left f.bytes)
          (after_read f left)
  read_loop-Ends fuel zero buffer f l m =
      let e : f.pos + 0 ≡ f.pos = omega arith in
      rw (read_loop-zero, read_at-zero, append-nil, e) (Ends-pure buffer f)
  read_loop-Ends zero (suc left) buffer f l m = absurd (omega arith)
  read_loop-Ends (suc fuel) (suc left) buffer f l m = record {
    at = λ t.
        let (k, e) = moving t in
        let c = min (suc left) (suc k) in
        let again =
          read_loop-Ends fuel (suc left - c) (buffer ++ read_at f.pos c f.bytes) (after_read f c)
            (omega arith) (omega arith) in
        let (t', r) = again.at (suc t) in
        (
          t',
          read_loop_step h fuel left buffer f t k e m
              ∙ r
              ∙ ap (λ p. (ok p.0, record { file = p.1; calls = t' }))
                  (joined f (suc left) c buffer (omega arith) m),
        );
  }

-- On a steady host read_while returns the bytes at the position, as many as asked for, and moves
-- the position behind them, if the file holds them.
pub read_while-Ends :
    {h : Host} (s : IsSteady h) (n : ℕ) (f : File)
    → n ≤ 2 ^ 18
    → f.pos + n ≤ length f.bytes
    → Ends h (read_while n) f (read_at f.pos n f.bytes) (after_read f n)
unfolding read_while
read_while-Ends {h} s n f l m = record {
  at = (read_loop-Ends h s.moving h.rounds n [] f (omega (arith, s.enough)) m).at;
}

length-read_at-le :
    (p n : ℕ) (f : Bytes) → (length (read_at p n f) ≤ n) × (length (read_at p n f) ≤ length f - p)
unfolding read_at
length-read_at-le zero n f = omega (arith, length-take n f)
length-read_at-le (suc p) n [] = omega arith
length-read_at-le (suc p) n (x ∷ f) = omega (arith, length-read_at-le p n f)

read_step_any :
    (h : Host) (n : ℕ) (f : File) (t k : ℕ)
    → h.reply t ≡ moves k
    → let chunk = read_at f.pos (min n (suc k)) f.bytes in
      read n h (record { file = f; calls = t })
      ≡ (ok chunk, record { file = after_read f (length chunk); calls = suc t })
unfolding read
read_step_any h n f t k e = rw (read, e)

read_loop_step_any :
    (h : Host) (fuel left : ℕ) (buffer : Bytes) (f : File) (t k : ℕ)
    → h.reply t ≡ moves k
    → let chunk = read_at f.pos (min (suc left) (suc k)) f.bytes in
      read_loop (suc fuel) (suc left) buffer h (record { file = f; calls = t })
      ≡ read_loop fuel
          (suc left - length chunk)
          (buffer ++ chunk)
          h
          (record { file = after_read f (length chunk); calls = suc t })
unfolding read_loop ◌>>=◌
read_loop_step_any h fuel left buffer f t k e = rw (read_step_any h (suc left) f t k e, continue)

module _ (h : Host) (moving : (t : ℕ) → (k : ℕ) × (h.reply t ≡ moves k)) where
  read_loop_hangs :
      (fuel left : ℕ) (buffer : Bytes) (f : File) (t : ℕ)
      → 0 < left
      → length f.bytes < f.pos + left
      → (read_loop fuel left buffer h (record { file = f; calls = t })).0 ≡ hung
  read_loop_hangs fuel zero buffer f t p l = absurd (omega arith)
  read_loop_hangs zero (suc left) buffer f t p l = unfold read_loop hang in refl
  read_loop_hangs (suc fuel) (suc left) buffer f t p l =
      let (k, e) = moving t in
      let chunk = read_at f.pos (min (suc left) (suc k)) f.bytes in
      let short = length-read_at-le f.pos (min (suc left) (suc k)) f.bytes in
      rw (read_loop_step_any h fuel left buffer f t k e) (
        read_loop_hangs fuel (suc left - length chunk) (buffer ++ chunk)
          (after_read f (length chunk)) (suc t) (omega arith) (omega arith))

-- A read beyond the end of the file never ends if no call fails: whatever its fuel, read_while
-- runs out of it.
pub read_while_hangs :
    (h : Host) (moving : (t : ℕ) → (k : ℕ) × (h.reply t ≡ moves k)) (n : ℕ) (f : File) (t : ℕ)
    → 0 < n
    → length f.bytes < f.pos + n
    → (read_while n h (record { file = f; calls = t })).0 ≡ hung
unfolding read_while
read_while_hangs h moving n f t p l = read_loop_hangs h moving h.rounds n [] f t p l

-- The same for a file of which the bytes at the position are known.
pub read_while-Holds :
    {h : Host} (s : IsSteady h) (n p q : ℕ) (bs file : Bytes)
    → n ≡ length bs
    → p + n ≡ q
    → n ≤ 2 ^ 18
    → Holds file p bs
    → Ends h (read_while n) (record { bytes = file; pos = p }) bs (record { bytes = file; pos = q })
read_while-Holds {h} s n p q bs file e g l d =
    let image : read_at p n file ≡ bs = ap (λ k. read_at p k file) e ∙ d.image in
    subst₂
      (λ b r.
        Ends h (read_while n) (record { bytes = file; pos = p }) b
          (record { bytes = file; pos = r }))
      image g (read_while-Ends s n (record { bytes = file; pos = p }) l (omega (arith, d.fits)))

fill_loop-zero : (fuel : ℕ) (buffer : Bytes) → fill_loop fuel zero buffer ≡ pure buffer
unfolding fill_loop
fill_loop-zero zero buffer = refl
fill_loop-zero (suc fuel) buffer = refl

fill_loop_step :
    (h : Host) (fuel left : ℕ) (buffer : Bytes) (f : File) (t k : ℕ)
    → h.reply t ≡ moves k
    → let chunk = read_at f.pos (min (suc left) (suc k)) f.bytes in
      fill_loop (suc fuel) (suc left) buffer h (record { file = f; calls = t })
      ≡ fill_loop fuel
          (suc left - length chunk)
          (buffer ++ chunk)
          h
          (record { file = after_read f (length chunk); calls = suc t })
unfolding fill_loop ◌>>=◌ attempt
fill_loop_step h fuel left buffer f t k e =
    rw (read_step_any h (suc left) f t k e, continue, caught)

read_loop_fails :
    (h : Host) (fuel left : ℕ) (buffer : Bytes) (w : World)
    → h.reply w.calls ≡ error
    → (b : Bytes) (w' : World) → read_loop (suc fuel) (suc left) buffer h w ≢ (ok b, w')
unfolding read_loop read ◌>>=◌
read_loop_fails h fuel left buffer w x b w' e = ground arith

-- Where read_while returns a full buffer, that is what it leaves in the buffer.
fill_loop-read_loop :
    (h : Host) (fuel left : ℕ) (buffer b : Bytes) (w w' : World)
    → read_loop fuel left buffer h w ≡ (ok b, w')
    → fill_loop fuel left buffer h w ≡ (ok b, w')
fill_loop-read_loop h fuel zero buffer b w w' e = rw fill_loop-zero (rw read_loop-zero at e)
fill_loop-read_loop h zero (suc left) buffer b w w' e = unfold read_loop fill_loop hang in cc
fill_loop-read_loop h (suc fuel) (suc left) buffer b w w' e = elim (Reply-cases (h.reply w.calls)) [
  | inl x ↦ absurd (read_loop_fails h fuel left buffer w x b w' e)
  | inr (k, x) ↦
      let chunk = read_at w.file.pos (min (suc left) (suc k)) w.file.bytes in
      fill_loop_step h fuel left buffer w.file w.calls k x
      ∙ fill_loop-read_loop h fuel (suc left - length chunk) (buffer ++ chunk) b
          (record { file = after_read w.file (length chunk); calls = suc w.calls }) w'
          (sym (read_loop_step_any h fuel left buffer w.file w.calls k x) ∙ e)
]

pub fill_while-Ends :
    {h : Host} (n : ℕ) (b : Bytes) (f f' : File)
    → Ends h (read_while n) f b f'
    → Ends h (fill_while n) f b f'
unfolding fill_while read_while
fill_while-Ends {h} n b f f' r = record {
  at = λ t. let (t', e) = r.at t in (t', fill_loop-read_loop h h.rounds n [] b _ _ e);
}
