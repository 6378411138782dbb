-- ===== src/Base/Image.antt =====
-- The bytes of a file: reading and writing a range of them. A write past the end fills the gap
-- with zeros.
use Prim.Native.Nat.{ℕ, zero, suc, ◌+◌, ◌≤◌, ◌<◌, max}
use mathlib.Core.Path.{◌≡◌, refl, ap, sym, ◌∙◌}
use mathlib.Core.List.{List, [], ◌∷◌, ◌++◌, append-nil}
use native.Mathlib.Omega.{arith}
use ext.Base.Lists.{length, take}

abbrev pub Bytes : Type 0
Bytes = List ℕ

unfoldable pub read_at : ℕ → ℕ → Bytes → Bytes
read_at zero n f = take n f
read_at (suc p) n [] = []
read_at (suc p) n (x ∷ f) = read_at p n f

overlay : Bytes → Bytes → Bytes
overlay [] f = f
overlay (b ∷ bs) [] = b ∷ bs
overlay (b ∷ bs) (x ∷ f) = b ∷ overlay bs f

place : ℕ → Bytes → Bytes → Bytes
unfolding overlay
place zero bs f = overlay bs f
place (suc p) bs [] = 0 ∷ place p bs []
place (suc p) bs (x ∷ f) = x ∷ place p bs f

length-overlay : (bs f : Bytes) → length (overlay bs f) ≡ max (length f) (length bs)
unfolding overlay
length-overlay [] f = omega arith
length-overlay (b ∷ bs) [] = omega arith
length-overlay (b ∷ bs) (x ∷ f) = omega (arith, length-overlay bs f)

length-place : (p : ℕ) (bs f : Bytes) → length (place p bs f) ≡ max (length f) (p + length bs)
unfolding place
length-place zero bs f = omega (arith, length-overlay bs f)
length-place (suc p) bs [] = omega (arith, length-place p bs [])
length-place (suc p) bs (x ∷ f) = omega (arith, length-place p bs f)

pub length-read_at : (p n : ℕ) (f : Bytes) → p + n ≤ length f → length (read_at p n f) ≡ n
unfolding read_at
length-read_at zero zero f h = refl
length-read_at zero (suc n) [] h = absurd (omega arith)
length-read_at zero (suc n) (x ∷ f) h =
    ap suc (unfold read_at in length-read_at zero n f (omega arith))
length-read_at (suc p) n [] h = absurd (omega arith)
length-read_at (suc p) n (x ∷ f) h = length-read_at p n f (omega arith)

take-overlay : (bs f : Bytes) → take (length bs) (overlay bs f) ≡ bs
unfolding overlay
take-overlay [] f = refl
take-overlay (b ∷ []) [] = refl
take-overlay (b ∷ c ∷ bs) [] = ap (λ l. b ∷ l) (take-overlay (c ∷ bs) [])
take-overlay (b ∷ bs) (x ∷ f) = ap (λ l. b ∷ l) (take-overlay bs f)

read_at-place : (p : ℕ) (bs f : Bytes) → read_at p (length bs) (place p bs f) ≡ bs
unfolding read_at place
read_at-place zero bs f = take-overlay bs f
read_at-place (suc p) bs [] = read_at-place p bs []
read_at-place (suc p) bs (x ∷ f) = read_at-place p bs f

read_at-place_above :
    (p n q : ℕ) (bs f : Bytes)
    → p + n ≤ q
    → p + n ≤ length f
    → read_at p n (place q bs f) ≡ read_at p n f
unfolding read_at place
read_at-place_above zero zero q bs f h l = refl
read_at-place_above zero (suc n) zero bs f h l = absurd (omega arith)
read_at-place_above zero (suc n) (suc q) bs [] h l = absurd (omega arith)
read_at-place_above zero (suc n) (suc q) bs (x ∷ f) h l =
    ap (λ l. x ∷ l) (read_at-place_above zero n q bs f (omega arith) (omega arith))
read_at-place_above (suc p) n zero bs f h l = absurd (omega arith)
read_at-place_above (suc p) n (suc q) bs [] h l = absurd (omega arith)
read_at-place_above (suc p) n (suc q) bs (x ∷ f) h l =
    read_at-place_above p n q bs f (omega arith) (omega arith)

read_at-nil : (p n : ℕ) → read_at p n [] ≡ []
unfolding read_at
read_at-nil zero zero = refl
read_at-nil zero (suc n) = refl
read_at-nil (suc p) n = refl

pub read_at-zero : (p : ℕ) (f : Bytes) → read_at p 0 f ≡ []
unfolding read_at
read_at-zero zero f = refl
read_at-zero (suc p) [] = refl
read_at-zero (suc p) (x ∷ f) = read_at-zero p f

read_at_past : (p n : ℕ) (f : Bytes) → length f ≤ p → read_at p n f ≡ []
unfolding read_at
read_at_past zero n [] h = read_at-nil zero n
read_at_past zero n (x ∷ f) h = absurd (omega arith)
read_at_past (suc p) n [] h = refl
read_at_past (suc p) n (x ∷ f) h = read_at_past p n f (omega arith)

read_at-overlay :
    (p n : ℕ) (bs f : Bytes) → length bs ≤ p → read_at p n (overlay bs f) ≡ read_at p n f
unfolding read_at overlay
read_at-overlay p n [] f h = refl
read_at-overlay zero n (b ∷ bs) f h = absurd (omega arith)
read_at-overlay (suc p) n (b ∷ bs) [] h = read_at_past p n bs (omega arith)
read_at-overlay (suc p) n (b ∷ bs) (x ∷ f) h = read_at-overlay p n bs f (omega arith)

read_at-place_below :
    (p n q : ℕ) (bs f : Bytes) → q + length bs ≤ p → read_at p n (place q bs f) ≡ read_at p n f
unfolding read_at place
read_at-place_below p n zero bs f h = read_at-overlay p n bs f (omega arith)
read_at-place_below zero n (suc q) bs f h = absurd (omega arith)
read_at-place_below (suc p) n (suc q) bs [] h =
    read_at-place_below p n q bs [] (omega arith) ∙ read_at-nil p n
read_at-place_below (suc p) n (suc q) bs (x ∷ f) h = read_at-place_below p n q bs f (omega arith)

overlay-append : (cs bs f : Bytes) → overlay (cs ++ bs) f ≡ place (length cs) bs (overlay cs f)
unfolding overlay place
overlay-append [] bs f = refl
overlay-append (a ∷ cs) bs [] = ap (λ l. a ∷ l) (go cs bs)
  where
    go : (cs bs : Bytes) → cs ++ bs ≡ place (length cs) bs cs
    go [] [] = refl
    go [] (b ∷ bs) = refl
    go (a ∷ cs) bs = ap (λ l. a ∷ l) (go cs bs)
overlay-append (a ∷ cs) bs (x ∷ f) = ap (λ l. a ∷ l) (overlay-append cs bs f)

place-place :
    (p q : ℕ) (cs bs f : Bytes)
    → q ≡ p + length cs
    → place q bs (place p cs f) ≡ place p (cs ++ bs) f
unfolding place
place-place zero q cs bs f e =
    let e' : q ≡ length cs = omega arith in rw e' (sym (overlay-append cs bs f))
place-place (suc p) zero cs bs f e = absurd (omega arith)
place-place (suc p) (suc q) cs bs [] e = ap (λ l. 0 ∷ l) (place-place p q cs bs [] (omega arith))
place-place (suc p) (suc q) cs bs (x ∷ f) e =
    ap (λ l. x ∷ l) (place-place p q cs bs f (omega arith))

-- A range is read in two steps cs well.
pub read_at-append :
    (p m n q : ℕ) (f : Bytes)
    → q ≡ p + m
    → p + m ≤ length f
    → read_at p (m + n) f ≡ read_at p m f ++ read_at q n f
unfolding read_at
read_at-append zero zero n q f e h =
    let e' : q ≡ zero = omega arith in let s : zero + n ≡ n = omega arith in rw (e', s)
read_at-append zero (suc m) n zero f e h = absurd (omega arith)
read_at-append zero (suc m) n (suc q) [] e h = absurd (omega arith)
read_at-append zero (suc m) n (suc q) (x ∷ f) e h =
    let s : suc m + n ≡ suc (m + n) = omega arith in
    rw s (ap (λ l. x ∷ l) (read_at-append zero m n q f (omega arith) (omega arith)))
read_at-append (suc p) m n zero f e h = absurd (omega arith)
read_at-append (suc p) m n (suc q) [] e h = absurd (omega arith)
read_at-append (suc p) m n (suc q) (x ∷ f) e h =
    read_at-append p m n q f (omega arith) (omega arith)

-- A write of no bytes does not extend the file.
unfoldable pub write_at : ℕ → Bytes → Bytes → Bytes
unfolding place
write_at p [] f = f
write_at p (b ∷ bs) f = place p (b ∷ bs) f

pub length-write_at :
    (p : ℕ) (bs f : Bytes)
    → 0 < length bs
    → length (write_at p bs f) ≡ max (length f) (p + length bs)
unfolding write_at
length-write_at p [] f h = absurd (omega arith)
length-write_at p (b ∷ bs) f h = length-place p (b ∷ bs) f

pub length-le-write_at : (p : ℕ) (bs f : Bytes) → length f ≤ length (write_at p bs f)
unfolding write_at
length-le-write_at p [] f = omega arith
length-le-write_at p (b ∷ bs) f = omega (arith, length-place p (b ∷ bs) f)

-- What was written is read back.
pub read_at-write_at : (p : ℕ) (bs f : Bytes) → read_at p (length bs) (write_at p bs f) ≡ bs
unfolding write_at
read_at-write_at p [] f = read_at-zero p f
read_at-write_at p (b ∷ bs) f = read_at-place p (b ∷ bs) f

-- A write behind a range that the file holds does not change it.
pub read_at-write_at_above :
    (p n q : ℕ) (bs f : Bytes)
    → p + n ≤ q
    → p + n ≤ length f
    → read_at p n (write_at q bs f) ≡ read_at p n f
unfolding write_at
read_at-write_at_above p n q [] f h l = refl
read_at-write_at_above p n q (b ∷ bs) f h l = read_at-place_above p n q (b ∷ bs) f h l

-- A write before a range does not change it.
pub read_at-write_at_below :
    (p n q : ℕ) (bs f : Bytes) → q + length bs ≤ p → read_at p n (write_at q bs f) ≡ read_at p n f
unfolding write_at
read_at-write_at_below p n q [] f h = refl
read_at-write_at_below p n q (b ∷ bs) f h = read_at-place_below p n q (b ∷ bs) f h

-- Two adjacent writes are one.
pub write_at-write_at :
    (p q : ℕ) (cs bs f : Bytes)
    → q ≡ p + length cs
    → write_at q bs (write_at p cs f) ≡ write_at p (cs ++ bs) f
unfolding write_at
write_at-write_at p q [] bs f e = let e' : q ≡ p = omega arith in rw e'
write_at-write_at p q (c ∷ cs) [] f e = rw append-nil
write_at-write_at p q (c ∷ cs) (b ∷ bs) f e = place-place p q (c ∷ cs) (b ∷ bs) f e
