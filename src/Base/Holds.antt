-- ===== src/Base/Holds.antt =====
-- `Holds f p bs`: the file `f` has the bytes `bs` at offset `p`.
use Prim.Native.Nat.{ℕ, ◌+◌, ◌≤◌, ◌<◌}
use mathlib.Core.Path.{◌≡◌, refl, sym, ap, ap₂, ◌∙◌, subst}
use mathlib.Core.List.{[], ◌∷◌, ◌++◌}
use mathlib.Core.Logic.{◌⊎◌, inl, inr}
use native.Mathlib.Omega.{arith}
use ext.Base.Lists.{length, length-append, take, drop, take-append-drop}
use ext.Base.Image.{
  Bytes, read_at, write_at, length-read_at, length-write_at, length-le-write_at, read_at-write_at,
  read_at-write_at_above, read_at-write_at_below, read_at-append,
}

pub record Holds (f : Bytes) (p : ℕ) (bs : Bytes) : Type 0 where
  pub fits : p + length bs ≤ length f
  pub image : read_at p (length bs) f ≡ bs

-- What was written is there.
pub write_at-Holds : (f : Bytes) (p : ℕ) (bs : Bytes) → 0 < length bs → Holds (write_at p bs f) p bs
write_at-Holds f p bs h = record {
  fits = omega (arith, length-write_at p bs f h);
  image = read_at-write_at p bs f;
}

-- A write to another range leaves it there.
pub Holds-write_at :
    (f : Bytes) (p : ℕ) (bs : Bytes) (q : ℕ) (cs : Bytes)
    → Holds f p bs
    → (p + length bs ≤ q) ⊎ (q + length cs ≤ p)
    → Holds (write_at q cs f) p bs
Holds-write_at f p bs q cs h (inl l) = record {
  fits = omega (arith, h.fits, length-le-write_at q cs f);
  image = read_at-write_at_above p (length bs) q cs f l h.fits ∙ h.image;
}
Holds-write_at f p bs q cs h (inr l) = record {
  fits = omega (arith, h.fits, length-le-write_at q cs f);
  image = read_at-write_at_below p (length bs) q cs f l ∙ h.image;
}

append-inj :
    (xs ys bs cs : Bytes) → length xs ≡ length ys → xs ++ bs ≡ ys ++ cs → (xs ≡ ys) × (bs ≡ cs)
append-inj [] [] bs cs l e = (refl, e)
append-inj [] (y ∷ ys) bs cs l e = absurd (omega arith)
append-inj (x ∷ xs) [] bs cs l e = absurd (omega arith)
append-inj (x ∷ xs) (y ∷ ys) bs cs l e =
    let (d, r) = append-inj xs ys bs cs (omega arith) (cc) in (ap₂ ◌∷◌ (cc) d, r)

-- The two parts of what it holds.
pub Holds-append :
    (f : Bytes) (p : ℕ) (bs cs : Bytes)
    → Holds f p (bs ++ cs)
    → Holds f p bs × Holds f (p + length bs) cs
Holds-append f p bs cs h =
    let size = length-append bs cs in
    let fits = h.fits in
    let (l, r) =
      append-inj (read_at p (length bs) f) bs (read_at (p + length bs) (length cs) f) cs
        (length-read_at p (length bs) f (omega arith))
        (sym (read_at-append p (length bs) (length cs) (p + length bs) f refl (omega arith))
          ∙ ap (λ n. read_at p n f) (sym size)
          ∙ h.image) in
    (record { fits = omega arith; image = l }, record { fits = omega arith; image = r })

pub Holds-take : (f : Bytes) (p n : ℕ) (bs : Bytes) → Holds f p bs → Holds f p (take n bs)
Holds-take f p n bs h =
    (Holds-append f p (take n bs) (drop n bs) (subst (Holds f p) (sym (take-append-drop n bs)) h)).0
