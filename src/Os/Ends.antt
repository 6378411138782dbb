-- ===== src/Os/Ends.antt =====
-- `Ends h m f a f'`: under the host `h`, from the file `f`, the action `m` returns `a` and leaves
-- the file `f'`, whatever calls were made before. The rules follow the shape of a do block.
use ext.Base.{
  ℕ, List, get_elem?, set, ◌≡◌, refl, Option, some, Bool, true, false, if◌then◌else◌, arith,
}
use ext.Os.{
  Host, File, ok, failed, M, pure, ◌>>=◌, attempt, element, lseek, assign, caught, continue,
}

pub record Ends {A : Type 0} (h : Host) (m : M A) (f : File) (a : A) (f' : File) : Type 0 where
  pub at :
      (t : ℕ)
      → (t' : ℕ) × (m h (record { file = f; calls = t }) ≡ (ok a, record { file = f'; calls = t' }))

-- The same for an action that returns -1.
pub record Fails {A : Type 0} (h : Host) (m : M A) (f f' : File) : Type 0 where
  pub at :
      (t : ℕ)
      → (t' : ℕ) × (m h (record { file = f; calls = t })
          ≡ (failed, record { file = f'; calls = t' }))

module _ {A : Type 0} {h : Host} where
  pub Ends-pure : (a : A) (f : File) → Ends h (pure a) f a f
  unfolding pure
  Ends-pure a f = record { at = λ t. (t, refl) }

  pub Ends-element : (o : Option A) (a : A) (f : File) → o ≡ some a → Ends h (element o) f a f
  unfolding element
  Ends-element o a f e = record { at = λ t. (t, rw e) }

  -- Two results of one action are equal.
  pub Ends-result :
      (m : M A) (f : File) (a b : A) (f1 f2 : File)
      → Ends h m f a f1
      → Ends h m f b f2
      → (a ≡ b) × (f1 ≡ f2)
  Ends-result m f a b f1 f2 p q = let (t, e) = p.at 0 in let (u, d) = q.at 0 in ground arith

pub Ends-assign :
    {A : Type 0} {h : Host} (xs : List A) (i : ℕ) (a old : A) (f : File)
    → get_elem? xs i ≡ some old
    → Ends h (assign xs i a) f (set xs i a) f
unfolding assign
Ends-assign xs i a old f e = record { at = λ t. (t, rw (e, assign)) }

module _ {A B : Type 0} {h : Host} where
  pub Ends-bind :
      (m : M A) (k : A → M B) {f f1 f2 : File} {a : A} {b : B}
      → Ends h m f a f1
      → Ends h (k a) f1 b f2
      → Ends h (m >>= k) f b f2
  unfolding ◌>>=◌
  Ends-bind m k p q = record {
    at = λ t. let (t1, e1) = p.at t in let (t2, e2) = q.at t1 in (t2, rw (e1, continue) e2);
  }

module _ {A : Type 0} {h : Host} where
  pub Ends-attempt :
      {m : M A} {f f1 : File} {a : A} → Ends h m f a f1 → Ends h (attempt m) f (some a) f1
  unfolding attempt
  Ends-attempt p = record { at = λ t. let (t1, e1) = p.at t in (t1, rw (e1, caught)) }

  pub Ends-if_true :
      {b : Bool} (m n : M A) {f f1 : File} {a : A}
      → b ≡ true
      → Ends h m f a f1
      → Ends h (if b then m else n) f a f1
  Ends-if_true m n e p = rw e p

  pub Ends-if_false :
      {b : Bool} (m n : M A) {f f1 : File} {a : A}
      → b ≡ false
      → Ends h n f a f1
      → Ends h (if b then m else n) f a f1
  Ends-if_false m n e p = rw e p

pub Ends-lseek : {h : Host} (p : ℕ) (f : File) → Ends h (lseek p) f tt (record f { pos = p })
unfolding lseek
Ends-lseek p f = record { at = λ t. (t, refl) }
