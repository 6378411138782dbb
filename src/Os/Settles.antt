-- ===== src/Os/Settles.antt =====
-- Actions that come to an end whatever the host answers, one rule for each way to build an action.
use ext.Base.{
  ℕ, ◌^◌, ◌≤◌, ◌≡◌, refl, Bool, true, false, if◌then◌else◌, Option, none, some, ◌⊎◌, inl, inr,
}
use ext.Os.{Host, World, ok, failed, M, pure, fail, continue, ◌>>=◌, attempt, lseek, element}

-- The action returns or fails, if the loops have the rounds for every transfer of the program.
pub record Settles {A : Type 0} (m : M A) : Type 0 where
  pub at :
      (h : Host) (w : World)
      → 2 ^ 18 ≤ h.rounds
      → ((a : A) × ((m h w).0 ≡ ok a)) ⊎ ((m h w).0 ≡ failed)

-- The action returns.
pub record Returns {A : Type 0} (m : M A) : Type 0 where
  pub at : (h : Host) (w : World) → 2 ^ 18 ≤ h.rounds → (a : A) × ((m h w).0 ≡ ok a)

pub Settles-Returns : {A : Type 0} {m : M A} → Returns m → Settles m
Settles-Returns k = record { at = λ h w r. inl (k.at h w r) }

pub Returns-pure : {A : Type 0} (a : A) → Returns (pure a)
unfolding pure
Returns-pure a = record { at = λ h w r. (a, refl) }

pub Returns-lseek : (p : ℕ) → Returns (lseek p)
unfolding lseek
Returns-lseek p = record { at = λ h w r. (tt, refl) }

pub Returns-element : {A : Type 0} (o : Option A) (a : A) → o ≡ some a → Returns (element o)
unfolding element pure
Returns-element o a p = record { at = λ h w r. rw p (a, refl) }

pub Returns-attempt : {A : Type 0} {m : M A} → Settles m → Returns (attempt m)
unfolding attempt
Returns-attempt {m} k = record {
  at = λ h w r. elim (k.at h w r) [ inl (a, e) ↦ rw e (some a, refl) | inr e ↦ rw e (none, refl) ];
}

pub Returns-if :
    {A : Type 0} (b : Bool) {m n : M A} → Returns m → Returns n → Returns (if b then m else n)
Returns-if true k l = k
Returns-if false k l = l

pub Returns-option :
    {A B : Type 0} (o : Option A) {n : M B} {f : A → M B}
    → Returns n
    → ((a : A) → Returns (f a))
    → Returns (elim o [ none ↦ n | some a ↦ f a ])
Returns-option none k l = k
Returns-option (some a) k l = l a

module _ {A B : Type 0} {m : M A} {f : A → M B} where
  -- The second action may use what the first result is.
  pub Returns-bind : Returns m → ((a : A) → Returns (f a)) → Returns (m >>= f)
  unfolding ◌>>=◌ continue
  Returns-bind k l = record {
    at = λ h w r. let (a, e) = k.at h w r in rw e ((l a).at h (m h w).1 r);
  }

  pub Settles-bind : Settles m → ((a : A) → Settles (f a)) → Settles (m >>= f)
  unfolding ◌>>=◌ continue fail
  Settles-bind k l = record {
    at = λ h w r. elim (k.at h w r) [
      | inl (a, e) ↦ rw e ((l a).at h (m h w).1 r)
      | inr e ↦ rw e (inr refl)
    ];
  }
