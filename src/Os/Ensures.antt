-- ===== src/Os/Ensures.antt =====
-- What holds of a result whatever the host answers, one rule for each way to build an action.
use ext.Base.{◌≡◌, refl, Option, none, some, Bool, true, false, if◌then◌else◌, subst}
use ext.Os.{
  Host, World, Outcome, ok, failed, exited, faulted, hung, M, pure, fail, exit, fault, continue,
  ◌>>=◌, element, hang,
}

-- Every result of `m` has the property.
pub record Ensures {A : Type 0} (P : A → Type 0) (m : M A) : Type 0 where
  pub at : (h : Host) (w : World) (a : A) → (m h w).0 ≡ ok a → P a

ok_inj : {A : Type 0} {a b : A} → ok a ≡ ok b → a ≡ b
ok_inj e = cc

module _ {A : Type 0} {P : A → Type 0} where
  pub Ensures-pure : (a : A) → P a → Ensures P (pure a)
  unfolding pure
  Ensures-pure a p = record { at = λ h w b e. subst P (ok_inj e) p }

  pub Ensures-fault : Ensures P fault
  unfolding fault
  Ensures-fault = record { at = λ h w b e. cc }

  pub Ensures-if :
      (b : Bool) {m n : M A}
      → (b ≡ true → Ensures P m)
      → (b ≡ false → Ensures P n)
      → Ensures P (if b then m else n)
  Ensures-if true k l = k refl
  Ensures-if false k l = l refl

module _ {A B : Type 0} {P : B → Type 0} where
  pub Ensures-option :
      (o : Option A) {n : M B} {f : A → M B}
      → Ensures P n
      → ((a : A) → Ensures P (f a))
      → Ensures P (elim o [ none ↦ n | some a ↦ f a ])
  Ensures-option none k l = k
  Ensures-option (some a) k l = l a

  Ensures-continue :
      {f : A → M B} (o : Outcome A) (h : Host) (w : World) (b : B)
      → ((a : A) → o ≡ ok a → Ensures P (f a))
      → (continue o f h w).0 ≡ ok b
      → P b
  unfolding continue fail exit fault hang
  Ensures-continue (ok a) h w b k e = (k a refl).at h w b e
  Ensures-continue failed h w b k e = cc
  Ensures-continue exited h w b k e = cc
  Ensures-continue faulted h w b k e = cc
  Ensures-continue hung h w b k e = cc

  pub Ensures-bind :
      (Q : A → Type 0) {m : M A} {f : A → M B}
      → Ensures Q m
      → ((a : A) → Q a → Ensures P (f a))
      → Ensures P (m >>= f)
  unfolding ◌>>=◌
  Ensures-bind Q {m} k l = record {
    at = λ h w b e. Ensures-continue (m h w).0 h (m h w).1 b (λ a d. l a (k.at h w a d)) e;
  }

  -- Where nothing is known of the first result.
  pub Ensures-then : (m : M A) {f : A → M B} → ((a : A) → Ensures P (f a)) → Ensures P (m >>= f)
  Ensures-then m l =
      Ensures-bind (λ _. Unit {0}) {m = m} (record { at = λ h w a e. tt }) (λ a _. l a)

pub Ensures-element :
    {A : Type 0} (o : Option A) (a : A) → o ≡ some a → Ensures (λ b. a ≡ b) (element o)
unfolding element pure
Ensures-element o a p = record { at = λ h w b e. ok_inj (rw p at e) }
