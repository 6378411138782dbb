-- ===== src/Os/Faults.antt =====
-- `Faults h m f`: under the host `h`, from the file `f`, the action `m` comes to undefined behaviour.
use ext.Base.{ℕ, ◌≡◌, refl}
use ext.Os.{Host, File, World, M, fault, faulted, ◌>>=◌, continue}
use ext.Os.Ends.{Ends}

pub record Faults {A : Type 0} (h : Host) (m : M A) (f : File) : Type 0 where
  pub at : (t : ℕ) → (w : World) × (m h (record { file = f; calls = t }) ≡ (faulted, w))

pub Faults-fault : {A : Type 0} {h : Host} (f : File) → Faults h (fault {A = A}) f
unfolding fault
Faults-fault f = record { at = λ t. (record { file = f; calls = t }, refl) }

module _ {A B : Type 0} {h : Host} where
  -- An action ends, and what comes behind it faults.
  pub Faults-behind :
      (m : M A) (k : A → M B) {f f1 : File} {a : A}
      → Ends h m f a f1
      → Faults h (k a) f1
      → Faults h (m >>= k) f
  unfolding ◌>>=◌
  Faults-behind m k p q = record {
    at = λ t. let (t1, e1) = p.at t in let (w, e2) = q.at t1 in (w, rw (e1, continue) e2);
  }

  -- An action faults, whatever comes behind it.
  pub Faults-first : (m : M A) (k : A → M B) {f : File} → Faults h m f → Faults h (m >>= k) f
  unfolding ◌>>=◌
  Faults-first m k p = record { at = λ t. let (w, e) = p.at t in (w, rw (e, continue) refl) }
