-- ===== src/Session/Keeps.antt =====
-- Actions that neither read nor change the standard input and the command buffer, one rule for each
-- way to build an action.
use ext.Base.{
  ◌≡◌, refl, ◌∙◌, ap, Option, none, some, Bool, true, false, if◌then◌else◌, Option-cases, inl, inr,
}
use ext.Base.Image.{Bytes}
use ext.Os.{Host, Outcome, ok, failed, exited, faulted, hung, M, Reply-cases, caught}
use ext.Session.{
  Session, S, Printed, return, crash, proceed, ◌>>=◌, tried, on_file, call_host, open_to_read,
  bytes_of_file, print, content,
}

-- The session with another input.
abbrev pub with_input : Session → Bytes → Option Bytes → Session
with_input s stdin buffer = record s { stdin = stdin; buffer = buffer }

pub record Keeps {A : Type 0} (m : S A) : Type 0 where
  pub at :
      (h : Host) (s : Session) (stdin : Bytes) (buffer : Option Bytes)
      → m h (with_input s stdin buffer) ≡ ((m h s).0, with_input (m h s).1 stdin buffer)

module _ {A : Type 0} where
  pub Keeps-return : (a : A) → Keeps (return a)
  unfolding return
  Keeps-return a = record { at = λ h s i b. refl }

  pub Keeps-crash : Keeps (crash {A = A})
  unfolding crash
  Keeps-crash = record { at = λ h s i b. refl }

  pub Keeps-tried : {m : S A} → Keeps m → Keeps (tried m)
  unfolding tried
  Keeps-tried k = record { at = λ h s i b. ap (λ r. (caught r.0, r.1)) (k.at h s i b) }

  pub Keeps-on_file : (path : Bytes) (m : M A) → Keeps (on_file path m)
  unfolding on_file
  Keeps-on_file path m = record {
    at = λ h s i b. elim (Reply-cases (h.reply s.calls)) [
      | inl e ↦ rw (e, on_file)
      | inr (k, e) ↦ rw (e, on_file)
    ];
  }

  pub Keeps-if : (b : Bool) {m n : S A} → Keeps m → Keeps n → Keeps (if b then m else n)
  Keeps-if true k l = k
  Keeps-if false k l = l

module _ {A B : Type 0} where
  pub Keeps-option :
      (o : Option A) {n : S B} {f : A → S B}
      → Keeps n
      → ((a : A) → Keeps (f a))
      → Keeps (elim o [ none ↦ n | some a ↦ f a ])
  Keeps-option none k l = k
  Keeps-option (some a) k l = l a

  Keeps-proceed :
      {f : A → S B} (o : Outcome A) (h : Host) (s : Session) (i : Bytes) (b : Option Bytes)
      → ((a : A) → Keeps (f a))
      → proceed o f h (with_input s i b) ≡ ((proceed o f h s).0, with_input (proceed o f h s).1 i b)
  unfolding proceed
  Keeps-proceed (ok a) h s i b k = (k a).at h s i b
  Keeps-proceed failed h s i b k = refl
  Keeps-proceed exited h s i b k = refl
  Keeps-proceed faulted h s i b k = refl
  Keeps-proceed hung h s i b k = refl

  pub Keeps-bind : {m : S A} {f : A → S B} → Keeps m → ((a : A) → Keeps (f a)) → Keeps (m >>= f)
  unfolding ◌>>=◌
  Keeps-bind {m} {f} k l = record {
    at = λ h s i b.
        ap (λ r. proceed r.0 f h r.1) (k.at h s i b) ∙ Keeps-proceed (m h s).0 h (m h s).1 i b l;
  }

pub Keeps-call_host : Keeps call_host
unfolding call_host
Keeps-call_host = record {
  at = λ h s i b. elim (Reply-cases (h.reply s.calls)) [
    | inl e ↦ rw (e, call_host)
    | inr (k, e) ↦ rw (e, call_host)
  ];
}

Keeps-bytes_of_file : (path : Bytes) → Keeps (bytes_of_file path)
unfolding bytes_of_file
Keeps-bytes_of_file path = record {
  at = λ h s i b. elim (Option-cases (content path s.files)) [
    | inl e ↦ rw (e, bytes_of_file)
    | inr (c, e) ↦ rw (e, bytes_of_file)
  ];
}

pub Keeps-open_to_read : (path : Bytes) → Keeps (open_to_read path)
unfolding open_to_read
Keeps-open_to_read path = Keeps-bind Keeps-call_host (λ _. Keeps-bytes_of_file path)

pub Keeps-print : (text : Printed) → Keeps (print text)
unfolding print
Keeps-print text = record { at = λ h s i b. refl }

-- So an action leaves them as they are.
pub Keeps-input :
    {A : Type 0} (m : S A) (h : Host) (s : Session)
    → Keeps m
    → ((m h s).1.stdin ≡ s.stdin) × ((m h s).1.buffer ≡ s.buffer)
Keeps-input m h s k = (
  ap (λ r. r.1.stdin) (k.at h s s.stdin s.buffer),
  ap (λ r. r.1.buffer) (k.at h s s.stdin s.buffer),
)

pub ruleset keeps_rules = (
  Keeps-return, Keeps-crash, Keeps-tried, Keeps-on_file, Keeps-if, Keeps-option, Keeps-bind,
  Keeps-call_host, Keeps-open_to_read, Keeps-print,
)
