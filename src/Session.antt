-- ===== src/Session.antt =====
-- The process around the commands: the files of the host, the standard input, and what is printed.
-- Every command works on one of the files from its opening on.
pub mod Keeps
use ext.Base.{ℕ, suc, List, [], ◌∷◌, ◌++◌, Option, none, some, text_eq, if◌then◌else◌}
use ext.Base.Image.{Bytes}
use ext.Os.{Host, Reply, error, moves, World, Outcome, ok, failed, exited, faulted, hung, M, caught}

-- What client prints; a text that says which argument is missing is its command.
pub data Printed : Type 0 where
  help initializing reading unsupported : Printed
  requires : Bytes → Printed
  listing : Bytes → Printed
  opened total_readed total_written : ℕ → Printed
  readed : Bytes → Printed
  written : Option ℕ → Bytes → Printed

-- `buffer` is the text in client's command buffer, `none` before the first command.
pub record Session : Type 0 where
  pub files : List (Bytes × Bytes)
  pub stdin : Bytes
  pub buffer : Option Bytes
  pub printed : List Printed
  pub calls : ℕ

abbrev pub S : Type 0 → Type 0
S A = Host → Session → Outcome A × Session

unfoldable pub content : Bytes → List (Bytes × Bytes) → Option Bytes
content path [] = none
content path (file ∷ files) = if text_eq file.0 path then some file.1 else content path files

unfoldable pub replace : Bytes → Bytes → List (Bytes × Bytes) → List (Bytes × Bytes)
replace path bytes [] = (path, bytes) ∷ []
replace path bytes (file ∷ files) =
    if text_eq file.0 path then (path, bytes) ∷ files else file ∷ replace path bytes files

unfoldable pub return : {A : Type 0} → A → S A
return a h s = (ok a, s)

-- Undefined behaviour, and the end of the fuel, in the process.
unfoldable pub crash : {A : Type 0} → S A
crash h s = (faulted, s)

unfoldable pub stall : {A : Type 0} → S A
stall h s = (hung, s)

unfoldable pub proceed : {A B : Type 0} → Outcome A → (A → S B) → S B
proceed (ok a) f h s = f a h s
proceed failed f h s = (failed, s)
proceed exited f h s = (exited, s)
proceed faulted f h s = (faulted, s)
proceed hung f h s = (hung, s)

infixl 5 ◌>>=◌ ◌>>◌
unfoldable pub ◌>>=◌ : {A B : Type 0} → S A → (A → S B) → S B
unfolding return proceed
◌>>=◌ m f h s = proceed (m h s).0 f h (m h s).1

abbrev pub ◌>>◌ : {A B : Type 0} → S A → S B → S B
m >> k = m >>= λ _. k

-- The result, or `none` for -1.
unfoldable pub tried : {A : Type 0} → S A → S (Option A)
tried m h s = (caught (m h s).0, (m h s).1)

-- The file that an action starts from; one that is not there is made empty by O_CREAT.
abbrev pub world_of : Bytes → Session → World
world_of path s = record {
  file = record { bytes = elim (content path s.files) [ none ↦ [] | some bytes ↦ bytes ]; pos = 0 };
  calls = s.calls;
}

-- An action of which the first call is open with O_CREAT, and no file is made if that fails; or one
-- that leaves the file as it is.
unfoldable pub on_file : {A : Type 0} → Bytes → M A → S A
unfolding content replace
on_file path m h s =
    let (result, w) = m h (world_of path s) in
    elim (h.reply s.calls) [
      | error ↦ (result, record s { calls = w.calls })
      | moves k ↦ (result, record s { files = replace path w.file.bytes s.files; calls = w.calls })
    ]

-- A call that the host may fail: open with O_RDONLY of a file that is there, fdopen, fstat.
unfoldable pub call_host : S (Unit {0})
call_host h s = elim (h.reply s.calls) [
  | error ↦ (failed, record s { calls = suc s.calls })
  | moves k ↦ (ok tt, record s { calls = suc s.calls })
]

-- The bytes of a file, which fails if the file is not there.
unfoldable pub bytes_of_file : Bytes → S Bytes
unfolding content
bytes_of_file path h s = elim (content path s.files) [
  | none ↦ (failed, s)
  | some bytes ↦ (ok bytes, s)
]

-- open(path, O_RDONLY): the bytes of the file.
unfoldable pub open_to_read : Bytes → S Bytes
unfolding call_host bytes_of_file
open_to_read path = do call_host; bytes_of_file path

unfoldable pub print : Printed → S (Unit {0})
print text h s = (ok tt, record s { printed = s.printed ++ (text ∷ []) })
