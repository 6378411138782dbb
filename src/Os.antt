-- ===== src/Os.antt =====
-- The operating system under the program: one open file, and the calls lseek, read and write on
-- it. What a call answers is chosen by a host, which is a parameter: it may fail any call, and it
-- may move fewer bytes than it was asked for.
pub mod Ends
pub mod Faults
pub mod Ensures
pub mod Settles
use ext.Base.{
  ℕ, zero, suc, ◌+◌, ◌^◌, ◌≤◌, ◌≡◌, Option, none, some, length, take, min, List, [], get_elem?, set,
  Bool, if◌then◌else◌, ◌⊎◌, inl, inr, refl,
}
use ext.Base.Image.{Bytes, read_at, write_at}

-- The host's answer to a call of read or write: -1, or it moves `suc n` bytes at most. A call that
-- can move a byte moves one at least, as for every regular file.
pub data Reply : Type 0 where
  error : Reply
  moves : ℕ → Reply

pub Reply-cases : (r : Reply) → (r ≡ error) ⊎ ((k : ℕ) × (r ≡ moves k))
Reply-cases error = inl refl
Reply-cases (moves k) = inr (k, refl)

-- `reply t` is the answer to the call number `t`. `rounds` is the fuel of the transfer loops.
pub record Host : Type 0 where
  pub reply : ℕ → Reply
  pub rounds : ℕ

pub record File : Type 0 where
  pub bytes : Bytes
  pub pos : ℕ

pub record World : Type 0 where
  pub file : File
  pub calls : ℕ

-- How a function ends: with a result; with -1; the process ends by exit(EXIT_FAILURE); undefined
-- behaviour (an access outside an array, or to released memory); or not within its fuel.
pub data Outcome (A : Type 0) : Type 0 where
  ok : A → Outcome A
  failed exited faulted hung : Outcome A

abbrev pub M : Type 0 → Type 0
M A = Host → World → Outcome A × World

unfoldable pub pure : {A : Type 0} → A → M A
pure a h w = (ok a, w)

unfoldable pub fail : {A : Type 0} → M A
fail h w = (failed, w)

-- exit(EXIT_FAILURE)
unfoldable pub exit : {A : Type 0} → M A
exit h w = (exited, w)

unfoldable pub fault : {A : Type 0} → M A
fault h w = (faulted, w)

unfoldable pub hang : {A : Type 0} → M A
hang h w = (hung, w)

unfoldable pub continue : {A B : Type 0} → Outcome A → (A → M B) → M B
unfolding fail exit fault hang
continue (ok a) f = f a
continue failed f = fail
continue exited f = exit
continue faulted f = fault
continue hung f = hang

infixl 5 ◌>>=◌ ◌>>◌
-- Opening the bind opens the actions above and below too.
unfoldable pub ◌>>=◌ : {A B : Type 0} → M A → (A → M B) → M B
unfolding pure continue
◌>>=◌ m f h w = continue (m h w).0 f h (m h w).1

abbrev pub ◌>>◌ : {A B : Type 0} → M A → M B → M B
m >> k = m >>= λ _. k

-- `if (call(...) == -1)`: the result, or `none` for -1.
abbrev pub caught : {A : Type 0} → Outcome A → Outcome (Option A)
caught (ok a) = ok (some a)
caught failed = ok none
caught exited = exited
caught faulted = faulted
caught hung = hung

unfoldable pub attempt : {A : Type 0} → M A → M (Option A)
attempt m h w = (caught (m h w).0, (m h w).1)

-- An array element, or the fault of an access outside the array.
unfoldable pub element : {A : Type 0} → Option A → M A
unfolding pure fault
element none = fault
element (some a) = pure a

-- A write to an array element, or the fault of a write outside the array.
unfoldable pub assign : {A : Type 0} → List A → ℕ → A → M (List A)
unfolding pure fault
assign xs i a h w = elim (get_elem? xs i) [ none ↦ (faulted, w) | some old ↦ (ok (set xs i a), w) ]

-- open(path, O_RDWR | O_CREAT, ...): the file from its start on. With O_TRUNC it is emptied.
unfoldable pub sys_open : Bool → M (Unit {0})
sys_open truncate h w = elim (h.reply w.calls) [
  | error ↦ (failed, record w { calls = suc w.calls })
  | moves k ↦ (
    ok tt,
    record {
      file = record { bytes = if truncate then [] else w.file.bytes; pos = 0 };
      calls = suc w.calls;
    },
  )
]

-- lseek(fd, p, SEEK_SET)
unfoldable pub lseek : ℕ → M (Unit {0})
lseek p h w = (ok tt, record w { file = record { bytes = w.file.bytes; pos = p } })

abbrev pub moved : File → Bytes → File
moved f chunk = record f { pos = f.pos + length chunk }

-- read(fd, buffer, n): the bytes that were read, none of them at the end of the file.
unfoldable pub read : ℕ → M Bytes
read n h w = elim (h.reply w.calls) [
  | error ↦ (failed, record w { calls = suc w.calls })
  | moves k ↦
      let chunk = read_at w.file.pos (min n (suc k)) w.file.bytes in
      (ok chunk, record { file = moved w.file chunk; calls = suc w.calls })
]

-- write(fd, buffer, length of buffer): how many bytes were written.
unfoldable pub write : Bytes → M ℕ
write buffer h w = elim (h.reply w.calls) [
  | error ↦ (failed, record w { calls = suc w.calls })
  | moves k ↦
      let chunk = take (suc k) buffer in
      (
        ok (length chunk),
        record {
          file = record {
            bytes = write_at w.file.pos chunk w.file.bytes;
            pos = w.file.pos + length chunk;
          };
          calls = suc w.calls;
        },
      )
]

-- A host that fails no call and leaves the loops enough rounds for every transfer of the program:
-- the largest is fd_to_position, 65535 descriptors of 4 bytes.
pub record IsSteady (h : Host) : Type 0 where
  pub moving : (t : ℕ) → (k : ℕ) × (h.reply t ≡ moves k)
  pub enough : 2 ^ 18 ≤ h.rounds
