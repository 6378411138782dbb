-- ===== src/Client/Ends.antt =====
-- The loop of client: each round takes a byte of the input, or, behind its end, one of the
-- buffer, so its fuel is enough for a run without fuel.
use ext.Base.{
  ℕ, zero, suc, ◌+◌, ◌*◌, ◌<◌, ◌≤◌, ◌≡◌, ◌≢◌, refl, ap, ap₂, Bool, true, false, [], ◌∷◌, Option,
  some, length, take, length-take, arith, text_eq, inl, inr, ◌⊎◌, Option-cases,
}
use ext.Base.Image.{Bytes}
use ext.Os.{Host, Outcome, ok, failed, exited, faulted, hung}
use ext.Paths.{parse_command}
use ext.Session.{Session, S, return, crash, ◌>>=◌, proceed}
use ext.Client.Input.{read_command_from_stdin, fgets, buffer_after, until_nul}
use ext.Session.Keeps.{Keeps-input}
use ext.Client.Keeps.{handle-Keeps}
use ext.Client.Dispatch.{quit_text, handle}
use ext.Client.Loop.{round, client_loop, client, to_read, text_length}

-- fgets splits the input; a line of an input that is not empty has a byte.
fgets_parts :
    (n : ℕ) (stdin : Bytes)
    → let (line, rest) = fgets n stdin in
      (length line + length rest ≡ length stdin) × (length line ≤ n)
unfolding fgets
fgets_parts zero stdin = (omega arith, omega arith)
fgets_parts (suc n) [] = (omega arith, omega arith)
fgets_parts (suc n) (x ∷ stdin) = ground (arith, fgets_parts n stdin)

fgets_some : (n x : ℕ) (stdin : Bytes) → 0 < length (fgets (suc n) (x ∷ stdin)).0
unfolding fgets
fgets_some n x stdin = ground arith

length-until_nul : (bytes : Bytes) → length (until_nul bytes) ≤ length bytes
unfolding until_nul
length-until_nul [] = omega arith
length-until_nul (x ∷ bytes) = ground (arith, length-until_nul bytes)

-- The text in the buffer is not longer than the line, or than it was.
buffer_bound :
    (line : Bytes) (old : Option Bytes) (text : Bytes)
    → buffer_after line old ≡ some text
    → (length text ≤ length line) ⊎ (line ≡ []) × (old ≡ some text)
unfolding buffer_after
buffer_bound [] old text e = inr (refl, e)
buffer_bound (x ∷ line) old text e = inl (let l = length-until_nul (x ∷ line) in ground (arith, l))

line_shrinks :
    (line rest stdin : Bytes) (old : Option Bytes) (x : ℕ) (text : Bytes)
    → length line + length rest ≡ length stdin
    → length line ≤ 256
    → 0 < length line
    → buffer_after line old ≡ some (x ∷ text)
    → 257 * length rest + length text < 257 * length stdin + text_length old
line_shrinks line rest stdin old x text sum most least e =
    elim (buffer_bound line old (x ∷ text) e) [
      | inl l ↦ omega arith
      | inr (n, o) ↦ let z = ap (λ l. length l) n in absurd (omega arith)
    ]

-- A command is read from fewer bytes than there were.
shrinks :
    (n : ℕ) (stdin : Bytes) (old : Option Bytes) (x : ℕ) (text : Bytes)
    → n < 256
    → buffer_after (fgets (suc n) stdin).0 old ≡ some (x ∷ text)
    → 257 * length (fgets (suc n) stdin).1 + length text < 257 * length stdin + text_length old
unfolding buffer_after fgets
shrinks n [] old x text m e = rw e (omega arith)
shrinks n (y ∷ stdin) old x text m e =
    line_shrinks (fgets (suc n) (y ∷ stdin)).0 (fgets (suc n) (y ∷ stdin)).1 (y ∷ stdin) old x text
      (fgets_parts (suc n) (y ∷ stdin)).0
      (let l = (fgets_parts (suc n) (y ∷ stdin)).1 in omega arith) (fgets_some n y stdin) e

-- The two ends of read_command_from_stdin.
abbrev CommandRead : Host → Session → Type 0
CommandRead h s =
    ((read_command_from_stdin h s).0 ≡ faulted)
    ⊎ (text : Bytes) × (s' : Session) × (read_command_from_stdin h s ≡ (ok text, s'))
      × (to_read s' < to_read s)

command_read :
    (h : Host) (s : Session) (b : Bytes)
    → buffer_after (fgets 255 s.stdin).0 s.buffer ≡ some b
    → CommandRead h s
unfolding read_command_from_stdin crash return
command_read h s [] e = inl (rw (e, read_command_from_stdin))
command_read h s (x ∷ text) e =
    let command = take (length text) (x ∷ text) in
    let n = length-take (length text) (x ∷ text) in
    let l = shrinks 254 s.stdin s.buffer x text (omega arith) e in
    inr (
      command,
      record s { stdin = (fgets 255 s.stdin).1; buffer = some command },
      rw (e, read_command_from_stdin),
      omega arith,
    )

read_command_from_stdin_cases : (h : Host) (s : Session) → CommandRead h s
unfolding read_command_from_stdin crash
read_command_from_stdin_cases h s =
    elim (Option-cases (buffer_after (fgets 255 s.stdin).0 s.buffer)) [
      | inl e ↦ inl (rw (e, read_command_from_stdin))
      | inr (b, e) ↦ command_read h s b e
    ]

-- The specification: `Runs h path s r` says that the loop, started in the session `s`, ends with the
-- outcome and the session `r`. There is no fuel: a loop that does not end has no derivation. `hung` is
-- the outcome of a command that is handled in the session that the loop has come to.
pub data Runs (h : Host) (path : Bytes) : Session → Outcome (Unit {0}) × Session → Type 0 where
  unreadable :
      {s : Session}
      → (read_command_from_stdin h s).0 ≡ faulted
      → Runs h path s (faulted, (read_command_from_stdin h s).1)
  quits :
      {s s1 : Session} {text : Bytes}
      → read_command_from_stdin h s ≡ (ok text, s1)
      → text_eq (parse_command text).0 quit_text ≡ true
      → Runs h path s (ok tt, s1)
  stops :
      {s s1 s2 : Session} {text : Bytes} {o : Outcome (Unit {0})}
      → read_command_from_stdin h s ≡ (ok text, s1)
      → text_eq (parse_command text).0 quit_text ≡ false
      → handle path (parse_command text).0 (parse_command text).1 h s1 ≡ (o, s2)
      → o ≢ ok tt
      → Runs h path s (o, s2)
  goes_on :
      {s s1 s2 : Session} {text : Bytes} {r : Outcome (Unit {0}) × Session}
      → read_command_from_stdin h s ≡ (ok text, s1)
      → text_eq (parse_command text).0 quit_text ≡ false
      → handle path (parse_command text).0 (parse_command text).1 h s1 ≡ (ok tt, s2)
      → Runs h path s2 r
      → Runs h path s r

-- The rest of a round, behind a text that could not be read.
stopped :
    {A B : Type 0} (o : Outcome A) (f : A → S B) (h : Host) (s : Session)
    → o ≡ faulted
    → proceed o f h s ≡ (faulted, s)
unfolding proceed
stopped o f h s p = rw p refl

module _ (h : Host) (path : Bytes) (fuel : ℕ) (s s1 : Session) (text : Bytes)
    (r : read_command_from_stdin h s ≡ (ok text, s1)) where
  -- The rest of a round, behind the command.
  handled :
      (o : Outcome (Unit {0})) (s2 : Session)
      → text_eq (parse_command text).0 quit_text ≡ false
      → handle path (parse_command text).0 (parse_command text).1 h s1 ≡ (o, s2)
      → Runs h path s2 (client_loop fuel path h s2)
      → Runs h path s (proceed o (λ _. client_loop fuel path) h s2)
  unfolding proceed
  handled (ok tt) s2 q e more = goes_on r q e more
  handled failed s2 q e more = stops r q e (λ z. cc)
  handled exited s2 q e more = stops r q e (λ z. cc)
  handled faulted s2 q e more = stops r q e (λ z. cc)
  handled hung s2 q e more = stops r q e (λ z. cc)

  round-Runs :
      (quit : Bool)
      → text_eq (parse_command text).0 quit_text ≡ quit
      → ((s2 : Session) → to_read s2 ≡ to_read s1 → Runs h path s2 (client_loop fuel path h s2))
      → Runs h path s (round path text quit (client_loop fuel path) h s1)
  unfolding round ◌>>=◌ return
  round-Runs true q again = quits r q
  round-Runs false q again =
      let command = (parse_command text).0 in
      let args = (parse_command text).1 in
      let kept = Keeps-input (handle path command args) h s1 (handle-Keeps path command args) in
      let same : to_read (handle path command args h s1).1 ≡ to_read s1 =
        ap₂ (λ x y. 257 * length x + text_length y) kept.0 kept.1 in
      handled (handle path command args h s1).0 (handle path command args h s1).1 q refl
        (again _ same)

client_loop-Runs :
    (h : Host) (path : Bytes) (fuel : ℕ) (s : Session)
    → to_read s < fuel
    → Runs h path s (client_loop fuel path h s)
unfolding client_loop ◌>>=◌ proceed
client_loop-Runs h path zero s l = absurd (omega arith)
client_loop-Runs h path (suc fuel) s l = elim (read_command_from_stdin_cases h s) [
  | inl f ↦ rw (stopped _ _ h _ f) (unreadable f)
  | inr (text, s1, r, m) ↦ rw r (
      round-Runs h path fuel s s1 text r (text_eq (parse_command text).0 quit_text) refl
        (λ s2 same. client_loop-Runs h path fuel s2 (omega arith)))
]

-- On every input, with every host and from every session, also at the end of the input, the loop
-- of client comes to an end, and the outcome and the session there are those of a finite run: a
-- text is read; at "quit" the loop returns; any other command is handled in the session behind the
-- text; if it does not return, the loop ends with its outcome (only such a command runs out of
-- fuel), and otherwise the loop goes on from its session; a text that is empty or was never
-- written is undefined behaviour.
pub client-Runs : (h : Host) (path : Bytes) (s : Session) → Runs h path s (client path h s)
unfolding client
client-Runs h path s = client_loop-Runs h path (suc (to_read s)) s (omega arith)
