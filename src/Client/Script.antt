-- ===== src/Client/Script.antt =====
-- The client on a script: lines of commands, and quit.
use ext.Base.{
  ℕ, zero, suc, ◌<◌, ◌≤◌, ◌≡◌, ◌≢◌, refl, sym, ◌∙◌, ap, subst, true, false, List, [], ◌∷◌, ◌++◌,
  Option, some, length, length-append, take, take-length-append, All, arith, ne→==, text_eq,
}
use ext.Base.Image.{Bytes}
use ext.Os.{Host, Outcome, ok, failed, exited, faulted, hung}
use ext.Paths.{parse_command}
use ext.Session.{Session, S, return, ◌>>=◌, ◌>>◌, proceed}
use ext.Session.Keeps.{with_input}
use ext.Client.Input.{read_command_from_stdin, fgets, buffer_after, until_nul}
use ext.Client.Dispatch.{quit_text, handle}
use ext.Client.Keeps.{handle-Keeps}
use ext.Client.Loop.{round, client_loop, client, to_read}

-- What the lines mean: their commands, one after the other.
unfoldable pub run_lines : Bytes → List Bytes → S (Unit {0})
run_lines path [] = return tt
run_lines path (line ∷ lines) = do
  handle path (parse_command line).0 (parse_command line).1
  run_lines path lines

-- A line that fits the buffer with its newline, and does not quit.
pub record IsLine (line : Bytes) : Type 0 where
  pub no_newline : All (λ x. x ≢ 10) line
  pub no_nul : All (λ x. x ≢ 0) line
  pub short : length line < 255
  pub goes_on : text_eq (parse_command line).0 quit_text ≡ false

-- The lines, each with its newline, in front of `rest`.
pub script : List Bytes → Bytes → Bytes
script [] rest = rest
script (line ∷ lines) rest = line ++ 10 ∷ script lines rest

fgets-line :
    (n : ℕ) (line rest : Bytes)
    → All (λ x. x ≢ 10) line
    → length line < n
    → fgets n (line ++ 10 ∷ rest) ≡ (line ++ 10 ∷ [], rest)
unfolding fgets
fgets-line zero line rest a l = absurd (omega arith)
fgets-line (suc n) [] rest a l = refl
fgets-line (suc n) (x ∷ line) rest a l =
    rw (ne→== x 10 a.0, fgets-line n line rest a.1 (omega arith))

until_nul-line :
    (line : Bytes) → All (λ x. x ≢ 0) line → until_nul (line ++ 10 ∷ []) ≡ line ++ 10 ∷ []
unfolding until_nul
until_nul-line [] a = refl
until_nul-line (x ∷ line) a = rw (ne→== x 0 a.0, until_nul-line line a.1)

-- The buffer after a line, and the command in it.
cut_line :
    (line : Bytes) (old : Option Bytes)
    → All (λ x. x ≢ 0) line
    → (x : ℕ) × (text : Bytes) × (buffer_after (line ++ 10 ∷ []) old ≡ some (x ∷ text))
      × (take (length text) (x ∷ text) ≡ line)
unfolding buffer_after
cut_line [] old a = (10, [], refl, refl)
cut_line (x ∷ line) old a =
    let n = length-append line (10 ∷ []) in
    let e : length (line ++ 10 ∷ []) ≡ length (x ∷ line) = omega arith in
    (
      x,
      line ++ 10 ∷ [],
      ap (λ l. some l) (until_nul-line (x ∷ line) a),
      ap (λ k. take k (x ∷ line ++ 10 ∷ [])) e ∙ take-length-append (x ∷ line) (10 ∷ []),
    )

read_line :
    (h : Host) (s : Session) (line rest : Bytes) (old : Option Bytes)
    → All (λ x. x ≢ 10) line
    → All (λ x. x ≢ 0) line
    → length line < 255
    → read_command_from_stdin h (with_input s (line ++ 10 ∷ rest) old)
      ≡ (ok line, with_input s rest (some line))
unfolding read_command_from_stdin return
read_line h s line rest old a b l =
    let (x, text, e, c) = cut_line line old b in
    let split = fgets-line 255 line rest a l in rw (split, read_command_from_stdin, e, c, split)

-- One end of the loop is the other: the same outcome, files and output.
abbrev pub SameEnd : Outcome (Unit {0}) × Session → Outcome (Unit {0}) × Session → Type 0
SameEnd a b = (a.0 ≡ b.0) × (a.1.files ≡ b.1.files) × (a.1.printed ≡ b.1.printed)

abbrev pub quit_line : Bytes → Bytes
quit_line rest = quit_text ++ 10 ∷ rest

SameEnd-proceed :
    (h : Host) (path : Bytes) (fuel : ℕ) (lines : List Bytes) (o : Outcome (Unit {0})) (s : Session)
    (i : Bytes) (b : Option Bytes)
    → SameEnd (client_loop fuel path h (with_input s i b)) (run_lines path lines h s)
    → SameEnd
        (proceed o (λ _. client_loop fuel path) h (with_input s i b))
        (proceed o (λ _. run_lines path lines) h s)
unfolding proceed
SameEnd-proceed h path fuel lines (ok a) s i b same = same
SameEnd-proceed h path fuel lines failed s i b same = (refl, refl, refl)
SameEnd-proceed h path fuel lines exited s i b same = (refl, refl, refl)
SameEnd-proceed h path fuel lines faulted s i b same = (refl, refl, refl)
SameEnd-proceed h path fuel lines hung s i b same = (refl, refl, refl)

quit_is_quit : text_eq (parse_command quit_text).0 quit_text ≡ true
unfolding parse_command
quit_is_quit = refl

quit_is_line : All (λ x. x ≢ 10) quit_text × All (λ x. x ≢ 0) quit_text
quit_is_line = (omega arith, omega arith)

client_loop-script :
    (h : Host) (path : Bytes) (fuel : ℕ) (lines : List Bytes) (rest : Bytes) (s : Session)
    (old : Option Bytes)
    → length lines < fuel
    → All IsLine lines
    → SameEnd
        (client_loop fuel path h (with_input s (script lines (quit_line rest)) old))
        (run_lines path lines h s)
unfolding client_loop round ◌>>=◌ proceed return run_lines script
client_loop-script h path zero lines rest s old l v = absurd (omega arith)
client_loop-script h path (suc fuel) [] rest s old l v =
    rw (read_line h s quit_text rest old quit_is_line.0 quit_is_line.1 (omega arith), quit_is_quit)
      (refl, refl, refl)
client_loop-script h path (suc fuel) (line ∷ lines) rest s old l v =
    let more = script lines (quit_line rest) in
    let command = handle path (parse_command line).0 (parse_command line).1 in
    let kept =
      (handle-Keeps path (parse_command line).0 (parse_command line).1).at h s more (some line) in
    rw (read_line h s line more old v.0.no_newline v.0.no_nul v.0.short, v.0.goes_on, kept)
      (SameEnd-proceed h path fuel lines (command h s).0 (command h s).1 more (some line)
        (client_loop-script h path fuel lines rest (command h s).1 (some line) (omega arith) v.1))

length-script : (lines : List Bytes) (rest : Bytes) → length lines ≤ length (script lines rest)
unfolding script
length-script [] rest = omega arith
length-script (line ∷ lines) rest =
    omega (arith, length-append line (10 ∷ script lines rest), length-script lines rest)

-- On an input that is a list of lines, each shorter than the command buffer by two bytes at least,
-- without a newline or a NUL in it and with another command than quit, and then a line "quit" and
-- anything behind it, client ends as the commands of the lines do when they run one after the
-- other up to the first that does not return: with the same outcome, files and output, whatever
-- the host answers and whatever the buffer held.
pub client-run_lines :
    (h : Host) (path : Bytes) (lines : List Bytes) (rest : Bytes) (s : Session)
    → s.stdin ≡ script lines (quit_line rest)
    → All IsLine lines
    → SameEnd (client path h s) (run_lines path lines h s)
unfolding client
client-run_lines h path lines rest s e v =
    let l = length-script lines (quit_line rest) in
    let m = ap (λ i. length i) e in
    subst
      (λ i.
        SameEnd (client_loop (suc (to_read s)) path h (with_input s i s.buffer))
          (run_lines path lines h s))
      (sym e) (client_loop-script h path (suc (to_read s)) lines rest s s.buffer (omega arith) v)
