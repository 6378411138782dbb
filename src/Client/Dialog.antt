-- ===== src/Client/Dialog.antt =====
-- The client on the lines of a list of commands, and what the commands mean.
use ext.Base.{ℕ, ◌≡◌, ◌≢◌, refl, ap, ◌∙◌, subst, false, List, [], ◌∷◌, arith, All, text_eq}
use ext.Base.Image.{Bytes}
use ext.Os.{Host}
use ext.Session.{Session, ◌>>=◌}
use ext.Client.Dispatch.{quit_text, read_text, handle}
use ext.Client.Decimal.{decimal, IsPlain, IsWord, decimal-IsWord}
use ext.Client.Typed.{
  Verb, ls_verb, mkdir_verb, touch_verb, open_verb, close_verb, write_verb, write_from_verb,
  read_to_verb, lseek_verb, text_of, Command, show_help, make_fs, check_fs, list_dir, make_dir,
  make_file, open_path, close_fd, write_fd, write_fd_from, read_fd_to, read_fd, seek_fd,
  read_fd_to_size, without_argument, unknown, then_text, line_of, run, run_all, IsProper, IsCommand,
}
use ext.Client.Meaning.{word_of, parse_command-line_of, handle-run}
use ext.Client.Loop.{client}
use ext.Client.Script.{run_lines, IsLine, script, quit_line, SameEnd, client-run_lines}

-- A byte that stands in a line.
abbrev IsTyped : ℕ → Type 0
IsTyped x = (x ≢ 10) × (x ≢ 0)

IsPlain-IsTyped : (text : Bytes) → All IsPlain text → All IsTyped text
IsPlain-IsTyped [] a = tt
IsPlain-IsTyped (x ∷ text) a = ((a.0.no_newline, a.0.no_nul), IsPlain-IsTyped text a.1)

then_text-IsTyped :
    (text rest : Bytes) → All IsTyped text → All IsTyped rest → All IsTyped (then_text text rest)
then_text-IsTyped [] rest a b = ((λ e. omega arith, λ e. omega arith), b)
then_text-IsTyped (x ∷ text) rest a b = (a.0, then_text-IsTyped text rest a.1 b)

decimal-IsTyped : (n : ℕ) → All IsTyped (decimal n)
decimal-IsTyped n = IsPlain-IsTyped (decimal n) (decimal-IsWord n).1

first_number-IsTyped :
    (n : ℕ) (rest : Bytes) → All IsTyped rest → All IsTyped (then_text (decimal n) rest)
first_number-IsTyped n rest a = then_text-IsTyped (decimal n) rest (decimal-IsTyped n) a

text_of-IsTyped : (verb : Verb) → All IsTyped (text_of verb)
text_of-IsTyped ls_verb = omega arith
text_of-IsTyped mkdir_verb = omega arith
text_of-IsTyped touch_verb = omega arith
text_of-IsTyped open_verb = omega arith
text_of-IsTyped close_verb = omega arith
text_of-IsTyped write_verb = omega arith
text_of-IsTyped write_from_verb = omega arith
text_of-IsTyped read_to_verb = omega arith
text_of-IsTyped lseek_verb = omega arith

behind_verb :
    (verb : Verb) (rest : Bytes) → All IsTyped rest → All IsTyped (then_text (text_of verb) rest)
behind_verb verb rest a = then_text-IsTyped (text_of verb) rest (text_of-IsTyped verb) a

path_behind :
    (verb : Verb) (path : Bytes) → IsWord path → All IsTyped (then_text (text_of verb) path)
path_behind verb path w = behind_verb verb path (IsPlain-IsTyped path w.1)

two_behind :
    (verb : Verb) (fd : ℕ) (rest : Bytes)
    → All IsTyped rest
    → All IsTyped (then_text (text_of verb) (then_text (decimal fd) rest))
two_behind verb fd rest a = behind_verb verb _ (first_number-IsTyped fd rest a)

line_of-IsTyped : (c : Command) → IsProper c → All IsTyped (line_of c)
line_of-IsTyped show_help p = omega arith
line_of-IsTyped make_fs p = omega arith
line_of-IsTyped check_fs p = omega arith
line_of-IsTyped (list_dir path) p = path_behind ls_verb path p
line_of-IsTyped (make_dir path) p = path_behind mkdir_verb path p
line_of-IsTyped (make_file path) p = path_behind touch_verb path p
line_of-IsTyped (open_path path) p = path_behind open_verb path p
line_of-IsTyped (close_fd fd) p = path_behind close_verb (decimal fd) (decimal-IsWord fd)
line_of-IsTyped (write_fd fd text) (p, w) = two_behind write_verb fd text (IsPlain-IsTyped text w.1)
line_of-IsTyped (write_fd_from fd path) (p, w) =
    two_behind write_from_verb fd path (IsPlain-IsTyped path w.1)
line_of-IsTyped (read_fd_to fd path) (p, w) =
    two_behind read_to_verb fd path (IsPlain-IsTyped path w.1)
line_of-IsTyped (read_fd fd size) p =
    then_text-IsTyped read_text _ (omega arith)
      (first_number-IsTyped fd (decimal size) (decimal-IsTyped size))
line_of-IsTyped (seek_fd fd pos) p = two_behind lseek_verb fd (decimal pos) (decimal-IsTyped pos)
line_of-IsTyped (read_fd_to_size fd path size) (p, w, q) =
    two_behind read_to_verb fd _
      (then_text-IsTyped path (decimal size) (IsPlain-IsTyped path w.1) (decimal-IsTyped size))
line_of-IsTyped (without_argument verb) p = text_of-IsTyped verb
line_of-IsTyped (unknown command) p = IsPlain-IsTyped command p.0.1

verb_goes_on : (verb : Verb) → text_eq (text_of verb) quit_text ≡ false
verb_goes_on ls_verb = refl
verb_goes_on mkdir_verb = refl
verb_goes_on touch_verb = refl
verb_goes_on open_verb = refl
verb_goes_on close_verb = refl
verb_goes_on write_verb = refl
verb_goes_on write_from_verb = refl
verb_goes_on read_to_verb = refl
verb_goes_on lseek_verb = refl

-- No command is quit.
word_goes_on : (c : Command) → IsProper c → text_eq (word_of c) quit_text ≡ false
word_goes_on show_help p = refl
word_goes_on make_fs p = refl
word_goes_on check_fs p = refl
word_goes_on (list_dir path) p = refl
word_goes_on (make_dir path) p = refl
word_goes_on (make_file path) p = refl
word_goes_on (open_path path) p = refl
word_goes_on (close_fd fd) p = refl
word_goes_on (write_fd fd text) p = refl
word_goes_on (write_fd_from fd path) p = refl
word_goes_on (read_fd_to fd path) p = refl
word_goes_on (read_fd fd size) p = refl
word_goes_on (seek_fd fd pos) p = refl
word_goes_on (read_fd_to_size fd path size) p = refl
word_goes_on (without_argument verb) p = verb_goes_on verb
word_goes_on (unknown command) p = p.1.1.1.1.0

All-map {ℓ} : {P Q : ℕ → Type ℓ} (xs : Bytes) → ((x : ℕ) → P x → Q x) → All P xs → All Q xs
All-map [] f a = tt
All-map (x ∷ xs) f a = (f x a.0, All-map xs f a.1)

IsCommand-IsLine : (c : Command) → IsCommand c → IsLine (line_of c)
IsCommand-IsLine c v =
    let typed = line_of-IsTyped c v.proper in
    record {
      no_newline = All-map (line_of c) (λ x p. p.0) typed;
      no_nul = All-map (line_of c) (λ x p. p.1) typed;
      short = v.short;
      goes_on =
          ap (λ r. text_eq r.0 quit_text) (parse_command-line_of c v.proper)
          ∙ word_goes_on c v.proper;
    }

-- The lines that are typed.
unfoldable pub lines_of : List Command → List Bytes
lines_of [] = []
lines_of (c ∷ cs) = line_of c ∷ lines_of cs

lines_of-IsLine : (cs : List Command) → All IsCommand cs → All IsLine (lines_of cs)
unfolding lines_of
lines_of-IsLine [] v = tt
lines_of-IsLine (c ∷ cs) v = (IsCommand-IsLine c v.0, lines_of-IsLine cs v.1)

run_lines-run_all :
    (path : Bytes) (cs : List Command)
    → All IsCommand cs
    → run_lines path (lines_of cs) ≡ run_all path cs
unfolding run_lines run_all lines_of
run_lines-run_all path [] v = refl
run_lines-run_all path (c ∷ cs) v =
    ap (λ r. handle path r.0 r.1 >>= (λ _. run_lines path (lines_of cs)))
      (parse_command-line_of c v.0.proper)
    ∙ ap (λ m. m >>= (λ _. run_lines path (lines_of cs))) (handle-run path c v.0.proper)
    ∙ ap (λ m. run path c >>= (λ _. m)) (run_lines-run_all path cs v.1)

-- For a list of commands, each typed as its word and, with one space before each, its path, data,
-- descriptor and size in decimal (the paths and data words with a byte, without a space, a newline
-- and a NUL, the numbers within uint16_t and uint32_t; also a word alone for a command that then
-- prints what it requires, and words that are no command), each in a line shorter than the command
-- buffer by two bytes at least, and then a line "quit" and anything behind it: client ends as the
-- meanings of the commands do when they run one after the other up to the first that does not
-- return, whatever the host answers and whatever the buffer held: with the same outcome and files,
-- and the same texts printed. mkdir means create_dir of the path, touch create_file, open
-- open_file, close close_file, lseek lseek_pos, write and read write_to_file and read_file,
-- write_from and read_to the two that copy, with the numbers that were typed; ls means the
-- listing, init init_fs, and read_fs and help what they are called.
pub client-run_all :
    (h : Host) (path : Bytes) (cs : List Command) (rest : Bytes) (s : Session)
    → s.stdin ≡ script (lines_of cs) (quit_line rest)
    → All IsCommand cs
    → SameEnd (client path h s) (run_all path cs h s)
client-run_all h path cs rest s e v =
    subst (λ m. SameEnd (client path h s) (m h s)) (run_lines-run_all path cs v)
      (client-run_lines h path (lines_of cs) rest s e (lines_of-IsLine cs v))
