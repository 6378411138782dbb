-- ===== src/Client/Meaning.antt =====
-- What client does with a command as it is typed is what the command means.
use ext.Base.{
  ℕ, ◌^◌, ◌<◌, ◌≡◌, refl, ap, ap₂, ◌∙◌, false, Option, none, some, length, All, arith, ne→==,
  text_eq, if◌then◌else◌, ◌==◌,
}
use ext.Base.Image.{Bytes}
use ext.Paths.{strchr, parse_command}
use ext.Session.{S, unsupported, listing, opened, return, on_file, print, ◌>>=◌}
use ext.Commands.Create.{create_dir, create_file}
use ext.Commands.Listing.{ls}
use ext.Commands.Descriptor.{open_file, close_file, lseek_pos}
use ext.Client.Copy.{write_and_tell, write_to_file_from_file, read_file_to_file}
use ext.Client.Dispatch.{
  help_text, init_text, read_fs_text, ls_text, mkdir_text, touch_text, open_text, close_text,
  write_text, write_from_text, read_text, read_to_text, lseek_text, with_arg, with_two, handle,
  handle_ls, handle_open, handle_write, handle_init, handle_read_fs, handle_read, handle_read_to,
  read_command, descriptor_of, size_of,
}
use ext.Client.Decimal.{decimal, IsWord, decimal-IsWord}
use ext.Client.Words.{
  parse_command-word, parse_command-alone, with_arg-IsWord, first_number, word-alone,
  descriptor_of-decimal, descriptor_of-first, size_of-decimal, length-then_text, with_two-decimal,
}
use ext.Client.Typed.{
  Verb, ls_verb, mkdir_verb, touch_verb, open_verb, close_verb, write_verb, write_from_verb,
  read_to_verb, lseek_verb, text_of, Command, show_help, make_fs, check_fs, list_dir, make_dir,
  make_file, open_path, close_fd, write_fd, write_fd_from, read_fd_to, read_fd, seek_fd,
  read_fd_to_size, without_argument, unknown, then_text, line_of, run, commands, IsProper,
}

-- The word that a command begins with, and what is typed behind it.
abbrev pub word_of : Command → Bytes
word_of show_help = help_text
word_of make_fs = init_text
word_of check_fs = read_fs_text
word_of (list_dir path) = ls_text
word_of (make_dir path) = mkdir_text
word_of (make_file path) = touch_text
word_of (open_path path) = open_text
word_of (close_fd fd) = close_text
word_of (write_fd fd text) = write_text
word_of (write_fd_from fd path) = write_from_text
word_of (read_fd_to fd path) = read_to_text
word_of (read_fd fd size) = read_text
word_of (seek_fd fd pos) = lseek_text
word_of (read_fd_to_size fd path size) = read_to_text
word_of (without_argument verb) = text_of verb
word_of (unknown command) = command

abbrev pub args_of : Command → Option Bytes
args_of (list_dir path) = some path
args_of (make_dir path) = some path
args_of (make_file path) = some path
args_of (open_path path) = some path
args_of (close_fd fd) = some (decimal fd)
args_of (write_fd fd text) = some (then_text (decimal fd) text)
args_of (write_fd_from fd path) = some (then_text (decimal fd) path)
args_of (read_fd_to fd path) = some (then_text (decimal fd) path)
args_of (read_fd fd size) = some (then_text (decimal fd) (decimal size))
args_of (seek_fd fd pos) = some (then_text (decimal fd) (decimal pos))
args_of (read_fd_to_size fd path size) =
    some (then_text (decimal fd) (then_text path (decimal size)))
args_of _ = none

parse_command-text_of : (verb : Verb) → parse_command (text_of verb) ≡ (text_of verb, none)
unfolding parse_command strchr
parse_command-text_of ls_verb = refl
parse_command-text_of mkdir_verb = refl
parse_command-text_of touch_verb = refl
parse_command-text_of open_verb = refl
parse_command-text_of close_verb = refl
parse_command-text_of write_verb = refl
parse_command-text_of write_from_verb = refl
parse_command-text_of read_to_verb = refl
parse_command-text_of lseek_verb = refl

pub parse_command-line_of :
    (c : Command) → IsProper c → parse_command (line_of c) ≡ (word_of c, args_of c)
unfolding parse_command strchr
parse_command-line_of show_help p = refl
parse_command-line_of make_fs p = refl
parse_command-line_of check_fs p = refl
parse_command-line_of (list_dir path) p = refl
parse_command-line_of (make_dir path) p = refl
parse_command-line_of (make_file path) p = refl
parse_command-line_of (open_path path) p = refl
parse_command-line_of (close_fd fd) p = refl
parse_command-line_of (write_fd fd text) p = refl
parse_command-line_of (write_fd_from fd path) p = refl
parse_command-line_of (read_fd_to fd path) p = refl
parse_command-line_of (read_fd fd size) p = refl
parse_command-line_of (seek_fd fd pos) p = refl
parse_command-line_of (read_fd_to_size fd path size) p = refl
parse_command-line_of (without_argument verb) p = parse_command-text_of verb
parse_command-line_of (unknown command) p = parse_command-alone command p.0.1

handle_read-decimal :
    (path : Bytes) (fd size : ℕ)
    → fd < 2 ^ 16
    → size < 2 ^ 32
    → handle_read path (some (then_text (decimal fd) (decimal size))) ≡ read_command path fd size
unfolding handle_read
handle_read-decimal path fd size l m =
    let text = then_text (decimal fd) (decimal size) in
    ap (λ r. with_arg read_text r (λ t. read_command path (descriptor_of text) (size_of t)))
      (ap (λ r. r.1) (first_number fd (decimal size)))
    ∙ with_arg-IsWord read_text (decimal size) _ (decimal-IsWord size).0
    ∙ ap₂ (read_command path) (descriptor_of-first fd (decimal size) l) (size_of-decimal size m)

-- handle_read_to on the words that were read.
abbrev read_to : Bytes → ℕ → Bytes × Option Bytes → S (Unit {0})
read_to path fd words = elim words.1 [
  | none ↦ read_file_to_file path fd words.0 none
  | some third ↦
      if length third == 0
      then read_file_to_file path fd words.0 none
      else read_file_to_file path fd words.0 (some (size_of third))
]

handle_read_to-alone :
    (path : Bytes) (fd : ℕ) (to : Bytes)
    → IsWord to
    → handle_read_to path fd to ≡ read_file_to_file path fd to none
unfolding handle_read_to
handle_read_to-alone path fd to w = ap (read_to path fd) (parse_command-alone to w.1)

handle_read_to-decimal :
    (path : Bytes) (fd : ℕ) (to : Bytes) (size : ℕ)
    → IsWord to
    → size < 2 ^ 32
    → handle_read_to path fd (then_text to (decimal size))
      ≡ read_file_to_file path fd to (some size)
unfolding handle_read_to
handle_read_to-decimal path fd to size w l =
    let some_digit = (decimal-IsWord size).0 in
    ap (read_to path fd) (parse_command-word to (decimal size) w.1)
    ∙ rw (ne→== (length (decimal size)) 0 (omega arith))
        (ap (λ n. read_file_to_file path fd to (some n)) (size_of-decimal size l))

handle-text_of :
    (path : Bytes) (verb : Verb)
    → handle path (text_of verb) none ≡ run path (without_argument verb)
unfolding handle with_arg with_two
handle-text_of path ls_verb = refl
handle-text_of path mkdir_verb = refl
handle-text_of path touch_verb = refl
handle-text_of path open_verb = refl
handle-text_of path close_verb = refl
handle-text_of path write_verb = refl
handle-text_of path write_from_verb = refl
handle-text_of path read_to_verb = refl
handle-text_of path lseek_verb = refl

handle-unknown :
    (path command : Bytes) (args : Option Bytes)
    → All (λ c. text_eq command c ≡ false) commands
    → handle path command args ≡ print unsupported
unfolding handle
handle-unknown path command args
      (p0, (p1, (p2, (p3, (p4, (p5, (p6, (p7, (p8, (p9, (p10, (p11, (p12, (p13, p14)))))))))))))) =
    rw (handle, p0, p1, p2, p4, p5, p6, p7, p8, p9, p10, p11, p12, p13) refl

-- What client does with a command is what the command means.
pub handle-run :
    (path : Bytes) (c : Command) → IsProper c → handle path (word_of c) (args_of c) ≡ run path c
unfolding handle handle_ls handle_open handle_write handle_init handle_read_fs
handle-run path show_help p = refl
handle-run path make_fs p = refl
handle-run path check_fs p = refl
handle-run path (list_dir dir) p =
    with_arg-IsWord ls_text dir _ p.0
    ∙ ap (λ d. on_file path (ls d) >>= (λ text. print (listing text))) (word-alone dir p)
handle-run path (make_dir dir) p =
    with_arg-IsWord mkdir_text dir _ p.0 ∙ ap (λ d. on_file path (create_dir d)) (word-alone dir p)
handle-run path (make_file file) p =
    with_arg-IsWord touch_text file _ p.0
    ∙ ap (λ d. on_file path (create_file d)) (word-alone file p)
handle-run path (open_path file) p =
    with_arg-IsWord open_text file _ p.0
    ∙ ap
        (λ d.
          on_file path (open_file d)
          >>= (λ fd. elim fd [ none ↦ return tt | some new_fd ↦ print (opened new_fd) ]))
        (word-alone file p)
handle-run path (close_fd fd) p =
    with_arg-IsWord close_text (decimal fd) _ (decimal-IsWord fd).0
    ∙ ap (λ n. on_file path (close_file n)) (descriptor_of-decimal fd p)
handle-run path (write_fd fd text) (p, w) =
    with_two-decimal write_text text fd (handle_write path) p w.0
    ∙ ap (write_and_tell path fd) (word-alone text w)
handle-run path (write_fd_from fd from) (p, w) =
    with_two-decimal write_from_text from fd
      (λ n second. write_to_file_from_file path n (parse_command second).0) p w.0
    ∙ ap (write_to_file_from_file path fd) (word-alone from w)
handle-run path (read_fd_to fd to) (p, w) =
    with_two-decimal read_to_text to fd (handle_read_to path) p w.0
    ∙ handle_read_to-alone path fd to w
handle-run path (read_fd fd size) (p, q) = handle_read-decimal path fd size p q
handle-run path (seek_fd fd pos) (p, q) =
    with_two-decimal lseek_text (decimal pos) fd
      (λ n second. on_file path (lseek_pos n (size_of second))) p (decimal-IsWord pos).0
    ∙ ap (λ n. on_file path (lseek_pos fd n)) (size_of-decimal pos q)
handle-run path (read_fd_to_size fd to size) (p, w, q) =
    with_two-decimal read_to_text (then_text to (decimal size)) fd (handle_read_to path) p
      (length-then_text to (decimal size))
    ∙ handle_read_to-decimal path fd to size w q
handle-run path (without_argument verb) p = handle-text_of path verb
handle-run path (unknown command) p = handle-unknown path command none p.1
