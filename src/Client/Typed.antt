-- ===== src/Client/Typed.antt =====
-- The commands of the client as they are typed, and what each of them means; client.h describes them
-- in its help text.
use ext.Base.{ℕ, ◌^◌, ◌<◌, ◌≡◌, false, List, [], ◌∷◌, ◌++◌, none, some, length, All, text_eq}
use ext.Base.Image.{Bytes}
use ext.Commands.Init.{init_fs, read_fs}
use ext.Commands.Create.{create_dir, create_file}
use ext.Commands.Listing.{ls}
use ext.Commands.Descriptor.{open_file, close_file, lseek_pos}
use ext.Session.{
  S, help, initializing, reading, unsupported, requires, listing, opened, return, on_file, print,
  ◌>>=◌, ◌>>◌,
}
use ext.Client.Copy.{write_and_tell, write_to_file_from_file, read_file_to_file}
use ext.Client.Dispatch.{
  help_text, init_text, read_fs_text, ls_text, quit_text, mkdir_text, touch_text, open_text,
  close_text, write_text, write_from_text, read_text, read_to_text, lseek_text, read_command,
}
use ext.Client.Decimal.{decimal, IsWord}

-- The commands that print what they require; READ without an argument is undefined behaviour.
pub data Verb : Type 0 where
  ls_verb mkdir_verb touch_verb open_verb close_verb write_verb write_from_verb : Verb
  read_to_verb lseek_verb : Verb

abbrev pub text_of : Verb → Bytes
text_of ls_verb = ls_text
text_of mkdir_verb = mkdir_text
text_of touch_verb = touch_text
text_of open_verb = open_text
text_of close_verb = close_text
text_of write_verb = write_text
text_of write_from_verb = write_from_text
text_of read_to_verb = read_to_text
text_of lseek_verb = lseek_text

pub data Command : Type 0 where
  show_help make_fs check_fs : Command
  list_dir make_dir make_file open_path : Bytes → Command
  close_fd : ℕ → Command
  write_fd write_fd_from read_fd_to : ℕ → Bytes → Command
  read_fd seek_fd : ℕ → ℕ → Command
  read_fd_to_size : ℕ → Bytes → ℕ → Command
  without_argument : Verb → Command
  unknown : Bytes → Command

-- A word, and what follows it.
abbrev pub then_text : Bytes → Bytes → Bytes
then_text text rest = text ++ b' ' ∷ rest

abbrev pub line_of : Command → Bytes
line_of show_help = help_text
line_of make_fs = init_text
line_of check_fs = read_fs_text
line_of (list_dir path) = then_text ls_text path
line_of (make_dir path) = then_text mkdir_text path
line_of (make_file path) = then_text touch_text path
line_of (open_path path) = then_text open_text path
line_of (close_fd fd) = then_text close_text (decimal fd)
line_of (write_fd fd text) = then_text write_text (then_text (decimal fd) text)
line_of (write_fd_from fd path) = then_text write_from_text (then_text (decimal fd) path)
line_of (read_fd_to fd path) = then_text read_to_text (then_text (decimal fd) path)
line_of (read_fd fd size) = then_text read_text (then_text (decimal fd) (decimal size))
line_of (seek_fd fd pos) = then_text lseek_text (then_text (decimal fd) (decimal pos))
line_of (read_fd_to_size fd path size) =
    then_text read_to_text (then_text (decimal fd) (then_text path (decimal size)))
line_of (without_argument verb) = text_of verb
line_of (unknown command) = command

-- What the command does to the file system at `path`, and prints.
abbrev pub run : Bytes → Command → S (Unit {0})
run path show_help = print help
run path make_fs = do print initializing; on_file path init_fs
run path check_fs = do print reading; on_file path read_fs
run path (list_dir dir) = do text ← on_file path (ls dir); print (listing text)
run path (make_dir dir) = on_file path (create_dir dir)
run path (make_file file) = on_file path (create_file file)
run path (open_path file) = do
  fd ← on_file path (open_file file)
  elim fd [ none ↦ return tt | some new_fd ↦ print (opened new_fd) ]
run path (close_fd fd) = on_file path (close_file fd)
run path (write_fd fd text) = write_and_tell path fd text
run path (write_fd_from fd from) = write_to_file_from_file path fd from
run path (read_fd_to fd to) = read_file_to_file path fd to none
run path (read_fd fd size) = read_command path fd size
run path (seek_fd fd pos) = on_file path (lseek_pos fd pos)
run path (read_fd_to_size fd to size) = read_file_to_file path fd to (some size)
run path (without_argument verb) = print (requires (text_of verb))
run path (unknown command) = print unsupported

-- The commands one after the other, up to the first that does not return.
unfoldable pub run_all : Bytes → List Command → S (Unit {0})
run_all path [] = return tt
run_all path (c ∷ cs) = do run path c; run_all path cs

abbrev pub commands : List Bytes
commands =
    help_text ∷ init_text ∷ read_fs_text ∷ quit_text ∷ ls_text ∷ mkdir_text ∷ touch_text ∷ open_text
    ∷ close_text ∷ write_text ∷ read_text ∷ write_from_text ∷ read_to_text ∷ lseek_text ∷ []

abbrev IsFd : ℕ → Type 0
IsFd fd = fd < 2 ^ 16

abbrev IsSize : ℕ → Type 0
IsSize size = size < 2 ^ 32

-- The paths and the data are words, the numbers fit their types, and a word that is not known is none
-- of the commands.
abbrev pub IsProper : Command → Type 0
IsProper (list_dir path) = IsWord path
IsProper (make_dir path) = IsWord path
IsProper (make_file path) = IsWord path
IsProper (open_path path) = IsWord path
IsProper (close_fd fd) = IsFd fd
IsProper (write_fd fd text) = IsFd fd × IsWord text
IsProper (write_fd_from fd path) = IsFd fd × IsWord path
IsProper (read_fd_to fd path) = IsFd fd × IsWord path
IsProper (read_fd fd size) = IsFd fd × IsSize size
IsProper (seek_fd fd pos) = IsFd fd × IsSize pos
IsProper (read_fd_to_size fd path size) = IsFd fd × IsWord path × IsSize size
IsProper (unknown command) = IsWord command × All (λ c. text_eq command c ≡ false) commands
IsProper _ = Unit {0}

-- A command whose line fits the command buffer.
pub record IsCommand (c : Command) : Type 0 where
  pub proper : IsProper c
  pub short : length (line_of c) < 255
