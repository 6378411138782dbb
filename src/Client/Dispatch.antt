-- ===== src/Client/Dispatch.antt =====
-- The body of the loop in client, from the command and its arguments on.
use ext.Base.{
  ℕ, ◌%◌, ◌^◌, [], ◌∷◌, ◌++◌, Option, none, some, length, ltb, ◌==◌, text_eq, if◌then◌else◌,
}
use ext.Base.Image.{Bytes}
use ext.Paths.{parse_command}
use ext.Commands.Init.{init_fs, read_fs}
use ext.Commands.Create.{create_dir, create_file}
use ext.Commands.Listing.{c_string, ls}
use ext.Commands.Descriptor.{open_file, close_file, lseek_pos}
use ext.Session.{
  S, help, initializing, reading, unsupported, requires, listing, opened, readed, return, crash,
  on_file, print, ◌>>=◌, ◌>>◌,
}
use ext.Client.Input.{strtol, command_buffer_length}
use ext.Client.Copy.{read_and_tell, write_and_tell, write_to_file_from_file, read_file_to_file}

-- HELP ... LSEEK of client.h
abbrev pub help_text : Bytes
help_text = b'h' ∷ b'e' ∷ b'l' ∷ b'p' ∷ []

abbrev pub init_text : Bytes
init_text = b'i' ∷ b'n' ∷ b'i' ∷ b't' ∷ []

abbrev pub read_fs_text : Bytes
read_fs_text = b'r' ∷ b'e' ∷ b'a' ∷ b'd' ∷ b'_' ∷ b'f' ∷ b's' ∷ []

abbrev pub ls_text : Bytes
ls_text = b'l' ∷ b's' ∷ []

abbrev pub quit_text : Bytes
quit_text = b'q' ∷ b'u' ∷ b'i' ∷ b't' ∷ []

abbrev pub mkdir_text : Bytes
mkdir_text = b'm' ∷ b'k' ∷ b'd' ∷ b'i' ∷ b'r' ∷ []

abbrev pub touch_text : Bytes
touch_text = b't' ∷ b'o' ∷ b'u' ∷ b'c' ∷ b'h' ∷ []

abbrev pub open_text : Bytes
open_text = b'o' ∷ b'p' ∷ b'e' ∷ b'n' ∷ []

abbrev pub close_text : Bytes
close_text = b'c' ∷ b'l' ∷ b'o' ∷ b's' ∷ b'e' ∷ []

abbrev pub write_text : Bytes
write_text = b'w' ∷ b'r' ∷ b'i' ∷ b't' ∷ b'e' ∷ []

abbrev pub write_from_text : Bytes
write_from_text = b'w' ∷ b'r' ∷ b'i' ∷ b't' ∷ b'e' ∷ b'_' ∷ b'f' ∷ b'r' ∷ b'o' ∷ b'm' ∷ []

abbrev pub read_text : Bytes
read_text = b'r' ∷ b'e' ∷ b'a' ∷ b'd' ∷ []

abbrev pub read_to_text : Bytes
read_to_text = b'r' ∷ b'e' ∷ b'a' ∷ b'd' ∷ b'_' ∷ b't' ∷ b'o' ∷ []

abbrev pub lseek_text : Bytes
lseek_text = b'l' ∷ b's' ∷ b'e' ∷ b'e' ∷ b'k' ∷ []

-- `arg == NULL || strlen(arg) == 0`, and what is done with an argument.
unfoldable pub with_arg : Bytes → Option Bytes → (Bytes → S (Unit {0})) → S (Unit {0})
with_arg command none act = print (requires command)
with_arg command (some []) act = print (requires command)
with_arg command (some (x ∷ arg)) act = act (x ∷ arg)

-- The first word of the arguments.
abbrev word : Bytes → Bytes
word args = (parse_command args).0

-- A number that is put into a uint16_t.
abbrev pub descriptor_of : Bytes → ℕ
descriptor_of args = strtol (word args) % 2 ^ 16

-- One that is put into a uint32_t.
abbrev pub size_of : Bytes → ℕ
size_of args = strtol (word args) % 2 ^ 32

-- What "%s" prints of the array of READ, where it is `none` to read a byte that was never written:
-- the array is not cleared.
unfoldable pub array_text : ℕ → Option Bytes → Option Bytes
unfolding c_string
array_text size none = c_string (if size == 0 then 0 ∷ [] else [])
array_text size (some bytes) = c_string (bytes ++ (if length bytes == size then 0 ∷ [] else []))

-- READ, behind read_file. A size of command_buffer_lenght or more puts the NUL outside the array.
unfoldable pub show_readed : ℕ → Option Bytes → S (Unit {0})
unfolding array_text
show_readed size dest =
    if ltb size command_buffer_length
    then elim (array_text size dest) [ none ↦ crash | some text ↦ print (readed text) ]
    else crash

-- The two together.
unfoldable pub read_command : Bytes → ℕ → ℕ → S (Unit {0})
unfolding show_readed
read_command path fd size = do
  dest ← read_and_tell path command_buffer_length fd size
  show_readed size dest

-- The commands that take a descriptor and something behind it.
unfoldable pub with_two : Bytes → Option Bytes → (ℕ → Bytes → S (Unit {0})) → S (Unit {0})
unfolding with_arg
with_two command args act =
    with_arg command args
      λ text. with_arg command (parse_command text).1 λ second. act (descriptor_of text) second

-- READ does not look whether there are arguments at all.
unfoldable pub handle_read : Bytes → Option Bytes → S (Unit {0})
unfolding with_arg
handle_read path none = crash
handle_read path (some text) =
    with_arg read_text (parse_command text).1
      λ second. read_command path (descriptor_of text) (size_of second)

unfoldable pub handle_read_to : Bytes → ℕ → Bytes → S (Unit {0})
handle_read_to path fd second = elim (parse_command second).1 [
  | none ↦ read_file_to_file path fd (word second) none
  | some third ↦
      if length third == 0
      then read_file_to_file path fd (word second) none
      else read_file_to_file path fd (word second) (some (size_of third))
]

unfoldable pub handle_ls : Bytes → Bytes → S (Unit {0})
handle_ls path text = do printed ← on_file path (ls (word text)); print (listing printed)

unfoldable pub handle_open : Bytes → Bytes → S (Unit {0})
handle_open path text = do
  fd ← on_file path (open_file (word text))
  elim fd [ none ↦ return tt | some new_fd ↦ print (opened new_fd) ]

unfoldable pub handle_write : Bytes → ℕ → Bytes → S (Unit {0})
handle_write path fd second = write_and_tell path fd (word second)

unfoldable pub handle_init : Bytes → S (Unit {0})
handle_init path = do print initializing; on_file path init_fs

unfoldable pub handle_read_fs : Bytes → S (Unit {0})
handle_read_fs path = do print reading; on_file path read_fs

-- One round of the loop, for every command but QUIT.
unfoldable pub handle : Bytes → Bytes → Option Bytes → S (Unit {0})
unfolding with_arg with_two handle_read handle_read_to handle_ls handle_open handle_write
    handle_init handle_read_fs
handle path command args =
    if text_eq command help_text
    then print help
    else if text_eq command init_text
    then handle_init path
    else if text_eq command read_fs_text
    then handle_read_fs path
    else if text_eq command ls_text
    then with_arg ls_text args (handle_ls path)
    else if text_eq command mkdir_text
    then with_arg mkdir_text args (λ text. on_file path (create_dir (word text)))
    else if text_eq command touch_text
    then with_arg touch_text args (λ text. on_file path (create_file (word text)))
    else if text_eq command open_text
    then with_arg open_text args (handle_open path)
    else if text_eq command close_text
    then with_arg close_text args (λ text. on_file path (close_file (descriptor_of text)))
    else if text_eq command write_text
    then with_two write_text args (handle_write path)
    else if text_eq command read_text
    then handle_read path args
    else if text_eq command write_from_text
    then with_two write_from_text args (λ fd second. write_to_file_from_file path fd (word second))
    else if text_eq command read_to_text
    then with_two read_to_text args (handle_read_to path)
    else if text_eq command lseek_text
    then with_two lseek_text args (λ fd second. on_file path (lseek_pos fd (size_of second)))
    else print unsupported
