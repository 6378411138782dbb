-- ===== src/Client/Loop.antt =====
-- The loop of client and main. Its fuel is what is left to read.
use ext.Base.{
  ℕ, zero, suc, ◌+◌, ◌*◌, Bool, true, false, List, [], ◌∷◌, Option, none, some, length, text_eq,
}
use ext.Base.Image.{Bytes}
use ext.Paths.{parse_command}
use ext.Session.{Session, S, return, stall, ◌>>=◌, ◌>>◌}
use ext.Client.Input.{read_command_from_stdin}
use ext.Client.Dispatch.{quit_text, handle}

-- A round, once it is known whether the command is QUIT, and the rounds after it.
unfoldable pub round : Bytes → Bytes → Bool → S (Unit {0}) → S (Unit {0})
round path text true again = return tt
round path text false again = do handle path (parse_command text).0 (parse_command text).1; again

-- Fuel counts the rounds.
unfoldable pub client_loop : ℕ → Bytes → S (Unit {0})
unfolding round
client_loop zero path = stall
client_loop (suc fuel) path = do
  text ← read_command_from_stdin
  round path text (text_eq (parse_command text).0 quit_text) (client_loop fuel path)

abbrev pub text_length : Option Bytes → ℕ
text_length none = 0
text_length (some text) = length text

-- What is left to read: 257 for each byte of the input, and the text in the buffer.
abbrev pub to_read : Session → ℕ
to_read s = 257 * length s.stdin + text_length s.buffer

unfoldable pub client : Bytes → S (Unit {0})
unfolding client_loop
client path h s = client_loop (suc (to_read s)) path h s

-- "test_fs"
abbrev pub default_path : Bytes
default_path = b't' ∷ b'e' ∷ b's' ∷ b't' ∷ b'_' ∷ b'f' ∷ b's' ∷ []

-- `argv` without the name of the program.
unfoldable pub main : List Bytes → S (Unit {0})
unfolding client
main [] = client default_path
main (path ∷ rest) = client path
