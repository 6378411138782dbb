-- ===== src/Client/Input.antt =====
-- FileSystem/utils.c: read_command_from_stdin and get_file_size, and strtol of the C library as the
-- client uses it.
use ext.Base.{
  ℕ, zero, suc, ◌+◌, ◌-◌, ◌*◌, ◌%◌, ◌^◌, Bool, [], ◌∷◌, Option, none, some, length, take, min, ltb,
  ◌==◌, if◌then◌else◌, ◌&&◌, ◌||◌,
}
use ext.Base.Image.{Bytes}
use ext.Session.{S, return, crash, call_host, open_to_read, ◌>>=◌, ◌>>◌}

-- command_buffer_lenght
abbrev pub command_buffer_length : ℕ
command_buffer_length = 256

-- fgets with room for `n` bytes before the NUL: a line with its newline, or what fits; and the rest.
unfoldable pub fgets : ℕ → Bytes → Bytes × Bytes
fgets zero stdin = ([], stdin)
fgets (suc n) [] = ([], [])
fgets (suc n) (x ∷ stdin) =
    let more = fgets n stdin in if x == 10 then (x ∷ [], stdin) else (x ∷ more.0, more.1)

-- What strlen sees of an array.
unfoldable pub until_nul : Bytes → Bytes
until_nul [] = []
until_nul (x ∷ array) = if x == 0 then [] else x ∷ until_nul array

-- At the end of the input fgets leaves the buffer as it was.
unfoldable pub buffer_after : Bytes → Option Bytes → Option Bytes
unfolding until_nul
buffer_after [] buffer = buffer
buffer_after (x ∷ line) buffer = some (until_nul (x ∷ line))

-- The last byte of the buffer is cut off, whatever it is. An empty text is written to in front of
-- its start, and a buffer that was never written to is read: faults.
unfoldable pub read_command_from_stdin : S Bytes
unfolding fgets buffer_after
read_command_from_stdin h s =
    let (line, rest) = fgets (command_buffer_length - 1) s.stdin in
    elim (buffer_after line s.buffer) [
      | none ↦ crash h s
      | some [] ↦ crash h s
      | some (x ∷ text) ↦
          let command = take (length text) (x ∷ text) in
          return command h (record s { stdin = rest; buffer = some command })
    ]

-- The size, or -1 if open, fdopen or fstat fails.
unfoldable pub get_file_size : Bytes → S ℕ
get_file_size path = do bytes ← open_to_read path; call_host; call_host; return (length bytes)

abbrev is_space : ℕ → Bool
is_space x = x == b' ' || (ltb 8 x && ltb x 14)

abbrev is_digit : ℕ → Bool
is_digit x = ltb 47 x && ltb x 58

-- The digits in front, as a number.
unfoldable pub digits : ℕ → Bytes → ℕ
digits n [] = n
digits n (x ∷ text) = let more = digits (n * 10 + (x - 48)) text in if is_digit x then more else n

unfoldable pub skip_spaces : Bytes → Bytes
skip_spaces [] = []
skip_spaces (x ∷ text) = if is_space x then skip_spaces text else x ∷ text

unfoldable pub signed : Bytes → ℕ
unfolding digits
signed [] = 0
signed (x ∷ text) =
    if x == b'-'
    then (2 ^ 64 - min (digits 0 text) (2 ^ 63)) % 2 ^ 64
    else min (if x == b'+' then digits 0 text else digits 0 (x ∷ text)) (2 ^ 63 - 1)

-- strtol(text, NULL, 10): the bits of a long, which is saturated.
unfoldable pub strtol : Bytes → ℕ
unfolding signed skip_spaces
strtol text = signed (skip_spaces text)
