-- ===== src/Paths.antt =====
-- FileSystem/utils.c: the texts. A text is its bytes up to the NUL, which is not among them.
pub mod Parse
pub mod Split
use mathlib.Core.Option
use ext.Base.{
  ℕ, zero, suc, ◌+◌, ◌-◌, ◌%◌, ◌^◌, Bool, true, false, List, [], ◌∷◌, Option, none, some, length,
  take, drop, ltb, ◌==◌, text_eq, get_or, if◌then◌else◌, ◌||◌, not, get_elem?,
}
use ext.Base.Image.{Bytes}
use ext.Os.{M, pure, exit, fault, ◌>>=◌}

abbrev pub slash : ℕ
slash = b'/'

-- strchr(text, c), as an offset.
unfoldable pub strchr : Bytes → ℕ → Option ℕ
strchr [] c = none
strchr (x ∷ text) c = if x == c then some 0 else Option.map (λ i. suc i) (strchr text c)

-- `strcmp(array, text) == 0` for an array of bytes that may lack a NUL: `none` is a read past it.
unfoldable pub strcmp_eq : Bytes → Bytes → Option Bool
strcmp_eq [] text = none
strcmp_eq (x ∷ array) [] = some (x == 0)
strcmp_eq (x ∷ array) (c ∷ text) = if x == c then strcmp_eq array text else some false

-- current_file_name_length, a uint16_t
abbrev pub name_length : Bytes → Option ℕ → ℕ
name_length path none = (length path % 2 ^ 16 + 2 ^ 16 - 1) % 2 ^ 16
name_length path (some second) = second % 2 ^ 16

-- The name, and what follows it from the second slash on. `room` is the size of the array for the
-- name, which is cleared: the NUL is written one place behind the end of the name.
unfoldable pub parse_path : Bytes → ℕ → M (Bytes × Option Bytes)
parse_path path room =
    if text_eq path (slash ∷ [])
    then (if ltb 1 room then pure (slash ∷ [], none) else fault)
    else elim (strchr path slash) [
      | none ↦ exit
      | some first ↦
          let rest = drop (first + 1) path in
          let second = strchr rest slash in
          let n = name_length path second in
          if n == 0
          then exit
          else if ltb (n + 1) room
          then pure (take n rest, Option.map (λ i. drop i rest) second)
          else fault
    ]

-- sizeof(buffer) in split_path
abbrev pub buffer_length : ℕ
buffer_length = 1024

-- The path with its last byte cut off if that is a slash.
unfoldable pub cut_slash : Bytes → Bytes
cut_slash path =
    if get_or path (length path - 1) 0 == slash then take (length path - 1) path else path

-- The loop over the slashes: `best` is the last one before `pos`.
unfoldable pub last_slash : ℕ → ℕ → Bytes → ℕ
last_slash best pos [] = best
last_slash best pos (x ∷ text) = last_slash (if x == slash then pos else best) (pos + 1) text

-- The parent's path and the name, or `none` for false. The empty path reads in front of the
-- buffer; a path of more than buffer_length bytes does not fit it, nor one of as many without a
-- slash to put the NUL on. The paths are shorter than 2^16, which path_length holds; those of the
-- client are shorter than 256.
unfoldable pub split_path : Bytes → M (Option (Bytes × Bytes))
unfolding cut_slash last_slash
split_path path =
    if length path == 0 || not (ltb (length (cut_slash path)) buffer_length)
    then fault
    else let buffer = cut_slash path in
      if not (get_or buffer 0 0 == slash) || length buffer == 0
      then pure none
      else let last = last_slash 0 0 buffer in
        let dirname = drop (last + 1) buffer in
        if length dirname == 0 then pure none else pure (some (take (last + 1) buffer, dirname))

-- The command and what follows the first space.
unfoldable pub parse_command : Bytes → Bytes × Option Bytes
unfolding strchr
parse_command command_buffer = elim (strchr command_buffer b' ') [
  | none ↦ (command_buffer, none)
  | some first_space ↦
      (take first_space command_buffer, some (drop (first_space + 1) command_buffer))
]
