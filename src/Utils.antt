-- ===== src/Utils.antt =====
-- FileSystem/utils.c: the transfer loops (the texts are in Paths).
pub mod Read
pub mod Write
pub mod Partial
pub mod Ends
use ext.Base.{ℕ, zero, suc, ◌+◌, ◌-◌, ◌≡◌, List, [], ◌∷◌, ◌++◌, Option, none, some, length, drop}
use ext.Base.Image.{Bytes}
use ext.Os.{M, pure, hang, ◌>>=◌, attempt, read, write}

-- `while (total != to_read)`: `left` is `to_read - total`, and `buffer` what has been read.
unfoldable pub read_loop : ℕ → ℕ → Bytes → M Bytes
read_loop fuel zero buffer = pure buffer
read_loop zero (suc left) buffer = hang
read_loop (suc fuel) (suc left) buffer = do
  readed ← read (suc left)
  read_loop fuel (suc left - length readed) (buffer ++ readed)

-- The result is the filled buffer; its length is what the C function returns.
unfoldable pub read_while : ℕ → M Bytes
unfolding read_loop
read_while to_read h w = read_loop h.rounds to_read [] h w

-- `while (total != to_write)`: `rest` is the buffer from `total` on.
unfoldable pub write_loop : ℕ → Bytes → ℕ → M ℕ
write_loop fuel [] total = pure total
write_loop zero (b ∷ rest) total = hang
write_loop (suc fuel) (b ∷ rest) total = do
  written ← write (b ∷ rest)
  write_loop fuel (drop written (b ∷ rest)) (total + written)

unfoldable pub write_while : Bytes → M ℕ
unfolding write_loop
write_while buffer h w = write_loop h.rounds buffer 0 h w

-- The loop of read_while for a caller that ignores its result: what is in the buffer at the end,
-- also if a call of read has failed.
unfoldable pub fill_loop : ℕ → ℕ → Bytes → M Bytes
fill_loop fuel zero buffer = pure buffer
fill_loop zero (suc left) buffer = hang
fill_loop (suc fuel) (suc left) buffer = do
  answer ← attempt (read (suc left))
  elim answer [
    | none ↦ pure buffer
    | some readed ↦ fill_loop fuel (suc left - length readed) (buffer ++ readed)
  ]

unfoldable pub fill_while : ℕ → M Bytes
unfolding fill_loop
fill_while to_read h w = fill_loop h.rounds to_read [] h w
