-- ===== src/Client/Copy.antt =====
-- write_to_file_from_file of FileSystem/interface/write_to_file.h and read_file_to_file of
-- read_file.h: they copy from and to a second file of the host.
use ext.Base.{
  ℕ, ◌-◌, ◌%◌, ◌^◌, false, Option, none, some, length, take, min, ltb, ◌==◌, if◌then◌else◌,
}
use ext.Base.Image.{Bytes}
use ext.Os as Os
use ext.Os.{M, pure, sys_open, attempt}
use ext.Utils.{read_while, write_while}
use ext.Block.{get_max_data_size_of_all_blocks}
use ext.Commands.Opening.{open_fs}
use ext.Commands.Transfer.{write_to_file, read_file}
use ext.Session.{
  S, written, total_readed, total_written, return, crash, on_file, open_to_read, print, tried,
  ◌>>=◌, ◌>>◌,
}
use ext.Client.Input.{get_file_size}

-- write_to_file with the line that it prints at its end.
unfoldable pub write_and_tell : Bytes → ℕ → Bytes → S (Unit {0})
write_and_tell path file_descriptor data_to_write = do
  total ← on_file path (write_to_file file_descriptor data_to_write)
  elim total [ none ↦ return tt | some n ↦ print (total_written n) ]

-- read_file with the line that it prints at its end, into an array of `room` bytes: a fault if more
-- are copied. The result is `none` for -1.
unfoldable pub read_and_tell : Bytes → ℕ → ℕ → ℕ → S (Option Bytes)
read_and_tell path room file_descriptor size = do
  dest ← tried (on_file path (read_file file_descriptor size))
  elim dest [
    | none ↦ return none
    | some bytes ↦
        if ltb room (length bytes)
        then crash
        else (do print (total_readed (length bytes)); return (some bytes))
  ]

-- The second open, and read_while on what it opened; the size that read_while returns is an int.
unfoldable pub read_from : Bytes → ℕ → S (Option Bytes)
read_from path size = do
  bytes ← tried (open_to_read path)
  elim bytes [ none ↦ return none | some _ ↦ tried (on_file path (read_while size)) ]

unfoldable pub write_to_file_from_file : Bytes → ℕ → Bytes → S (Unit {0})
unfolding read_from write_and_tell
write_to_file_from_file path_to_fs_file file_descriptor path_to_file = do
  found ← tried (get_file_size path_to_file)
  elim found [
    | none ↦ return tt
    | some size ↦ (do
      readed ← read_from path_to_file size
      elim readed [
        | none ↦ return tt
        | some buffer ↦
            let size = length buffer % 2 ^ 32 in
            if size == 2 ^ 32 - 1
            then return tt
            else write_and_tell path_to_fs_file file_descriptor (take size buffer)
      ])
  ]

-- The size to read: all of the file for -1.
unfoldable pub max_size_to_read : Option ℕ → M ℕ
max_size_to_read size = Os.◌>>=◌ open_fs λ superblock.
    let max_size = get_max_data_size_of_all_blocks superblock in
    pure (elim size [ none ↦ max_size | some n ↦ min n max_size ])

-- What is done with the second file, which is opened without O_TRUNC: what was written, or `none`
-- for -1, and `none` instead of both if it cannot be opened.
unfoldable pub write_from_start : Bytes → M (Option (Option ℕ))
write_from_start buffer = Os.◌>>=◌ (attempt (sys_open false)) λ opened. elim opened [
  | none ↦ pure none
  | some _ ↦ Os.◌>>=◌ (attempt (write_while buffer)) λ total. pure (some total)
]

unfoldable pub read_file_to_file : Bytes → ℕ → Bytes → Option ℕ → S (Unit {0})
unfolding max_size_to_read write_from_start read_and_tell
read_file_to_file path_to_fs_file file_descriptor path size = do
  max_size ← on_file path_to_fs_file (max_size_to_read size)
  buffer ← read_and_tell path_to_fs_file max_size file_descriptor max_size
  elim buffer [
    | none ↦ return tt
    | some bytes ↦ (do
      result ← on_file path (write_from_start bytes)
      elim result [ none ↦ return tt | some total ↦ print (written total path) ])
  ]
