-- ===== src/Commands/Listing.antt =====
-- FileSystem/interface/ls.h. The result is what is printed on the standard output.
use mathlib.Core.Option
use ext.Base.{ℕ, zero, suc, List, [], ◌∷◌, ◌++◌, Option, none, some, get_elem?, ◌==◌, if◌then◌else◌}
use ext.Base.Image.{Bytes}
use ext.Os.{M, pure, fault, attempt, element, ◌>>=◌}
use ext.Superblock.{Superblock}
use ext.Inode.{read_inode}
use ext.Block.{BlockRecord, read_block}
use ext.Methods.{get_inode_id_of_dir, records_of}
use ext.Commands.Opening.{open_fs}

-- The text in an array of bytes, up to its NUL; `none` is a read past the array.
unfoldable pub c_string : Bytes → Option Bytes
c_string [] = none
c_string (x ∷ array) = if x == 0 then some [] else Option.map (λ text. x ∷ text) (c_string array)

-- " -- file"
abbrev pub file_mark : Bytes
file_mark = b' ' ∷ b'-' ∷ b'-' ∷ b' ' ∷ b'f' ∷ b'i' ∷ b'l' ∷ b'e' ∷ []

abbrev pub newline : ℕ
newline = 10

-- The loop over the records: the listing, up to the name of the first whose inode cannot be read.
unfoldable pub list_records : ℕ → List BlockRecord → Superblock → Bytes → M Bytes
unfolding c_string
list_records zero block_records superblock printed = pure printed
list_records (suc n) [] superblock printed = fault
list_records (suc n) (block_record ∷ block_records) superblock printed = do
  name ← element (c_string block_record.path)
  readed ← attempt (read_inode block_record.inode_id superblock)
  elim readed [
    | none ↦ pure (printed ++ name)
    | some inode ↦ list_records n block_records superblock (
        printed
        ++ (name ++ ((if inode.inode_info.is_file then file_mark else []) ++ (newline ∷ []))))
  ]

-- After an error of read_inode the function goes on with the inode that was released: a fault.
unfoldable pub ls : Bytes → M Bytes
unfolding list_records
ls path_to_dir = do
  superblock ← open_fs
  inode_id ← get_inode_id_of_dir path_to_dir superblock
  if inode_id == superblock.fs_info.inodes_count then pure [] else (do
    inode_readed ← attempt (read_inode inode_id superblock)
    elim inode_readed [
      | none ↦ fault
      | some inode ↦ if inode.inode_info.is_file then pure [] else (do
        block_id ← element (get_elem? inode.block_ids 0)
        block_readed ← attempt (read_block block_id superblock)
        elim block_readed [
          | none ↦ pure []
          | some block ↦
              list_records block.block_info.records_count (records_of block) superblock []
        ])
    ])
