-- ===== src/Commands/Opening.antt =====
-- How every command but init begins: it opens the file, reads the superblock, and looks at the
-- magic number and at the root directory. read_super_block's result is not looked at: after an
-- error the struct that it released is read.
use ext.Base.{Bool, false, none, some, get_elem?, ◌==◌, if◌then◌else◌}
use ext.Os.{M, pure, exit, fault, attempt, element, sys_open, ◌>>=◌, ◌>>◌}
use ext.Superblock.{Superblock, magic_number, root_inode_id, read_super_block}

unfoldable pub open_or_exit : Bool → M (Unit {0})
open_or_exit truncate = do
  opened ← attempt (sys_open truncate)
  elim opened [ none ↦ exit | some _ ↦ pure tt ]

unfoldable pub read_with_magic : M Superblock
unfolding open_or_exit
read_with_magic = do
  open_or_exit false
  readed ← attempt read_super_block
  elim readed [
    | none ↦ fault
    | some superblock ↦ if superblock.fs_info.magic == magic_number then pure superblock else exit
  ]

unfoldable pub open_fs : M Superblock
unfolding read_with_magic
open_fs = do
  superblock ← read_with_magic
  root ← element (get_elem? superblock.reserved_inodes_mask root_inode_id)
  if root then pure superblock else exit
