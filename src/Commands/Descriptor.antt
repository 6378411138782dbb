-- ===== src/Commands/Descriptor.antt =====
-- FileSystem/interface/open_file.h, close_file.h and lseek_pos.h: the descriptors of the file
-- system, from the outside.
use ext.Base.{ℕ, Option, none, some, get_elem?, ltb, not, ◌==◌, if◌then◌else◌}
use ext.Base.Image.{Bytes}
use ext.Os.{M, pure, exit, fault, attempt, element, assign, ◌>>=◌, ◌>>◌}
use ext.Superblock.{Superblock}
use ext.Descriptors.{
  DescriptorsTable, read_descriptors_table, write_descriptor_table, reserve_descriptor,
  free_descriptor,
}
use ext.Inode.{read_inode}
use ext.Block.{get_max_data_size_of_all_blocks}
use ext.Paths.{split_path}
use ext.Methods.{get_inode_id_of_dir, get_file_inode_id}
use ext.Commands.Opening.{open_fs}

unfoldable pub table_or_exit : Superblock → M DescriptorsTable
table_or_exit superblock = do
  readed ← attempt (read_descriptors_table superblock)
  elim readed [ none ↦ exit | some table ↦ pure table ]

unfoldable pub save_table : DescriptorsTable → Superblock → M (Unit {0})
save_table table superblock = do
  written ← attempt (write_descriptor_table table superblock)
  elim written [ none ↦ exit | some _ ↦ pure tt ]

-- The descriptor that is printed, if one is.
unfoldable pub open_file : Bytes → M (Option ℕ)
unfolding table_or_exit save_table
open_file path = do
  superblock ← open_fs
  parts ← split_path path
  elim parts [
    | none ↦ pure none
    | some (parent_path, filename) ↦ (do
      inode_id ← get_inode_id_of_dir parent_path superblock
      if inode_id == superblock.fs_info.inodes_count then pure none else (do
        readed ← attempt (read_inode inode_id superblock)
        elim readed [
          | none ↦ fault
          | some inode ↦ if inode.inode_info.is_file then pure none else (do
            descriptors_table ← table_or_exit superblock
            file_inode_id ← get_file_inode_id inode filename superblock
            if file_inode_id == superblock.fs_info.inodes_count
                then pure none
                else elim (reserve_descriptor descriptors_table file_inode_id) [
                  | none ↦ pure none
                  | some (new_fd, reserved_table) ↦ (do
                    save_table reserved_table superblock
                    pure (some new_fd))
                ])
        ]))
  ]

-- The result of free_descriptor is not looked at.
unfoldable pub close_file : ℕ → M (Unit {0})
unfolding table_or_exit save_table
close_file fd_to_close = do
  superblock ← open_fs
  descriptors_table ← table_or_exit superblock
  freed ← attempt (free_descriptor descriptors_table fd_to_close)
  save_table (elim freed [ none ↦ descriptors_table | some (fd, freed_table) ↦ freed_table ])
      superblock

unfoldable pub lseek_pos : ℕ → ℕ → M (Unit {0})
unfolding table_or_exit save_table
lseek_pos file_descriptor pos = do
  superblock ← open_fs
  descriptors_table ← table_or_exit superblock
  reserved ← element (get_elem? descriptors_table.reserved_fd file_descriptor)
  if reserved
      then (if not (ltb pos (get_max_data_size_of_all_blocks superblock)) then pure tt else (do
        positions ← assign descriptors_table.fd_to_position file_descriptor pos
        save_table (record descriptors_table { fd_to_position = positions }) superblock))
      else pure tt
