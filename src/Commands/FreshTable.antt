-- ===== src/Commands/FreshTable.antt =====
-- After init_fs the file has the superblock and the empty table.
use ext.Base.{ℕ, ◌<◌, ◌≢◌, arith}
use ext.Base.Holds.{Holds, write_at-Holds}
use ext.Superblock.{init_super_block, sizeof_superblock}
use ext.Descriptors.{init_descriptors_table}
use ext.Descriptors.Bounds.{IsValid, init_descriptors_table-IsValid}
use ext.Descriptors.Store.{bytes_of_table, length-bytes_of_table}
use ext.Layout.{superblock, table, inode, block}
use ext.Methods.Made.{made_keeps}
use ext.Commands.Fresh.{
  fresh_superblock, fresh_file, fresh_superblock-IsValid, root_reserved, fresh_file-Holds,
  init_super_block-HasRoom, fresh_superblock-FitsWords, fresh_sizes, two_written,
}
use ext.Commands.Keep.{HasTable}

pub table_is_not_superblock : table ≢ superblock
table_is_not_superblock e = ground arith

pub table_is_not_inode : (i : ℕ) → table ≢ inode i
table_is_not_inode i e = ground arith

pub table_is_not_block : (b : ℕ) → table ≢ block b
table_is_not_block b e = ground arith

pub fresh_table_fits : IsValid fresh_superblock (init_descriptors_table init_super_block)
fresh_table_fits =
    let v = init_descriptors_table-IsValid init_super_block in
    record {
      reserved = v.reserved;
      inodes = v.inodes;
      positions = v.positions;
      inode_range = v.inode_range;
      position_range = v.position_range;
    }

some_descriptors : 0 < fresh_superblock.fs_info.descriptors_count
unfolding init_super_block
some_descriptors = omega arith

pub first_table_there :
    Holds two_written.bytes
      (sizeof_superblock fresh_superblock)
      (bytes_of_table (init_descriptors_table init_super_block))
unfolding sizeof_superblock
first_table_there =
    let m = length-bytes_of_table fresh_superblock _ fresh_table_fits in
    let l = some_descriptors in
    write_at-Holds _ (sizeof_superblock init_super_block) _ (omega arith)

pub fresh_file-HasTable :
    HasTable fresh_superblock (init_descriptors_table init_super_block) fresh_file.bytes
fresh_file-HasTable =
    let m = length-bytes_of_table fresh_superblock _ fresh_table_fits in
    let l = some_descriptors in
    record {
      valid = fresh_superblock-IsValid;
      magic = root_reserved.0;
      root = root_reserved.1;
      superblock_there = fresh_file-Holds;
      table_valid = fresh_table_fits;
      some_descriptor = l;
      table_there =
          made_keeps init_super_block 0 0 0 init_super_block-HasRoom fresh_superblock-FitsWords
            fresh_sizes.0 fresh_sizes.1 two_written table _ tt table_is_not_superblock
            (table_is_not_inode 0) (table_is_not_block 0) (omega arith) first_table_there;
    }
