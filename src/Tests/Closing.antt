-- ===== src/Tests/Closing.antt =====
-- close_file and lseek_pos on a fresh file system with inode 5 opened, and the table of a fresh one.
use ext.Base.{◌*◌, ◌<◌, ◌≤◌, arith, length, true}
use ext.Os.{File}
use ext.Os.Ends.{Ends}
use ext.Superblock.{init_super_block}
use ext.Descriptors.{release}
use ext.Descriptors.Bounds.{occupy-IsValid}
use ext.Descriptors.Open.{IsConsistent}
use ext.Descriptors.Store.{bytes_of_table, length-bytes_of_table}
use ext.Block.{get_max_data_size_of_all_blocks}
use ext.Commands.Descriptor.{close_file, lseek_pos}
use ext.Commands.Fresh.{fresh_superblock, fresh_file}
use ext.Commands.FreshTable.{fresh_file-HasTable, fresh_table_fits}
use ext.Commands.Keep.{
  HasTable, with_table, with_table-HasTable, moved, close_file_lem, lseek_pos_lem,
}
use ext.Tests.Hosts.{steady, steady-IsSteady}
use ext.Tests.Tables.{empty_table, opened_table, opened_ok}

abbrev pub opened_file : File
opened_file = with_table fresh_superblock opened_table fresh_file

pub opened_file-HasTable : HasTable fresh_superblock opened_table opened_file.bytes
opened_file-HasTable =
    with_table-HasTable fresh_superblock empty_table opened_table fresh_file fresh_file-HasTable
      (occupy-IsValid fresh_superblock empty_table 0 5 fresh_table_fits (omega arith))

close_file_lem_example :
    Ends steady
      (close_file 0)
      opened_file
      tt
      (with_table fresh_superblock (release opened_table 0) opened_file)
    × HasTable fresh_superblock
        (release opened_table 0)
        (with_table fresh_superblock (release opened_table 0) opened_file).bytes
    × IsConsistent (release opened_table 0)
close_file_lem_example =
    close_file_lem steady-IsSteady fresh_superblock opened_table 0 true opened_file
      opened_file-HasTable opened_ok.1 opened_ok.4.0

ten_is_small : 10 < get_max_data_size_of_all_blocks fresh_superblock
unfolding init_super_block get_max_data_size_of_all_blocks
ten_is_small = omega arith

lseek_pos_lem_example :
    Ends steady
      (lseek_pos 0 10)
      opened_file
      tt
      (with_table fresh_superblock (moved opened_table 0 10) opened_file)
    × HasTable fresh_superblock
        (moved opened_table 0 10)
        (with_table fresh_superblock (moved opened_table 0 10) opened_file).bytes
    × IsConsistent (moved opened_table 0 10)
lseek_pos_lem_example =
    lseek_pos_lem steady-IsSteady fresh_superblock opened_table 0 10 0 opened_file
      opened_file-HasTable opened_ok.1 opened_ok.4.0 opened_ok.5 ten_is_small

table_size : length (bytes_of_table empty_table) ≤ 7 * fresh_superblock.fs_info.descriptors_count
table_size =
    let m = length-bytes_of_table fresh_superblock empty_table fresh_table_fits in omega arith
