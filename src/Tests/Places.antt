-- ===== src/Tests/Places.antt =====
-- The division of the file and the capacity of a block, for the superblock of init_super_block.
use ext.Base.{◌+◌, ◌^◌, ◌≤◌, ◌≢◌, refl, arith, List, [], ◌∷◌, length, replicate, All}
use ext.Base.Image.{Bytes, write_at}
use ext.Superblock.{init_super_block, sizeof_superblock}
use ext.Superblock.Bounds.{default_info-InRange}
use ext.Block.{BlockRecord}
use ext.Block.Records.{IsRecord, bytes_of_records}
use ext.Block.Sizes.{max_records_fit}
use ext.Layout.{table, block, start, size}

table_is_not_block : table ≢ block 7
table_is_not_block e = ground arith

abbrev small_file : Bytes
small_file = write_at (start init_super_block table) (1 ∷ 2 ∷ []) []

short_enough :
    (2 ≤ size init_super_block table)
    × (3 ≤ size init_super_block (block 7))
    × (start init_super_block table ≤ 2 ^ 18)
unfolding init_super_block sizeof_superblock
short_enough = (omega arith, omega arith, omega arith)

-- Two records of a directory.
abbrev pub two_records : List BlockRecord
two_records =
    record { inode_id = 0; path = b'.' ∷ replicate 15 0 }
    ∷ record { inode_id = 0; path = b'.' ∷ b'.' ∷ replicate 14 0 }
    ∷ []

pub two_records-All : All (IsRecord init_super_block) two_records
unfolding init_super_block
two_records-All = (
  record { inode_id = omega arith; path = refl },
  (record { inode_id = omega arith; path = refl }, tt),
)

max_records_fit_example :
    7 + length (bytes_of_records two_records) ≤ init_super_block.fs_info.block_size
unfolding init_super_block ext.Block.get_max_records_count ext.Block.sizeof_block_record
max_records_fit_example =
    max_records_fit init_super_block two_records default_info-InRange (omega arith) two_records-All
      (omega arith)
