-- ===== src/Block/Sizes.antt =====
-- The capacity of a block: what fits into it does not reach the next block, and no size wraps.
use ext.Base.{
  ℕ, ◌+◌, ◌-◌, ◌*◌, ◌/◌, ◌%◌, ◌^◌, ◌≤◌, ◌<◌, ◌≡◌, List, length, length-take, arith, All, ◌==◌,
  if◌then◌else◌,
}
use ext.Base.Image.{Bytes}
use ext.Superblock.{Superblock}
use ext.Superblock.Bounds.{InRange}
use ext.Block.{
  BlockRecord, Block, max_size_of_data, get_max_records_count, get_max_data_in_block,
  get_remain_data, sizeof_block_record,
}
use ext.Block.Records.{IsRecord, bytes_of_records, length-bytes_of_records}
use ext.Block.Store.{bytes_of_data}

-- With room for the struct block_info, the sizes are those of the block without it.
pub max_data :
    (s : Superblock)
    → InRange s.fs_info
    → 7 ≤ s.fs_info.block_size
    → (7 + max_size_of_data s ≡ s.fs_info.block_size)
      × (7 + get_max_data_in_block s ≡ s.fs_info.block_size)
unfolding max_size_of_data get_max_data_in_block
max_data s r h = (omega (arith, r.block_size), omega (arith, r.block_size))

div-mul-le : (n d : ℕ) → n / d * d ≤ n
div-mul-le n d = grind arith

mul_mono : (n m d : ℕ) → n ≤ m → n * d ≤ m * d
mul_mono n m d h = grind arith

-- A directory block with at most get_max_records_count records ends inside the block, if the block
-- has room for the struct block_info.
pub max_records_fit :
    (s : Superblock) (rs : List BlockRecord)
    → InRange s.fs_info
    → 7 ≤ s.fs_info.block_size
    → All (IsRecord s) rs
    → length rs ≤ get_max_records_count s
    → 7 + length (bytes_of_records rs) ≤ s.fs_info.block_size
unfolding get_max_records_count
max_records_fit s rs r h v l =
    let room = (s.fs_info.block_size + 2 ^ 64 - 7) % 2 ^ 64 % 2 ^ 8 in
    let size = length-bytes_of_records s rs v in
    let most = mul_mono (length rs) (room / sizeof_block_record s) (sizeof_block_record s) l in
    let all = div-mul-le room (sizeof_block_record s) in let b = r.block_size in omega arith

-- The data that write_block puts behind the struct block_info end inside the block, if the block
-- has room for that struct.
pub data_fits :
    (s : Superblock) (size : ℕ) (contents : Bytes)
    → InRange s.fs_info
    → 7 ≤ s.fs_info.block_size
    → 7 + length (bytes_of_data s size contents) ≤ s.fs_info.block_size
unfolding bytes_of_data
data_fits s size contents r h =
    ground (arith, length-take (max_size_of_data s) contents, max_data s r h)

-- get_remain_data is what is left of a block of data; for a block of records it is 0.
pub get_remain_data_lem :
    (s : Superblock) (b : Block)
    → b.block_info.data_size ≤ get_max_data_in_block s
    → get_max_data_in_block s < 2 ^ 32
    → get_remain_data b s ≡ (
        if b.block_info.records_count == 0
        then get_max_data_in_block s - b.block_info.data_size
        else 0)
unfolding get_remain_data
get_remain_data_lem s b l m = ground arith
