-- ===== src/Block.antt =====
-- FileSystem/core/block.c: a block of directory records or of file data, and its place in the file.
pub mod Records
pub mod Store
pub mod Sizes
use ext.Base.{
  ℕ, zero, suc, ◌+◌, ◌-◌, ◌*◌, ◌/◌, ◌%◌, ◌^◌, Bool, true, false, List, [], ◌∷◌, ◌++◌, Option, none,
  some, get_or, replicate, length, take, ltb, ◌==◌, if◌then◌else◌, not, ◌&&◌,
}
use ext.Base.Image.{Bytes}
use ext.Base.Words.{byte, u16_at}
use ext.Os.{M, pure, fail, fault, attempt, ◌>>=◌, ◌>>◌, lseek}
use ext.Utils.{read_while, write_while, fill_while}
use ext.Superblock.{Superblock, sizeof_superblock}
use ext.Descriptors.{sizeof_descriptors_table}
use ext.Inode.{sizeof_inodes_block}

-- `path` is the array of max_path_len bytes; the empty list stands for a null pointer.
pub record BlockRecord : Type 0 where
  pub inode_id : ℕ
  pub path : Bytes

pub record BlockInfo : Type 0 where
  pub block_id : ℕ
  pub inode_id : ℕ
  pub records_count : ℕ
  pub data_size : ℕ

-- `none` is the null pointer in `block_records`.
pub record Block : Type 0 where
  pub block_info : BlockInfo
  pub block_records : Option (List BlockRecord)
  pub contents : Bytes

-- sizeof(struct block_info), which is packed
abbrev pub sizeof_block_info : ℕ
sizeof_block_info = 7

-- A size_t: the subtraction wraps.
unfoldable pub max_size_of_data : Superblock → ℕ
max_size_of_data superblock = (superblock.fs_info.block_size + 2 ^ 64 - sizeof_block_info) % 2 ^ 64

unfoldable pub sizeof_block_record : Superblock → ℕ
sizeof_block_record superblock = 2 + superblock.fs_info.max_path_len

unfoldable pub init_block_record : Superblock → ℕ → BlockRecord
init_block_record superblock inode_id = record {
  inode_id = inode_id;
  path = replicate superblock.fs_info.max_path_len 0;
}

unfoldable pub init_block : Superblock → ℕ → ℕ → Block
init_block superblock block_id inode_id = record {
  block_info = record {
    block_id = block_id;
    inode_id = inode_id;
    records_count = 0;
    data_size = 0;
  };
  block_records = none;
  contents = replicate (max_size_of_data superblock) 0;
}

-- calloc leaves zeros in the records.
unfoldable pub init_block_with_records : Superblock → ℕ → ℕ → ℕ → Block
unfolding init_block
init_block_with_records superblock block_id inode_id records_count = record {
  block_info = record {
    block_id = block_id;
    inode_id = inode_id;
    records_count = records_count;
    data_size = 0;
  };
  block_records = some (replicate records_count (record { inode_id = 0; path = [] }));
  contents = (init_block superblock block_id inode_id).contents;
}

unfoldable pub read_block_record : Superblock → M BlockRecord
read_block_record superblock = do
  inode_id_array ← read_while 2
  path ← read_while superblock.fs_info.max_path_len
  pure (record { inode_id = u16_at 0 inode_id_array; path = path })

unfoldable pub write_block_record : BlockRecord → Superblock → M ℕ
write_block_record block_record superblock = do
  id ← write_while (byte 0 block_record.inode_id ∷ byte 1 block_record.inode_id ∷ [])
  path ← write_while (take superblock.fs_info.max_path_len block_record.path)
  pure (id + path)

-- The loop over the records. A record that cannot be read has released its path when
-- destruct_block releases it once more: a fault.
unfoldable pub read_records : ℕ → Superblock → M (List BlockRecord)
read_records zero superblock = pure []
read_records (suc n) superblock = do
  readed ← attempt (read_block_record superblock)
  elim readed [
    | none ↦ fault
    | some block_record ↦ (do rest ← read_records n superblock; pure (block_record ∷ rest))
  ]

-- The loop over the records, with the same double release on an error.
unfoldable pub write_records : ℕ → List BlockRecord → Superblock → M ℕ
write_records zero block_records superblock = pure 0
write_records (suc n) [] superblock = fault
write_records (suc n) (block_record ∷ block_records) superblock = do
  written ← attempt (write_block_record block_record superblock)
  elim written [
    | none ↦ fault
    | some k ↦ (do rest ← write_records n block_records superblock; pure (k + rest))
  ]

-- The memory of a struct block_info.
unfoldable pub bytes_of_block_info : BlockInfo → Bytes
bytes_of_block_info i =
    byte 0 i.block_id
    ∷ byte 1 i.block_id
    ∷ byte 0 i.inode_id
    ∷ byte 1 i.inode_id
    ∷ byte 0 i.records_count
    ∷ byte 0 i.data_size
    ∷ byte 1 i.data_size
    ∷ []

unfoldable pub block_info_of_bytes : Bytes → BlockInfo
block_info_of_bytes bs = record {
  block_id = u16_at 0 bs;
  inode_id = u16_at 2 bs;
  records_count = get_or bs 4 0;
  data_size = u16_at 5 bs;
}

unfoldable pub block_offset : Superblock → ℕ → ℕ
block_offset superblock block_id =
    sizeof_superblock superblock
    + sizeof_descriptors_table superblock
    + sizeof_inodes_block superblock
    + block_id * superblock.fs_info.block_size

-- What read_block does behind the struct block_info. A block with data and records is released
-- while its array of records is a null pointer: a fault. The bytes of the data go into an array of
-- max_size_of_data zeros, and an error of that read is ignored.
unfoldable pub read_contents : BlockInfo → Superblock → M Block
read_contents info superblock =
    let zeros = replicate (max_size_of_data superblock) 0 in
    if not (info.records_count == 0) && not (info.data_size == 0)
    then fault
    else if not (info.records_count == 0)
    then (do
      block_records ← read_records info.records_count superblock
      pure (record { block_info = info; block_records = some block_records; contents = zeros }))
    else if not (info.data_size == 0)
    then (if ltb (max_size_of_data superblock) info.data_size then fault else (do
      readed ← fill_while info.data_size
      pure (record {
        block_info = info;
        block_records = none;
        contents = readed ++ replicate (max_size_of_data superblock - length readed) 0;
      })))
    else pure (record { block_info = info; block_records = none; contents = zeros })

-- The number of bytes that C returns is compared with -1 only, and is left out.
unfoldable pub read_block : ℕ → Superblock → M Block
unfolding read_contents
read_block block_id superblock = do
  lseek (block_offset superblock block_id)
  info ← read_while sizeof_block_info
  read_contents (block_info_of_bytes info) superblock

-- What write_block does behind the struct block_info.
unfoldable pub write_contents : Block → Superblock → ℕ → M ℕ
write_contents block superblock total_written =
    if not (block.block_info.records_count == 0) && not (block.block_info.data_size == 0)
    then fail
    else elim block.block_records [
      | some block_records ↦ (do
        written ← write_records block.block_info.records_count block_records superblock
        pure (total_written + written))
      | none ↦
          if not (block.block_info.data_size == 0)
          then (do
            written ← write_while (take (max_size_of_data superblock) block.contents)
            pure (total_written + written))
          else pure total_written
    ]

unfoldable pub write_block : Block → Superblock → M ℕ
unfolding write_contents
write_block block superblock = do
  lseek (block_offset superblock block.block_info.block_id)
  total_written ← write_while (bytes_of_block_info block.block_info)
  write_contents block superblock total_written

-- The cast to uint8_t is applied to the difference.
unfoldable pub get_max_records_count : Superblock → ℕ
unfolding sizeof_block_record
get_max_records_count superblock =
    (superblock.fs_info.block_size + 2 ^ 64 - sizeof_block_info)
    % 2 ^ 64
    % 2 ^ 8
    / sizeof_block_record superblock

unfoldable pub get_max_data_in_block : Superblock → ℕ
get_max_data_in_block superblock =
    (superblock.fs_info.block_size + 2 ^ 64 - sizeof_block_info) % 2 ^ 64 % 2 ^ 32

unfoldable pub get_max_data_size_of_all_blocks : Superblock → ℕ
unfolding get_max_data_in_block
get_max_data_size_of_all_blocks superblock =
    get_max_data_in_block superblock * superblock.fs_info.blocks_count_in_inode % 2 ^ 32

unfoldable pub get_remain_data : Block → Superblock → ℕ
unfolding get_max_data_in_block
get_remain_data block superblock =
    if ltb 0 block.block_info.records_count
    then 0
    else (get_max_data_in_block superblock + 2 ^ 32 - block.block_info.data_size) % 2 ^ 32
