-- ===== src/Commands/Transfer.antt =====
-- FileSystem/interface/write_to_file.h and read_file.h: the data of a file, block by block.
use ext.Base.{
  ℕ, zero, suc, ◌+◌, ◌-◌, ◌/◌, ◌%◌, ◌^◌, List, [], ◌∷◌, ◌++◌, Option, none, some, get_elem?,
  replicate, length, take, drop, min, ltb, ◌==◌, if◌then◌else◌,
}
use ext.Base.Image.{Bytes, write_at, read_at}
use ext.Os.{M, pure, fail, exit, fault, hang, attempt, element, assign, ◌>>=◌, ◌>>◌}
use ext.Superblock.{Superblock, reserve_block, write_super_block}
use ext.Descriptors.{DescriptorsTable}
use ext.Inode.{Inode, read_inode, write_inode}
use ext.Block.{
  Block, init_block, read_block, write_block, get_max_data_in_block,
  get_max_data_size_of_all_blocks,
}
use ext.Commands.Opening.{open_fs}
use ext.Commands.Descriptor.{table_or_exit, save_table}

-- The index of the block of a position, and the place in it. The cast to uint16_t binds stronger
-- than the division.
unfoldable pub place_of : ℕ → Superblock → M (ℕ × ℕ)
place_of fd_position superblock =
    let max_data = get_max_data_in_block superblock in
    if max_data == 0 then fault else pure (fd_position % 2 ^ 16 / max_data, fd_position % max_data)

unfoldable pub block_or_exit : ℕ → Superblock → M Block
block_or_exit block_id superblock = do
  readed ← attempt (read_block block_id superblock)
  elim readed [ none ↦ exit | some block ↦ pure block ]

unfoldable pub inode_or_exit : ℕ → Superblock → M Inode
inode_or_exit inode_id superblock = do
  readed ← attempt (read_inode inode_id superblock)
  elim readed [ none ↦ exit | some inode ↦ pure inode ]

unfoldable pub save_inode : Inode → Superblock → M (Unit {0})
save_inode inode superblock = do
  written ← attempt (write_inode inode superblock)
  elim written [ none ↦ exit | some _ ↦ pure tt ]

-- The three writes at the end of write_to_file, which are also in both of its error branches.
unfoldable pub save_all : ℕ → ℕ → DescriptorsTable → Inode → Superblock → M (Unit {0})
unfolding save_inode
save_all file_descriptor fd_position descriptors_table inode superblock = do
  positions ← assign descriptors_table.fd_to_position file_descriptor fd_position
  save_table (record descriptors_table { fd_to_position = positions }) superblock
  save_inode inode superblock
  superblock_written ← attempt (write_super_block superblock)
  elim superblock_written [ none ↦ exit | some _ ↦ pure tt ]

abbrev longer_inode : Inode → List ℕ → Inode
longer_inode inode block_ids = record {
  inode_info = record inode.inode_info {
    blocks_count = (inode.inode_info.blocks_count + 1) % 2 ^ 16;
  };
  block_ids = block_ids;
}

-- The new block behind the others, and the inode with it.
unfoldable pub extend : ℕ → ℕ → Inode → Superblock → M (Block × Inode × Superblock)
unfolding save_inode
extend new_block_id inode_id inode superblock = do
  block_ids ← assign inode.block_ids inode.inode_info.blocks_count new_block_id
  let longer = longer_inode inode block_ids
  save_inode longer superblock
  pure (
    record (init_block superblock new_block_id inode_id) {
      contents = replicate superblock.fs_info.block_size 0;
    },
    longer,
    superblock,
  )

-- The block that is written to: a block of the inode, or a new one. `full` is what both error
-- branches do before their `break`.
unfoldable pub block_to_write :
    (Inode → Superblock → M (Block × Inode × Superblock))
    → ℕ
    → ℕ
    → Inode
    → Superblock
    → M (Block × Inode × Superblock)
unfolding extend block_or_exit
block_to_write full block_to_write_pos inode_id inode superblock =
    if ltb block_to_write_pos inode.inode_info.blocks_count
    then (do
      block_id ← element (get_elem? inode.block_ids block_to_write_pos)
      block ← block_or_exit block_id superblock
      pure (block, inode, superblock))
    else let (new_block_id, reserved) = reserve_block superblock in
      if new_block_id == superblock.fs_info.blocks_count
      then full inode reserved
      else if inode.inode_info.blocks_count == superblock.fs_info.blocks_count_in_inode
      then full inode reserved
      else extend new_block_id inode_id inode reserved

-- memcpy into the data of the block, which ends behind what was copied.
unfoldable pub put_data : ℕ → Bytes → Block → M Block
put_data position chunk block =
    if ltb (length block.contents) (position + length chunk)
    then fault
    else pure (record block {
      block_info = record block.block_info {
        data_size = (position % 2 ^ 16 + length chunk) % 2 ^ 16;
      };
      contents = write_at position chunk block.contents;
    })

-- The loop: `rest` is the data from total_written on. The result is the inode, the superblock and
-- fd_position. Behind each `break` the function writes structs that it has released: a fault.
unfoldable pub write_blocks :
    ℕ → ℕ → ℕ → DescriptorsTable → Bytes → ℕ → Inode → Superblock → M (Inode × Superblock × ℕ)
unfolding place_of block_to_write put_data save_all
write_blocks fuel file_descriptor inode_id descriptors_table [] fd_position inode superblock =
    pure (inode, superblock, fd_position)
write_blocks zero file_descriptor inode_id descriptors_table (b ∷ rest) fd_position inode
      superblock =
    hang
write_blocks (suc fuel) file_descriptor inode_id descriptors_table (b ∷ rest) fd_position inode
      superblock =
    do
      place ← place_of fd_position superblock
      target ←
          block_to_write
            (λ final reserved. do
              save_all file_descriptor fd_position descriptors_table final reserved
              fault)
            place.0 inode_id inode superblock
      let size_to_write = min (length (b ∷ rest)) (get_max_data_in_block superblock - place.1)
      block ← put_data place.1 (take size_to_write (b ∷ rest)) target.0
      written ← attempt (write_block block target.2)
      elim written [
        | none ↦ exit
        | some _ ↦
            write_blocks fuel file_descriptor inode_id descriptors_table
              (drop size_to_write (b ∷ rest)) ((fd_position + size_to_write) % 2 ^ 32) target.1
              target.2
      ]

-- `size` is the length of the data. The result is total_written, which C prints at the end, or `none`
-- for a closed descriptor, where it prints nothing.
-- A round writes a byte at least, so the length of the data is enough fuel.
unfoldable pub write_to_file : ℕ → Bytes → M (Option ℕ)
unfolding write_blocks inode_or_exit
write_to_file file_descriptor data_to_write = do
  superblock ← open_fs
  let capped = take (get_max_data_size_of_all_blocks superblock) data_to_write
  descriptors_table ← table_or_exit superblock
  reserved ← element (get_elem? descriptors_table.reserved_fd file_descriptor)
  if reserved
      then (do
        fd_position ← element (get_elem? descriptors_table.fd_to_position file_descriptor)
        inode_id ← element (get_elem? descriptors_table.fd_to_inode file_descriptor)
        inode ← inode_or_exit inode_id superblock
        result ←
            write_blocks (length capped) file_descriptor inode_id descriptors_table capped
              fd_position inode superblock
        save_all file_descriptor result.2 descriptors_table result.0 result.1
        pure (some (length capped)))
      else pure none

-- memcpy out of the data of the block.
unfoldable pub get_data : ℕ → ℕ → Block → M Bytes
get_data position size_to_read block =
    if ltb (length block.contents) (position + size_to_read)
    then fault
    else pure (read_at position size_to_read block.contents)

-- The loop: `need_to_read` is size - total_read. The result is fd_position and what is in dest. The
-- subtraction of uint32_t wraps.
unfoldable pub read_blocks : ℕ → ℕ → ℕ → Bytes → Inode → Superblock → M (ℕ × Bytes)
unfolding place_of get_data block_or_exit
read_blocks fuel zero fd_position dest inode superblock = pure (fd_position, dest)
read_blocks zero (suc need) fd_position dest inode superblock = hang
read_blocks (suc fuel) (suc need) fd_position dest inode superblock = do
  place ← place_of fd_position superblock
  if ltb inode.inode_info.blocks_count place.0 then pure (fd_position, dest) else (do
    block_id ← element (get_elem? inode.block_ids place.0)
    block ← block_or_exit block_id superblock
    let remain_read = (block.block_info.data_size + 2 ^ 32 - place.1) % 2 ^ 32
    let size_to_read = min (suc need) remain_read
    if remain_read == 0 then pure (fd_position, dest) else (do
      chunk ← get_data place.1 size_to_read block
      read_blocks fuel (suc need - size_to_read) ((fd_position + size_to_read) % 2 ^ 32)
          (dest ++ chunk) inode superblock))

-- `dest` has room for `size` bytes; the result is what is put there, and -1 for a closed
-- descriptor. A round reads a byte at least, so the size is enough fuel.
unfoldable pub read_file : ℕ → ℕ → M Bytes
unfolding read_blocks inode_or_exit
read_file file_descriptor size = do
  superblock ← open_fs
  let capped = min size (get_max_data_size_of_all_blocks superblock)
  descriptors_table ← table_or_exit superblock
  reserved ← element (get_elem? descriptors_table.reserved_fd file_descriptor)
  if reserved
      then (do
        fd_position ← element (get_elem? descriptors_table.fd_to_position file_descriptor)
        inode_id ← element (get_elem? descriptors_table.fd_to_inode file_descriptor)
        inode ← inode_or_exit inode_id superblock
        result ← read_blocks capped capped fd_position [] inode superblock
        positions ← assign descriptors_table.fd_to_position file_descriptor result.0
        save_table (record descriptors_table { fd_to_position = positions }) superblock
        pure result.1)
      else fail
