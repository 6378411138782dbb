-- ===== src/Methods/CreateFile.antt =====
-- create_file_helper where nothing fails: the inode and the empty block of the new file.
use ext.Base.{ℕ, ◌≤◌, true, ◌++◌, length-replicate, replicate, arith, ne→==}
use ext.Base.Image.{Bytes}
use ext.Os.{Host, File, IsSteady}
use ext.Os.Ends.{Ends, Ends-pure, Ends-bind, Ends-attempt}
use ext.Utils.Write.{after_write}
use ext.Superblock.{Superblock}
use ext.Superblock.Store.{bytes_of_superblock, write_super_block-Ends}
use ext.Inode.{calculate_offset}
use ext.Inode.Store.{bytes_of_inode, write_inode-Ends}
use ext.Block.{block_offset, bytes_of_block_info, max_size_of_data, init_block}
use ext.Block.Sizes.{max_data}
use ext.Block.Store.{file_block, bytes_of_data, write_block-file_block}
use ext.Methods.{write_new, create_file_helper}
use ext.Methods.Create.{
  taken, fresh_inode, HasRoom, id_bound, b_bound, taken-IsValid, fresh_inode-IsValid,
  new_inode-Ends, reserve_inode_id, reserve_block_b,
}

-- The block of a new file has no data.
abbrev pub empty_contents : Superblock → Bytes
empty_contents s = replicate (max_size_of_data s) 0

-- The file after the block, the inode and the superblock of a new file have been written.
abbrev pub with_file : Superblock → ℕ → ℕ → File → File
with_file s id b f =
    after_write
      (record (after_write
        (record (after_write (record f { pos = block_offset s b })
          (bytes_of_block_info (file_block b id 0 (empty_contents s)).block_info
            ++ bytes_of_data s 0 (empty_contents s))) { pos = calculate_offset s id })
        (bytes_of_inode (fresh_inode s id b true))) { pos = 0 })
      (bytes_of_superblock s)

module _ (s : Superblock) (id b parent : ℕ) (room : HasRoom s id b parent)
    (enough : 7 ≤ s.fs_info.block_size) where
  write_new-Ends :
      {h : Host} (k : IsSteady h) (f : File)
      → Ends h
          (write_new
            (file_block b id 0 (empty_contents (taken s id b)))
            (fresh_inode (taken s id b) id b true)
            (taken s id b)
            id
            b)
          f
          (id, taken s id b)
          (with_file (taken s id b) id b f)
  unfolding write_new
  write_new-Ends k f =
      let r = room.valid.info.block_size in
      let valid = taken-IsValid s id b parent room in
      let m = max_data (taken s id b) valid.info enough in
      let n = length-replicate {A = ℕ} (max_size_of_data (taken s id b)) 0 in
      Ends-bind _ _
        (Ends-attempt (
          write_block-file_block k (taken s id b) b id 0 (empty_contents (taken s id b)) f
            (omega arith)))
        (Ends-bind _ _
          (Ends-attempt (
            write_inode-Ends k (taken s id b) (fresh_inode s id b true) _
              (fresh_inode-IsValid s id b parent room true)))
          (Ends-bind _ _ (Ends-attempt (write_super_block-Ends k (taken s id b) _ valid))
            (Ends-pure _ _)))

  -- What create_file_helper returns and writes under a host that fails no call.
  pub create_file_helper-Ends :
      {h : Host} (k : IsSteady h) (f : File)
      → Ends h (create_file_helper s parent) f (id, taken s id b) (with_file (taken s id b) id b f)
  unfolding create_file_helper init_block
  create_file_helper-Ends k f =
      rw
        (
          reserve_inode_id s id b parent room,
          ne→== id s.fs_info.inodes_count (omega (arith, id_bound s id b parent room)),
          reserve_block_b s id b parent room,
          ne→== b s.fs_info.blocks_count (omega (arith, b_bound s id b parent room)),
        )
        (Ends-bind _ _ (new_inode-Ends (taken s id b) id b true f room.slots) (write_new-Ends k f))
