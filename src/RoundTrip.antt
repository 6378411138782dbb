-- ===== src/RoundTrip.antt =====
-- What a structure that was written looks like when it is read back, by the functions of
-- superblock.c, descriptors_table.c, inode.c and block.c.
use ext.Base.{ℕ, ◌+◌, ◌*◌, ◌≤◌, ◌<◌, ◌^◌, List, ◌∷◌, ◌++◌, length, length-append, arith, All}
use ext.Base.Holds.{write_at-Holds}
use ext.Base.Image.{Bytes, write_at}
use ext.Base.Words.{IsU16}
use ext.Os.{Host, File, ◌>>◌, IsSteady}
use ext.Os.Ends.{Ends, Ends-bind}
use ext.Superblock
use ext.Superblock.{Superblock, sizeof_superblock, read_super_block, write_super_block}
use ext.Superblock.Bounds
use ext.Superblock.Store.{
  bytes_of_superblock, length-bytes_of_superblock, write_super_block-Ends, read_super_block-Ends,
}
use ext.Descriptors.{DescriptorsTable, read_descriptors_table, write_descriptor_table}
use ext.Descriptors.Bounds as Table
use ext.Descriptors.Store.{
  bytes_of_table, length-bytes_of_table, write_descriptor_table-Ends, read_descriptors_table-Ends,
}
use ext.Inode.{Inode, read_inode, write_inode, calculate_offset, sizeof_inode}
use ext.Inode.Store
use ext.Inode.Store.{bytes_of_inode, length-bytes_of_inode, write_inode-Ends, read_inode-Ends}
use ext.Block.{
  BlockRecord, read_block, write_block, block_offset, sizeof_block_record, bytes_of_block_info,
  max_size_of_data,
}
use ext.Block.Records.{IsRecord, bytes_of_records}
use ext.Block.Store.{
  directory, file_block, InRange, reloaded, bytes_of_data, write_block-directory,
  read_block-directory, write_block-file_block, read_block-file_block, length-bytes_of_block_info,
}

module _ {h : Host} (k : IsSteady h) where
  -- Under a host that fails no call, read_super_block after write_super_block returns the
  -- superblock that was written, if it is valid, whatever the file held; the file has its bytes
  -- from offset 0 on.
  pub read_super_block-write_super_block :
      (s : Superblock) (f : File)
      → Superblock.Bounds.IsValid s
      → Ends h
          (do write_super_block s; read_super_block)
          f
          s
          (record { bytes = write_at 0 (bytes_of_superblock s) f.bytes; pos = sizeof_superblock s })
  unfolding sizeof_superblock
  read_super_block-write_super_block s f v =
      let size = length-bytes_of_superblock s v in
      Ends-bind _ _ (write_super_block-Ends k s f v) (
        read_super_block-Ends k s _ v
          (write_at-Holds f.bytes 0 (bytes_of_superblock s) (omega arith)))

  -- Under a host that fails no call, read_descriptors_table after write_descriptor_table returns
  -- the table that was written, if it is valid and the superblock has room for a descriptor; the
  -- file has its bytes behind the superblock.
  pub read_descriptors_table-write_descriptor_table :
      (s : Superblock) (table : DescriptorsTable) (f : File)
      → Table.IsValid s table
      → IsU16 s.fs_info.descriptors_count
      → 0 < s.fs_info.descriptors_count
      → Ends h
          (do write_descriptor_table table s; read_descriptors_table s)
          f
          table
          (record {
            bytes = write_at (sizeof_superblock s) (bytes_of_table table) f.bytes;
            pos = sizeof_superblock s + 7 * s.fs_info.descriptors_count;
          })
  read_descriptors_table-write_descriptor_table s table f v r p =
      let size = length-bytes_of_table s table v in
      Ends-bind _ _ (write_descriptor_table-Ends k s table f v r) (
        read_descriptors_table-Ends k s table _ v r
          (write_at-Holds f.bytes (sizeof_superblock s) (bytes_of_table table) (omega arith)))

  -- Under a host that fails no call, read_inode after write_inode returns the inode that was
  -- written, if it is valid; the file has its bytes at the offset of its id.
  pub read_inode-write_inode :
      (s : Superblock) (inode : Inode) (f : File)
      → Store.IsValid s inode
      → Ends h
          (do write_inode inode s; read_inode inode.inode_info.id s)
          f
          inode
          (record {
            bytes =
                write_at (calculate_offset s inode.inode_info.id) (bytes_of_inode inode) f.bytes;
            pos = calculate_offset s inode.inode_info.id + sizeof_inode s;
          })
  unfolding sizeof_inode
  read_inode-write_inode s inode f v =
      let size = length-bytes_of_inode s inode v in
      Ends-bind _ _ (write_inode-Ends k s inode f v) (
        read_inode-Ends k s inode inode.inode_info.id _ v (
          write_at-Holds f.bytes (calculate_offset s inode.inode_info.id) (bytes_of_inode inode)
            (omega arith)))

  -- Under a host that fails no call, read_block after write_block returns the directory block that
  -- was written, if it has a record, each record has a path of max_path_len bytes, and the fields
  -- fit their C types.
  pub read_block-write_block-directory :
      (s : Superblock) (block_id inode_id : ℕ) (r : BlockRecord) (rs : List BlockRecord) (f : File)
      → IsU16 s.fs_info.max_path_len
      → All (IsRecord s) (r ∷ rs)
      → InRange (directory s block_id inode_id (r ∷ rs)).block_info
      → let b = directory s block_id inode_id (r ∷ rs) in
        Ends h
          (do write_block b s; read_block block_id s)
          f
          b
          (record {
            bytes =
                write_at
                  (block_offset s block_id)
                  (bytes_of_block_info b.block_info ++ bytes_of_records (r ∷ rs))
                  f.bytes;
            pos = block_offset s block_id + (7 + length (r ∷ rs) * sizeof_block_record s);
          })
  read_block-write_block-directory s block_id inode_id r rs f m v i =
      let b = directory s block_id inode_id (r ∷ rs) in
      let size = length-bytes_of_block_info b.block_info in
      let all = length-append (bytes_of_block_info b.block_info) (bytes_of_records (r ∷ rs)) in
      Ends-bind _ _ (write_block-directory k s block_id inode_id r rs f m v) (
        read_block-directory k s block_id inode_id r rs _ m v i
          (write_at-Holds f.bytes (block_offset s block_id) _ (omega arith)))

  -- Under a host that fails no call, read_block after write_block returns the block of data that
  -- was written, with zeros for the bytes of its array from data_size on, if data_size is not
  -- beyond the array, which has at most 2^17 bytes, or beyond max_size_of_data, and the fields fit
  -- their C types.
  pub read_block-write_block-file_block :
      (s : Superblock) (block_id inode_id size : ℕ) (contents : Bytes) (f : File)
      → size ≤ length contents
      → size ≤ max_size_of_data s
      → length contents ≤ 2 ^ 17
      → InRange (file_block block_id inode_id size contents).block_info
      → let b = file_block block_id inode_id size contents in
        Ends h
          (do write_block b s; read_block block_id s)
          f
          (file_block block_id inode_id size (reloaded s size contents))
          (record {
            bytes =
                write_at
                  (block_offset s block_id)
                  (bytes_of_block_info b.block_info ++ bytes_of_data s size contents)
                  f.bytes;
            pos = block_offset s block_id + (7 + size);
          })
  read_block-write_block-file_block s block_id inode_id size contents f l m n i =
      let b = file_block block_id inode_id size contents in
      let info = length-bytes_of_block_info b.block_info in
      let all = length-append (bytes_of_block_info b.block_info) (bytes_of_data s size contents) in
      Ends-bind _ _ (write_block-file_block k s block_id inode_id size contents f n) (
        read_block-file_block k s block_id inode_id size contents _ l m i
          (write_at-Holds f.bytes (block_offset s block_id) _ (omega arith)))
