-- ===== src/Commands/OneBlock.antt =====
-- A file of the file system that lies in its first block, and what the writes of write_to_file and
-- read_file leave of it.
use ext.Base.{ℕ, ◌*◌, ◌<◌, ◌≤◌, ◌≡◌, ◌≢◌, ◌++◌, sym, length, length-append, some, get_elem?, arith}
use ext.Base.Image.{Bytes, write_at}
use ext.Base.Holds.{Holds, write_at-Holds}
use ext.Superblock.{Superblock, sizeof_superblock}
use ext.Superblock.Store.{bytes_of_superblock, length-bytes_of_superblock}
use ext.Descriptors.{DescriptorsTable}
use ext.Descriptors.Bounds as Tables
use ext.Descriptors.Store.{bytes_of_table, length-bytes_of_table}
use ext.Inode.{Inode, calculate_offset, sizeof_inode}
use ext.Inode.Store as Inodes
use ext.Inode.Store.{bytes_of_inode, length-bytes_of_inode}
use ext.Block.{block_offset, max_size_of_data, bytes_of_block_info}
use ext.Block.Sizes.{data_fits}
use ext.Block.Store.{file_block, bytes_of_data, length-bytes_of_block_info, InRange}
use ext.Layout.{
  FitsWords, Part, superblock, table, inode, block, IsPart, start, size, write_at-other,
}
use ext.Commands.FreshTable.{table_is_not_inode, table_is_not_block}
use ext.Commands.Keep.{HasTable, with_table, with_table-HasTable}

-- What write_block writes for a block of data.
abbrev pub data_bytes : Superblock → ℕ → ℕ → ℕ → Bytes → Bytes
data_bytes s b id n contents =
    bytes_of_block_info (file_block b id n contents).block_info ++ bytes_of_data s n contents

-- The file has inode `i`, and its first block is `b`, with `n` bytes of data.
pub record HasFile (s : Superblock) (t : DescriptorsTable) (bytes : Bytes) (i : Inode) (b n : ℕ)
    (contents : Bytes) : Type 0 where
  pub has : HasTable s t bytes
  pub valid : Inodes.IsValid s i
  pub known : i.inode_info.id < s.fs_info.inodes_count
  pub inode_there : Holds bytes (calculate_offset s i.inode_info.id) (bytes_of_inode i)
  pub some_block : 0 < i.inode_info.blocks_count
  pub slot : get_elem? i.block_ids 0 ≡ some b
  pub ranges : InRange (file_block b i.inode_info.id n contents).block_info
  pub within : (n ≤ length contents) × (n ≤ max_size_of_data s)
  pub block_there : Holds bytes (block_offset s b) (data_bytes s b i.inode_info.id n contents)
  pub fits : FitsWords s
  pub room : 7 ≤ s.fs_info.block_size

module _ (s : Superblock) (t : DescriptorsTable) (bytes : Bytes) (i : Inode) (b n : ℕ)
    (contents : Bytes) (f : HasFile s t bytes i b n contents) where
  length-inode : length (bytes_of_inode i) ≤ sizeof_inode s
  length-inode = omega (arith, length-bytes_of_inode s i f.valid)

  length-data :
      (m : ℕ) (new : Bytes) → length (data_bytes s b i.inode_info.id m new) ≤ s.fs_info.block_size
  length-data m new =
      let info = (file_block b i.inode_info.id m new).block_info in
      let a = length-append (bytes_of_block_info info) (bytes_of_data s m new) in
      let c = length-bytes_of_block_info info in
      let d = data_fits s m new f.has.valid.info f.room in omega arith

  length-superblock : length (bytes_of_superblock s) ≤ sizeof_superblock s
  length-superblock = omega (arith, length-bytes_of_superblock s f.has.valid)

  length-table :
      (u : DescriptorsTable)
      → Tables.IsValid s u
      → length (bytes_of_table u) ≤ 7 * s.fs_info.descriptors_count
  length-table u v = omega (arith, length-bytes_of_table s u v)

  with_parts :
      (u : DescriptorsTable) (bytes' : Bytes) (m : ℕ) (new : Bytes)
      → HasTable s u bytes'
      → Holds bytes' (calculate_offset s i.inode_info.id) (bytes_of_inode i)
      → InRange (file_block b i.inode_info.id m new).block_info
      → (m ≤ length new) × (m ≤ max_size_of_data s)
      → Holds bytes' (block_offset s b) (data_bytes s b i.inode_info.id m new)
      → HasFile s u bytes' i b m new
  with_parts u bytes' m new has inode_there ranges within block_there = record {
    has = has;
    valid = f.valid;
    known = f.known;
    inode_there = inode_there;
    some_block = f.some_block;
    slot = f.slot;
    ranges = ranges;
    within = within;
    block_there = block_there;
    fits = f.fits;
    room = f.room;
  }

  table_with :
      (bytes' : Bytes)
      → Holds bytes' 0 (bytes_of_superblock s)
      → Holds bytes' (sizeof_superblock s) (bytes_of_table t)
      → HasTable s t bytes'
  table_with bytes' d e = record {
    valid = f.has.valid;
    magic = f.has.magic;
    root = f.has.root;
    superblock_there = d;
    table_valid = f.has.table_valid;
    some_descriptor = f.has.some_descriptor;
    table_there = e;
  }

  -- The superblock and the table are in the file after a write to another part.
  HasTable-other :
      (q : Part) (bs : Bytes)
      → IsPart s q
      → q ≢ superblock
      → q ≢ table
      → length bs ≤ size s q
      → HasTable s t (write_at (start s q) bs bytes)
  HasTable-other q bs a no_s no_t l =
      let m = length-superblock in
      let k = length-table t f.has.table_valid in
      table_with _
        (write_at-other s f.fits superblock q _ _ _ tt a (λ e. no_s (sym e)) m l
          f.has.superblock_there)
        (write_at-other s f.fits table q _ _ _ tt a (λ e. no_t (sym e)) k l f.has.table_there)

  -- Another table is written.
  pub HasFile-table :
      (u : DescriptorsTable) (p : ℕ)
      → Tables.IsValid s u
      → HasFile s u (with_table s u (record { bytes = bytes; pos = p })).bytes i b n contents
  HasFile-table u p v =
      let l = length-table u v in
      with_parts u _ n contents
        (with_table-HasTable s t u (record { bytes = bytes; pos = p }) f.has v)
        (write_at-other s f.fits (inode i.inode_info.id) table _ _ _ f.known tt
          (λ e. table_is_not_inode i.inode_info.id (sym e)) length-inode l f.inode_there)
        f.ranges f.within
        (write_at-other s f.fits (block b) table _ _ _ tt tt (λ e. table_is_not_block b (sym e))
          (length-data n contents) l f.block_there)

  -- Other data are written.
  pub HasFile-data :
      (m : ℕ) (new : Bytes)
      → InRange (file_block b i.inode_info.id m new).block_info
      → (m ≤ length new) × (m ≤ max_size_of_data s)
      → HasFile s t
          (write_at (block_offset s b) (data_bytes s b i.inode_info.id m new) bytes)
          i
          b
          m
          new
  HasFile-data m new r w =
      let l = length-data m new in
      let info = (file_block b i.inode_info.id m new).block_info in
      let a = length-append (bytes_of_block_info info) (bytes_of_data s m new) in
      let c = length-bytes_of_block_info info in
      with_parts t _ m new (HasTable-other (block b) _ tt (λ e. ground arith) (λ e. ground arith) l)
        (write_at-other s f.fits (inode i.inode_info.id) (block b) _ _ _ f.known tt
          (λ e. ground arith) length-inode l f.inode_there)
        r w
        (write_at-Holds bytes (block_offset s b) (data_bytes s b i.inode_info.id m new)
          (omega arith))

  some_inode : 0 < length (bytes_of_inode i)
  unfolding sizeof_inode
  some_inode = omega (arith, length-bytes_of_inode s i f.valid)

  -- The inode is written again.
  pub HasFile-inode :
      HasFile s t
        (write_at (calculate_offset s i.inode_info.id) (bytes_of_inode i) bytes)
        i
        b
        n
        contents
  HasFile-inode =
      with_parts t _ n contents
        (HasTable-other (inode i.inode_info.id) _ f.known (λ e. ground arith) (λ e. ground arith)
          length-inode)
        (write_at-Holds bytes (calculate_offset s i.inode_info.id) (bytes_of_inode i) some_inode)
        f.ranges f.within
        (write_at-other s f.fits (block b) (inode i.inode_info.id) _ _ _ tt f.known
          (λ e. ground arith) (length-data n contents) length-inode f.block_there)

  some_superblock : 0 < length (bytes_of_superblock s)
  unfolding sizeof_superblock
  some_superblock = omega (arith, length-bytes_of_superblock s f.has.valid)

  -- The superblock is written again.
  pub HasFile-superblock : HasFile s t (write_at 0 (bytes_of_superblock s) bytes) i b n contents
  HasFile-superblock =
      let m = length-superblock in
      let k = length-table t f.has.table_valid in
      with_parts t _ n contents
        (table_with _ (write_at-Holds bytes 0 (bytes_of_superblock s) some_superblock) (
          write_at-other s f.fits table superblock _ _ _ tt tt (λ e. ground arith) k m
            f.has.table_there))
        (write_at-other s f.fits (inode i.inode_info.id) superblock _ _ _ f.known tt
          (λ e. ground arith) length-inode m f.inode_there)
        f.ranges f.within
        (write_at-other s f.fits (block b) superblock _ _ _ tt tt (λ e. ground arith)
          (length-data n contents) m f.block_there)
