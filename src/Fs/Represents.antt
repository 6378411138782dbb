-- ===== src/Fs/Represents.antt =====
-- What it means that the bytes of a file represent a file system.
use ext.Base.{
  ℕ, ◌+◌, ◌*◌, ◌<◌, ◌≤◌, ◌≡◌, refl, true, ◌∷◌, ◌++◌, some, length, get_elem?, length-replicate,
  length-set, replicate, arith, All, get_elem?-set_self, get_elem?-lt,
}
use ext.Base.Holds.{Holds}
use ext.Base.Image.{Bytes}
use ext.Base.Words.{IsU16}
use ext.Superblock.{Superblock, root_inode_id}
use ext.Superblock.Bounds as Blocks
use ext.Descriptors.Bounds.{All-set, All-replicate}
use ext.Descriptors.Open.{IsConsistent}
use ext.Inode.{Inode, calculate_offset}
use ext.Inode.Store as Inodes
use ext.Inode.Store.{bytes_of_inode}
use ext.Block.{block_offset, sizeof_block_record, max_size_of_data, bytes_of_block_info}
use ext.Block.Records.{IsRecord, bytes_of_records}
use ext.Block.Store.{directory, file_block, InRange}
use ext.Layout.{FitsWords}
use ext.Methods.Create.{fresh_inode}
use ext.Methods.Names.{Entries, records, Fits}
use ext.Methods.Walk.{IsDirectory}
use ext.Commands.Keep.{HasTable}
use ext.Commands.OneBlock.{data_bytes}
use ext.Fs.{Node, folder, regular, block_of, is_regular, Fs, Closed, arrived}

abbrev pub inode_of : Superblock → ℕ → Node → Inode
inode_of s i nd = fresh_inode s i (block_of nd) (is_regular nd)

-- The bytes of the block of a node.
abbrev pub bytes_of_node : Superblock → ℕ → Node → Bytes
bytes_of_node s i (folder b first others) =
    bytes_of_block_info (directory s b i (records s (first ∷ others))).block_info
    ++ bytes_of_records (records s (first ∷ others))
bytes_of_node s i (regular b n contents) = data_bytes s b i n contents

-- The node fits its block and the C types.
pub data Formed (s : Superblock) (i : ℕ) : Node → Type 0 where
  folder_formed :
      {b : ℕ} {first : ℕ × Bytes} {others : Entries}
      → InRange (directory s b i (records s (first ∷ others))).block_info
      → All (IsRecord s) (records s (first ∷ others))
      → All (λ e. Fits s e.1) (first ∷ others)
      → 7 + length (first ∷ others) * sizeof_block_record s ≤ s.fs_info.block_size
      → Formed s i (folder b first others)
  regular_formed :
      {b n : ℕ} {contents : Bytes}
      → InRange (file_block b i n contents).block_info
      → n ≤ length contents
      → n ≤ max_size_of_data s
      → Formed s i (regular b n contents)

pub record IsNode (s : Superblock) (bytes : Bytes) (i : ℕ) (nd : Node) : Type 0 where
  pub inode_used : get_elem? s.reserved_inodes_mask i ≡ some true
  pub block_used : get_elem? s.reserved_blocks_mask (block_of nd) ≡ some true
  pub formed : Formed s i nd
  pub inode_there : Holds bytes (calculate_offset s i) (bytes_of_inode (inode_of s i nd))
  pub block_there : Holds bytes (block_offset s (block_of nd)) (bytes_of_node s i nd)

-- The sizes do not wrap, and a new directory fits its block.
pub record Sizes (s : Superblock) : Type 0 where
  pub fits : FitsWords s
  pub slots : 0 < s.fs_info.blocks_count_in_inode
  pub names : 2 < s.fs_info.max_path_len
  pub enough : 7 + 2 * (2 + s.fs_info.max_path_len) ≤ s.fs_info.block_size

-- The superblock and the table are those of the file; every node is there, in a block of its own;
-- an entry of a directory is a node, and the root is a directory.
pub record Represents (fs : Fs) (bytes : Bytes) : Type 0 where
  pub sizes : Sizes fs.super
  pub has : HasTable fs.super fs.table bytes
  pub consistent : IsConsistent fs.table
  pub sound : (i : ℕ) (nd : Node) → fs.nodes i ≡ some nd → IsNode fs.super bytes i nd
  pub alone :
      (i j : ℕ) (nd md : Node)
      → fs.nodes i ≡ some nd
      → fs.nodes j ≡ some md
      → block_of nd ≡ block_of md
      → i ≡ j
  pub closed : Closed fs.nodes
  pub root : arrived (fs.nodes root_inode_id) root_inode_id ≡ some root_inode_id

module _ (s : Superblock) (bytes : Bytes) (i : ℕ) (nd : Node) (sizes : Sizes s)
    (valid : Blocks.IsValid s) (there : IsNode s bytes i nd) where
  pub known : i < s.fs_info.inodes_count
  known =
      let l = get_elem?-lt s.reserved_inodes_mask i true there.inode_used in
      let v = valid.inodes in omega arith

  pub inode_of-IsValid : Inodes.IsValid s (inode_of s i nd)
  inode_of-IsValid =
      let n = s.fs_info.blocks_count_in_inode in
      let zeros = replicate {A = ℕ} n 0 in
      let l = known in
      let m = get_elem?-lt s.reserved_blocks_mask (block_of nd) true there.block_used in
      let v = valid.blocks in
      let r1 = valid.info.inodes_count in
      let r2 = valid.info.blocks_count in
      let z = sizes.slots in
      let size = length-replicate {A = ℕ} n 0 in
      let set_size = length-set zeros 0 (block_of nd) in
      record {
        id = omega arith;
        blocks_count = omega arith;
        slots = omega arith;
        small = valid.info.blocks_count_in_inode;
        ids =
            All-set IsU16 zeros 0 (block_of nd) (All-replicate IsU16 n 0 (omega arith))
              (omega arith);
      }

  pub slot : get_elem? (inode_of s i nd).block_ids 0 ≡ some (block_of nd)
  slot =
      let n = s.fs_info.blocks_count_in_inode in
      let size = length-replicate {A = ℕ} n 0 in
      get_elem?-set_self (replicate n 0) 0 (block_of nd) (omega (arith, sizes.slots))

module _ (s : Superblock) (i b : ℕ) (first : ℕ × Bytes) (others : Entries) where
  pub Formed-InRange :
      Formed s i (folder b first others)
      → InRange (directory s b i (records s (first ∷ others))).block_info
  Formed-InRange (folder_formed ranges rs names fit) = ranges

  pub Formed-IsRecord :
      Formed s i (folder b first others) → All (IsRecord s) (records s (first ∷ others))
  Formed-IsRecord (folder_formed ranges rs names fit) = rs

  pub Formed-Fits : Formed s i (folder b first others) → All (λ e. Fits s e.1) (first ∷ others)
  Formed-Fits (folder_formed ranges rs names fit) = names

  -- The directory of a node.
  unfoldable pub folder_there :
      (bytes : Bytes)
      → Sizes s
      → Blocks.IsValid s
      → IsNode s bytes i (folder b first others)
      → IsDirectory s bytes i first others
  folder_there bytes sizes valid there = record {
    inode = inode_of s i (folder b first others);
    valid = inode_of-IsValid s bytes i (folder b first others) sizes valid there;
    kind = refl;
    inode_there = there.inode_there;
    block_id = b;
    slot = slot s bytes i (folder b first others) sizes valid there;
    ranges = Formed-InRange there.formed;
    block_there = there.block_there;
    entry_ranges = Formed-IsRecord there.formed;
    entry_names = Formed-Fits there.formed;
  }
