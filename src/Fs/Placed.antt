-- ===== src/Fs/Placed.antt =====
-- The file when create_dir or create_file adds the entry to the parent: the new directory or file is
-- there, and the parent is as it was.
use ext.Base.{ℕ, ◌≡◌, Bool, ◌∷◌, ◌++◌, some, arith}
use ext.Base.Holds.{Holds}
use ext.Base.Image.{Bytes}
use ext.Os.{File}
use ext.Superblock.{Superblock, first_free}
use ext.Superblock.Bounds as Blocks
use ext.Block.{bytes_of_block_info, block_offset}
use ext.Block.Records.{bytes_of_records}
use ext.Block.Store.{directory}
use ext.Layout.{block}
use ext.Methods.Create.{taken, HasRoom, taken-IsValid}
use ext.Methods.Names.{Entries, records}
use ext.Methods.Walk.{IsDirectory}
use ext.Fs.{Node, folder, Fs}
use ext.Fs.Grown.{old_inode, old_block}
use ext.Fs.Kept.{length-bytes_of_node}
use ext.Fs.Reach.{folder_at}
use ext.Fs.Represents.{IsNode, Represents, folder_there, known}
use ext.Fs.Taken.{Sizes-taken, IsNode-taken}
use ext.Fs.Writes.{three, Kept-three}

module _ (fs : Fs) (f : File) (r : Represents fs f.bytes) (is_file : Bool) (id b parent pb : ℕ)
    (first : ℕ × Bytes) (others : Entries) (name : Bytes)
    (e : fs.nodes parent ≡ some (folder pb first others))
    (fi : first_free fs.super.reserved_inodes_mask ≡ some id)
    (fb : first_free fs.super.reserved_blocks_mask ≡ some b) where
  abbrev after : Superblock
  after = taken fs.super id b

  abbrev pub there : IsDirectory fs.super f.bytes parent first others
  there = folder_at fs f.bytes r parent pb first others e

  pub room : HasRoom fs.super id b parent
  room =
      let l = known fs.super f.bytes parent _ r.sizes r.has.valid (r.sound parent _ e) in
      let m = r.has.valid.info.inodes_count in
      let n = r.sizes.names in
      record {
        valid = r.has.valid;
        inode = fi;
        block = fb;
        names = omega arith;
        slots = r.sizes.slots;
        parent_range = omega arith;
      }

  -- The file before the parent is written.
  abbrev pub before_link : File
  before_link = three fs.super id b parent room r.sizes is_file f

  pub valid : Blocks.IsValid after
  valid = taken-IsValid fs.super id b parent room

  pub old-IsNode : (j : ℕ) (md : Node) → fs.nodes j ≡ some md → IsNode after f.bytes j md
  old-IsNode j md d =
      IsNode-taken fs.super id b f.bytes j md
        (old_inode fs f.bytes r is_file id b parent pb first others name e fi fb j md d)
        (old_block fs f.bytes r is_file id b parent pb first others name e fi fb j md d)
        (r.sound j md d)

  -- The block of the parent when its entry is added.
  pub parent_before : Holds before_link.bytes (block_offset after there.block_id) (
      bytes_of_block_info
        (directory fs.super there.block_id parent (records fs.super (first ∷ others))).block_info
      ++ bytes_of_records (records fs.super (first ∷ others)))
  unfolding folder_there
  parent_before =
      let old = old-IsNode parent _ e in
      let z = Sizes-taken fs.super id b r.sizes in
      let no_block =
        old_block fs f.bytes r is_file id b parent pb first others name e fi fb parent _ e in
      (Kept-three fs.super id b parent room r.sizes is_file f).keep (block pb) _ tt
        ((λ q. no_block (ground arith)), ((λ q. ground arith), ((λ q. ground arith), tt)))
        (length-bytes_of_node after z valid parent _ old.formed) old.block_there
