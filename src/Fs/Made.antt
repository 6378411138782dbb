-- ===== src/Fs/Made.antt =====
-- The file after create_dir or create_file: its four writes, and what they leave.
use ext.Base.{ℕ, ◌+◌, ◌*◌, ◌<◌, ◌≤◌, ◌≡◌, sym, subst, Bool, [], ◌∷◌, some, length, arith}
use ext.Base.Image.{Bytes}
use ext.Os.{File}
use ext.Utils.Write.{after_write}
use ext.Superblock.{Superblock, first_free}
use ext.Superblock.Bounds as Blocks
use ext.Block.{block_offset, get_max_records_count, sizeof_block_record}
use ext.Layout.{superblock, inode, block}
use ext.Methods.Create.{taken, HasRoom}
use ext.Methods.Names.{Entries, IsText, Fits}
use ext.Methods.Walk.{IsDirectory}
use ext.Commands.Entry.{extended, length-extended}
use ext.Commands.Makes.{CanMake, All-append, new_records-All, count_bound, length-new_records}
use ext.Fs.{Node, folder, Fs}
use ext.Fs.Placed as Placed
use ext.Fs.Kept.{Kept, Kept-write, Kept-trans, length-bytes_of_node}
use ext.Fs.Reach.{folder_at}
use ext.Fs.Represents.{
  Formed, folder_formed, IsNode, Represents, bytes_of_node, folder_there, Formed-InRange,
  Formed-Fits,
}
use ext.Fs.Taken.{Sizes-taken}
use ext.Fs.Writes.{three, Kept-three}

module _ (fs : Fs) (f : File) (r : Represents fs f.bytes) (is_file : Bool) (id b parent pb : ℕ)
    (first : ℕ × Bytes) (others : Entries) (name : Bytes)
    (e : fs.nodes parent ≡ some (folder pb first others))
    (fi : first_free fs.super.reserved_inodes_mask ≡ some id)
    (fb : first_free fs.super.reserved_blocks_mask ≡ some b)
    (not_full : length (first ∷ others) < get_max_records_count fs.super)
    (short : length name < fs.super.fs_info.max_path_len) (text : IsText name) where
  abbrev after : Superblock
  after = taken fs.super id b

  abbrev longer : Node
  longer = folder pb first (extended others id name)

  abbrev pub there : IsDirectory fs.super f.bytes parent first others
  there = folder_at fs f.bytes r parent pb first others e

  abbrev pub room : HasRoom fs.super id b parent
  room = Placed.room fs f r is_file id b parent pb first others name e fi fb

  unfoldable pub can : CanMake fs.super id b parent there.block_id (length (first ∷ others))
  unfolding folder_there
  can = record {
    room = room;
    fits = (Sizes-taken fs.super id b r.sizes).fits;
    names = r.sizes.names;
    enough = r.sizes.enough;
    inode_used = (r.sound parent _ e).inode_used;
    block_used = (r.sound parent _ e).block_used;
    not_full = not_full;
  }

  pub longer-Formed : Formed after parent longer
  unfolding sizeof_block_record
  longer-Formed =
      let old = (r.sound parent _ e).formed in
      let ranges = Formed-InRange fs.super parent pb first others old in
      let (fit, count) = count_bound fs.super id b parent first others f name short there can in
      let c = length-new_records fs.super id b parent first others f name short there can in
      let n = length-extended (first ∷ others) id name in
      folder_formed
        (record {
          block_id = ranges.block_id;
          inode_id = ranges.inode_id;
          records_count = omega arith;
          data_size = ranges.data_size;
        })
        (new_records-All fs.super id b parent first others f name short there can)
        (All-append (λ (x : ℕ × Bytes). Fits fs.super x.1) (first ∷ others) ((id, name) ∷ [])
          (Formed-Fits fs.super parent pb first others old) ((text, short), tt))
        (subst (λ c. 7 + c * sizeof_block_record fs.super ≤ fs.super.fs_info.block_size) (sym n)
          fit)

  -- The file after the four writes.
  abbrev pub before_link : File
  before_link = three fs.super id b parent room r.sizes is_file f

  abbrev pub four : File
  four =
      after_write (record before_link { pos = block_offset after pb })
        (bytes_of_node after parent longer)

  pub valid : Blocks.IsValid after
  valid = Placed.valid fs f r is_file id b parent pb first others name e fi fb

  longer_fits : length (bytes_of_node after parent longer) ≤ fs.super.fs_info.block_size
  longer_fits =
      length-bytes_of_node after (Sizes-taken fs.super id b r.sizes) valid parent longer
        longer-Formed

  pub last_write : Kept after (block pb ∷ []) before_link.bytes four.bytes
  last_write =
      Kept-write after (block pb) before_link.bytes (bytes_of_node after parent longer)
        (Sizes-taken fs.super id b r.sizes).fits tt longer_fits

  pub all_writes : Kept after (block b ∷ inode id ∷ superblock ∷ block pb ∷ []) f.bytes four.bytes
  all_writes =
      Kept-trans after (block b ∷ inode id ∷ superblock ∷ []) (block pb ∷ []) _ _ _
        (Kept-three fs.super id b parent room r.sizes is_file f) last_write

  pub old-IsNode : (j : ℕ) (md : Node) → fs.nodes j ≡ some md → IsNode after f.bytes j md
  old-IsNode = Placed.old-IsNode fs f r is_file id b parent pb first others name e fi fb
