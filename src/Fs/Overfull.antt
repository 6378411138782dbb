-- ===== src/Fs/Overfull.antt =====
-- create_dir and create_file in a directory that has no room for another entry.
use ext.Base.{
  ℕ, ◌+◌, ◌*◌, ◌≡◌, refl, ◌∙◌, List, [], ◌∷◌, ◌++◌, none, some, length, length-map, arith, eq→==,
  ne→==, Bool, true, false,
}
use ext.Base.Holds.{Holds}
use ext.Base.Image.{Bytes}
use ext.Os.{Host, File, M, fault, IsSteady, pure}
use ext.Os.Ends.{Ends, Ends-pure, Ends-bind, Ends-attempt, Ends-element}
use ext.Os.Faults.{Faults, Faults-fault, Faults-behind}
use ext.Superblock.{Superblock, root_inode_id, first_free}
use ext.Superblock.Store.{bytes_of_superblock}
use ext.Block.{get_max_records_count, sizeof_block_record, block_offset}
use ext.Block.Store.{read_block-directory}
use ext.Layout.{superblock, inode, block}
use ext.Methods.Create.{entry, taken, id_bound, create_dir_helper-Ends}
use ext.Methods.CreateFile.{create_file_helper-Ends}
use ext.Methods.Names.{Entries, records, lookup}
use ext.Methods.Walk.{IsDirectory, path_text}
use ext.Commands.Create.{create_dir, create_file, link}
use ext.Commands.Makes.{All-records}
use ext.Commands.Reach.{Place, to_directory-Ends, is_dir_exist-Ends}
use ext.Fs.{folder, Fs, walk}
use ext.Fs.Full.{to_directory-Faults}
use ext.Fs.Grown.{old_inode, old_block}
use ext.Fs.Kept.{IsNode-Kept}
use ext.Fs.Placed as Placed
use ext.Fs.Reach.{IsPath, place}
use ext.Fs.Represents.{Represents, folder_there}
use ext.Fs.Taken.{Sizes-taken}
use ext.Fs.Writes.{Kept-three, superblock_there}

module _ {h : Host} (k : IsSteady h) (fs : Fs) (f : File) (r : Represents fs f.bytes)
    (names : List Bytes) (name : Bytes) (v : IsPath fs.super names name) (id b parent pb : ℕ)
    (first : ℕ × Bytes) (others : Entries) (w : walk fs.nodes root_inode_id names ≡ some parent)
    (e : fs.nodes parent ≡ some (folder pb first others))
    (absent : lookup (first ∷ others) name ≡ none)
    (full : length (first ∷ others) ≡ get_max_records_count fs.super)
    (fi : first_free fs.super.reserved_inodes_mask ≡ some id)
    (fb : first_free fs.super.reserved_blocks_mask ≡ some b) where
  abbrev p : Place fs.super f.bytes names name parent first others
  p = place fs f.bytes r names name parent pb first others v w e

  abbrev after : Superblock
  after = taken fs.super id b

  -- The file when the entry is to be added.
  abbrev pub unlinked : Bool → File
  unlinked kind = Placed.before_link fs f r kind id b parent pb first others name e fi fb

  abbrev behind : Bool → File
  behind kind = record (unlinked kind) {
    pos =
        block_offset after p.there.block_id
        + (7 + length (records after (first ∷ others)) * sizeof_block_record after);
  }

  -- The block of the parent is read, and what the command does in a full directory is done.
  to_full :
      (kind : Bool) (m : M (Unit {0}))
      → (Faults h m (behind kind) → Faults h (link m p.there.inode id name after) (unlinked kind))
        × (Ends h m (behind kind) tt (behind kind)
            → Ends h (link m p.there.inode id name after) (unlinked kind) tt (behind kind))
  unfolding link get_max_records_count sizeof_block_record place folder_there
  to_full kind m =
      let room = Placed.room fs f r kind id b parent pb first others name e fi fb in
      let l = id_bound fs.super id b parent room in
      let ne = ne→== id fs.super.fs_info.inodes_count (omega arith) in
      let size = length-map (λ x. entry fs.super x.0 x.1) (first ∷ others) in
      let d = p.there in
      let rs = records fs.super (first ∷ others) in
      let readed = Ends-attempt (
        read_block-directory k after pb parent (entry fs.super first.0 first.1)
          (records fs.super others) (unlinked kind) r.has.valid.info.max_path_len
          (All-records fs.super after rs refl d.entry_ranges) d.ranges
          (Placed.parent_before fs f r kind id b parent pb first others name e fi fb)) in
      let all = eq→== (length rs) (get_max_records_count fs.super) (size ∙ full) in
      (
        λ g.
            rw ne (
              Faults-behind _ _ (Ends-element _ pb _ d.slot) (Faults-behind _ _ readed (rw all g))),
        λ g. rw ne (Ends-bind _ _ (Ends-element _ pb _ d.slot) (Ends-bind _ _ readed (rw all g))),
      )

  parent_still : IsDirectory after (unlinked true).bytes parent first others
  parent_still =
      let room = Placed.room fs f r true id b parent pb first others name e fi fb in
      let valid = Placed.valid fs f r true id b parent pb first others name e fi fb in
      let old = Placed.old-IsNode fs f r true id b parent pb first others name e fi fb parent _ e in
      let no_inode =
        old_inode fs f.bytes r true id b parent pb first others name e fi fb parent _ e in
      let no_block =
        old_block fs f.bytes r true id b parent pb first others name e fi fb parent _ e in
      let z = Sizes-taken fs.super id b r.sizes in
      folder_there after parent pb first others (unlinked true).bytes z valid (
        IsNode-Kept after z valid (block b ∷ inode id ∷ superblock ∷ []) f.bytes
          (unlinked true).bytes parent _ (Kept-three fs.super id b parent room r.sizes true f)
          ((λ q. ground arith), ((λ q. no_inode (ground arith)), ((λ q. ground arith), tt)))
          ((λ q. no_block (ground arith)), ((λ q. ground arith), ((λ q. ground arith), tt))) old)

  -- Under a host that fails no call, for a file that represents an abstract file system, and names
  -- that lead to a directory that does not have the name and has get_max_records_count entries,
  -- while an inode and a block are free: create_dir comes to undefined behaviour, and create_file
  -- ends and leaves a file in which the directory has the same entries, while the superblock has
  -- the first free inode and the first free block reserved. The names have a byte, no slash and no
  -- NUL, and fit the arrays of the functions that split the path.
  pub create-full :
      Faults h (create_dir (path_text names ++ name)) f
      × ((g : File) × Ends h (create_file (path_text names ++ name)) f tt g
          × Holds g.bytes 0 (bytes_of_superblock (taken fs.super id b))
          × IsDirectory (taken fs.super id b) g.bytes parent first others)
  unfolding create_dir create_file
  create-full =
      let room = Placed.room fs f r true id b parent pb first others name e fi fb in
      let l = r.sizes.enough in
      (
        to_directory-Faults k fs f r names name v parent pb first others w e tt _ (λ q.
            Faults-behind _ _
              (is_dir_exist-Ends k fs.super fs.table names name parent first others f r.has p q)
              (rw absent (
                Faults-behind _ _ (create_dir_helper-Ends fs.super id b parent room k false _ refl)
                  ((to_full false fault).0 (Faults-fault _))))),
        (
          behind true,
          to_directory-Ends k fs.super fs.table names name parent first others f r.has p tt _ _ _
              (λ q.
                Ends-bind _ _
                  (is_dir_exist-Ends k fs.super fs.table names name parent first others f r.has p q)
                  (rw absent (
                    Ends-bind _ _
                      (create_file_helper-Ends fs.super id b parent room (omega arith) k _)
                      ((to_full true (pure tt)).1 (Ends-pure tt _))))),
          superblock_there fs.super id b parent room r.sizes true f,
          parent_still,
        ),
      )
