-- ===== src/Commands/Makes.antt =====
-- create_dir on a path that leads to a directory with room for another entry: what is in the file
-- after it.
use ext.Base.{
  ℕ, suc, ◌+◌, ◌*◌, ◌^◌, ◌<◌, ◌≤◌, ◌≡◌, ◌≢◌, refl, sym, ◌∙◌, ap, subst, arith, List, [], ◌∷◌, ◌++◌,
  length, length-append, length-map, some, true, get_elem?, All, Bool,
}
use ext.Base.Image.{Bytes}
use ext.Base.Holds.{Holds, write_at-Holds}
use ext.Os.{File}
use ext.Utils.Write.{after_write}
use ext.Superblock.{Superblock, first_free, sizeof_superblock}
use ext.Superblock.Masks.{first_free-IsFirstFree}
use ext.Descriptors.{sizeof_descriptors_table}
use ext.Inode.{sizeof_inode, calculate_offset, sizeof_inodes_block}
use ext.Inode.Store as Inodes
use ext.Inode.Store.{bytes_of_inode, length-bytes_of_inode}
use ext.Block.{
  BlockRecord, block_offset, get_max_records_count, sizeof_block_record, bytes_of_block_info,
}
use ext.Block.Records.{IsRecord, bytes_of_records, length-bytes_of_records}
use ext.Block.Store.{directory, length-bytes_of_block_info}
use ext.Layout.{FitsWords, Part, superblock, inode, block, IsPart, start, size, write_at-other}
use ext.Methods.Create.{entry, taken, HasRoom, id_bound, entry-IsRecord}
use ext.Methods.Made.{made, made_keeps}
use ext.Methods.Names.{Entries, records, Fits}
use ext.Methods.Walk.{IsDirectory}
use ext.Commands.Entry.{extended, records-extended, room_for_record}

-- A free inode and a free block, and room in the directory, which is in use.
pub record CanMake (s : Superblock) (id b parent parent_block count : ℕ) : Type 0 where
  pub room : HasRoom s id b parent
  pub fits : FitsWords (taken s id b)
  pub names : 2 < s.fs_info.max_path_len
  pub enough : 7 + 2 * (2 + s.fs_info.max_path_len) ≤ s.fs_info.block_size
  pub inode_used : get_elem? s.reserved_inodes_mask parent ≡ some true
  pub block_used : get_elem? s.reserved_blocks_mask parent_block ≡ some true
  pub not_full : count < get_max_records_count s

pub used_is_not_free :
    (mask : List Bool) (i j : ℕ) → get_elem? mask i ≡ some true → first_free mask ≡ some j → i ≢ j
used_is_not_free mask i j used free e =
    let h = (first_free-IsFirstFree mask j free).free in let g = ap (get_elem? mask) e in cc

pub All-records :
    (s t : Superblock) (rs : List BlockRecord)
    → s.fs_info ≡ t.fs_info
    → All (IsRecord s) rs
    → All (IsRecord t) rs
All-records s t [] e a = tt
All-records s t (r ∷ rs) e a = (
  record { inode_id = a.0.inode_id; path = a.0.path ∙ ap (λ i. i.max_path_len) e },
  All-records s t rs e a.1,
)

pub All-append :
    {A : Type 0} (P : A → Type 0) (xs ys : List A) → All P xs → All P ys → All P (xs ++ ys)
All-append P [] ys a b = b
All-append P (x ∷ xs) ys a b = (a.0, All-append P xs ys a.1 b)

pub inode_inj : (i j : ℕ) → inode i ≡ inode j → i ≡ j
inode_inj i j e = cc

pub block_inj : (i j : ℕ) → block i ≡ block j → i ≡ j
block_inj i j e = cc

module _ (s : Superblock) (id b parent : ℕ) (first : ℕ × Bytes) (others : Entries) (f : File)
    (name : Bytes) (short : length name < s.fs_info.max_path_len)
    (there : IsDirectory s f.bytes parent first others)
    (can : CanMake s id b parent there.block_id (length (first ∷ others))) where
  -- The file with the new directory, and the block of its parent.
  abbrev pub with_new : File
  with_new = made s id b parent can.room can.fits can.names can.enough f

  abbrev pub new_records : List BlockRecord
  new_records = records (taken s id b) (first ∷ extended others id name)

  abbrev pub parent_bytes : Bytes
  parent_bytes =
      bytes_of_block_info (directory (taken s id b) there.block_id parent new_records).block_info
      ++ bytes_of_records new_records

  -- The file after create_dir.
  abbrev pub linked : File
  linked =
      after_write (record with_new { pos = block_offset (taken s id b) there.block_id })
        parent_bytes

  pub new_records-All : All (IsRecord (taken s id b)) new_records
  new_records-All =
      let l = id_bound s id b parent can.room in
      let r = can.room.valid.info.inodes_count in
      subst (All (IsRecord (taken s id b)))
        (sym (records-extended (taken s id b) (first ∷ others) id name))
        (All-append _ (records s (first ∷ others)) _
          (All-records s (taken s id b) (records s (first ∷ others)) refl there.entry_ranges)
          (entry-IsRecord (taken s id b) id name (omega arith) (omega arith), tt))

  pub count_bound :
      (7 + suc (length (first ∷ others)) * sizeof_block_record s ≤ s.fs_info.block_size)
      × (suc (length (first ∷ others)) < 2 ^ 8)
  count_bound =
      let e = can.enough in
      room_for_record s (length (first ∷ others)) (omega arith) can.room.valid.info.block_size
        can.not_full

  pub length-new_records : length new_records ≡ suc (length (first ∷ others))
  length-new_records =
      let n = length-map (λ e. entry s e.0 e.1) (first ∷ extended others id name) in
      let m = length-append others ((id, name) ∷ []) in omega arith

  pub length-parent_bytes : length parent_bytes ≤ s.fs_info.block_size
  unfolding sizeof_block_record
  length-parent_bytes =
      let info = (directory (taken s id b) there.block_id parent new_records).block_info in
      let l = count_bound.0 in
      let n = length-append (bytes_of_block_info info) (bytes_of_records new_records) in
      let i = length-bytes_of_block_info info in
      let r = length-bytes_of_records (taken s id b) new_records new_records-All in
      let m = ap (λ c. c * sizeof_block_record s) length-new_records in omega arith

  pub some_parent_bytes : 0 < length parent_bytes
  some_parent_bytes =
      let info = (directory (taken s id b) there.block_id parent new_records).block_info in
      omega (
        arith,
        length-append (bytes_of_block_info info) (bytes_of_records new_records),
        length-bytes_of_block_info info,
      )

  pub parent_is_not_new : parent ≢ id
  parent_is_not_new =
      used_is_not_free s.reserved_inodes_mask parent id can.inode_used can.room.inode

  pub block_is_not_new : there.block_id ≢ b
  block_is_not_new =
      used_is_not_free s.reserved_blocks_mask there.block_id b can.block_used can.room.block

  -- What the write of the parent's block leaves of the new file.
  pub after_link :
      (p : Part) (bs : Bytes)
      → IsPart (taken s id b) p
      → p ≢ block there.block_id
      → length bs ≤ size (taken s id b) p
      → Holds with_new.bytes (start (taken s id b) p) bs
      → Holds linked.bytes (start (taken s id b) p) bs
  after_link p bs a ne l d =
      write_at-other (taken s id b) can.fits p (block there.block_id) _ _ _ a tt ne l
        length-parent_bytes d

  pub kept :
      (p : Part) (bs : Bytes)
      → IsPart (taken s id b) p
      → p ≢ superblock
      → p ≢ inode id
      → p ≢ block b
      → p ≢ block there.block_id
      → length bs ≤ size (taken s id b) p
      → Holds f.bytes (start (taken s id b) p) bs
      → Holds linked.bytes (start (taken s id b) p) bs
  kept p bs a no_s no_i no_b no_p l d =
      after_link p bs a no_p l (
        made_keeps s id b parent can.room can.fits can.names can.enough f p bs a no_s no_i no_b l d)

  inode_is_not_superblock : (i : ℕ) → inode i ≢ superblock
  inode_is_not_superblock i e = ground arith

  inode_is_not_block : (i c : ℕ) → inode i ≢ block c
  inode_is_not_block i c e = ground arith

  -- The parent has the entries that it had, and the new one behind them.
  pub parent_there :
      parent < s.fs_info.inodes_count
      → Fits s name
      → IsDirectory (taken s id b) linked.bytes parent first (extended others id name)
  unfolding calculate_offset sizeof_inode sizeof_superblock sizeof_descriptors_table block_offset
      sizeof_inodes_block
  parent_there known ok =
      let v : Inodes.IsValid (taken s id b) there.inode = record {
        id = there.valid.id;
        blocks_count = there.valid.blocks_count;
        slots = there.valid.slots;
        small = there.valid.small;
        ids = there.valid.ids;
      } in
      let z = length-bytes_of_inode (taken s id b) there.inode v in
      let n = count_bound.1 in
      let m = length-new_records in
      record {
        inode = there.inode;
        valid = v;
        kind = there.kind;
        inode_there =
            kept (inode parent) (bytes_of_inode there.inode) known (inode_is_not_superblock parent)
              (λ e. parent_is_not_new (inode_inj parent id e)) (inode_is_not_block parent b)
              (inode_is_not_block parent there.block_id) (omega arith) there.inode_there;
        block_id = there.block_id;
        slot = there.slot;
        ranges = record {
          block_id = there.ranges.block_id;
          inode_id = there.ranges.inode_id;
          records_count = omega arith;
          data_size = there.ranges.data_size;
        };
        block_there =
            write_at-Holds with_new.bytes (block_offset (taken s id b) there.block_id) parent_bytes
              some_parent_bytes;
        entry_ranges = new_records-All;
        entry_names =
            All-append (λ (e : ℕ × Bytes). Fits s e.1) (first ∷ others) ((id, name) ∷ [])
              there.entry_names (ok, tt);
      }
