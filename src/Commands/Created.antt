-- ===== src/Commands/Created.antt =====
-- create_dir on a path that leads to a directory with room for another entry.
use ext.Base.{
  ℕ, ◌+◌, ◌*◌, ◌<◌, refl, sym, ◌∙◌, ap, arith, [], ◌∷◌, ◌++◌, length, length-append, length-map,
  true, get_elem?-set_ne, ne→==,
}
use ext.Base.Image.{Bytes}
use ext.Base.Holds.{Holds, write_at-Holds}
use ext.Os.{Host, File, M, IsSteady}
use ext.Utils.Write.{after_write}
use ext.Os.Ends.{Ends, Ends-pure, Ends-bind, Ends-attempt, Ends-element, Ends-if_false}
use ext.Superblock.{Superblock, sizeof_superblock}
use ext.Superblock.Store.{length-bytes_of_superblock}
use ext.Descriptors.{DescriptorsTable, sizeof_descriptors_table}
use ext.Descriptors.Bounds as Tables
use ext.Descriptors.Store.{length-bytes_of_table}
use ext.Inode.{sizeof_inode, sizeof_inodes_block}
use ext.Block.{block_offset, get_max_records_count, sizeof_block_record, bytes_of_block_info}
use ext.Block.Records.{bytes_of_records, length-bytes_of_records}
use ext.Block.Store.{
  directory, length-bytes_of_block_info, read_block-directory, write_block-directory,
}
use ext.Layout.{superblock, table, inode, block}
use ext.Methods.Create.{entry, taken, id_bound, taken-IsValid}
use ext.Methods.Made.{
  made_keeps, new_directory, inode_there, block_there, inode_size, length-block_bytes,
}
use ext.Methods.Names.{Entries, records}
use ext.Methods.Walk.{IsDirectory}
use ext.Commands.Create.{link}
use ext.Commands.Keep.{HasTable}
use ext.Commands.Entry.{append_record_lem}
use ext.Commands.Makes.{
  CanMake, linked, after_link, kept, count_bound, block_is_not_new, block_inj, used_is_not_free,
  All-records, new_records-All, with_new, parent_bytes,
}
use ext.Commands.FreshTable.{table_is_not_superblock, table_is_not_inode, table_is_not_block}

module _ (s : Superblock) (id b parent : ℕ) (first : ℕ × Bytes) (others : Entries) (f : File)
    (name : Bytes) (short : length name < s.fs_info.max_path_len)
    (there : IsDirectory s f.bytes parent first others)
    (can : CanMake s id b parent there.block_id (length (first ∷ others))) where
  -- The new directory is not touched by the write to its parent.
  pub new_there :
      IsDirectory
        (taken s id b)
        (linked s id b parent first others f name short there can).bytes
        id
        (id, b'.' ∷ [])
        ((parent, b'.' ∷ b'.' ∷ []) ∷ [])
  new_there =
      let l = id_bound s id b parent can.room in
      let n = inode_size s id b parent can.room can.fits can.names can.enough f in
      let m = length-block_bytes s id b parent can.room can.fits can.names can.enough f in
      let e = can.enough in
      new_directory s id b parent can.room can.fits can.names can.enough f _
        (after_link s id b parent first others f name short there can (inode id) _ l
          (λ e. ground arith) (omega arith)
          (inode_there s id b parent can.room can.fits can.names can.enough f))
        (after_link s id b parent first others f name short there can (block b) _ tt
          (λ e.
            block_is_not_new s id b parent first others f name short there can
              (sym (block_inj b there.block_id e)))
          (omega arith) (block_there s id b parent can.room can.fits can.names can.enough f))

  pub table_kept :
      (t : DescriptorsTable)
      → HasTable s t f.bytes
      → HasTable (taken s id b) t (linked s id b parent first others f name short there can).bytes
  unfolding sizeof_superblock
  table_kept t has =
      let v = taken-IsValid s id b parent can.room in
      let w : Tables.IsValid (taken s id b) t = record {
        reserved = has.table_valid.reserved;
        inodes = has.table_valid.inodes;
        positions = has.table_valid.positions;
        inode_range = has.table_valid.inode_range;
        position_range = has.table_valid.position_range;
      } in
      let n = length-bytes_of_superblock (taken s id b) v in
      let m = length-bytes_of_table (taken s id b) t w in
      record {
        valid = v;
        magic = has.magic;
        root =
            get_elem?-set_ne s.reserved_inodes_mask id 0 true
              (λ e. used_is_not_free s.reserved_inodes_mask 0 id has.root can.room.inode (sym e))
            ∙ has.root;
        superblock_there =
            after_link s id b parent first others f name short there can superblock _ tt
              (λ e. ground arith) (omega arith) (write_at-Holds _ 0 _ (omega arith));
        table_valid = w;
        some_descriptor = has.some_descriptor;
        table_there =
            kept s id b parent first others f name short there can table _ tt
              table_is_not_superblock (table_is_not_inode id) (table_is_not_block b)
              (table_is_not_block there.block_id) (omega arith) has.table_there;
      }

  pub block_is_there :
      Holds
        (with_new s id b parent first others f name short there can).bytes
        (block_offset (taken s id b) there.block_id)
        (bytes_of_block_info
            (directory s there.block_id parent (records s (first ∷ others))).block_info
          ++ bytes_of_records (records s (first ∷ others)))
  unfolding block_offset sizeof_superblock sizeof_descriptors_table sizeof_inodes_block sizeof_inode
      sizeof_block_record
  block_is_there =
      let info = (directory s there.block_id parent (records s (first ∷ others))).block_info in
      let c = (count_bound s id b parent first others f name short there can).0 in
      let size = length-map (λ e. entry s e.0 e.1) (first ∷ others) in
      let n =
        length-append (bytes_of_block_info info) (bytes_of_records (records s (first ∷ others))) in
      let i = length-bytes_of_block_info info in
      let r = length-bytes_of_records s (records s (first ∷ others)) there.entry_ranges in
      let m = ap (λ c. c * (2 + s.fs_info.max_path_len)) size in
      made_keeps s id b parent can.room can.fits can.names can.enough f (block there.block_id) _ tt
        (λ e. ground arith) (λ e. ground arith)
        (λ e.
          block_is_not_new s id b parent first others f name short there can
            (block_inj there.block_id b e))
        (omega arith) there.block_there

  -- The new record is appended to the block of the parent, which is as it was.
  pub link-Ends :
      {h : Host} (k : IsSteady h) (full : M (Unit {0})) (g : File)
      → Holds g.bytes (block_offset (taken s id b) there.block_id) (
          bytes_of_block_info
            (directory s there.block_id parent (records s (first ∷ others))).block_info
          ++ bytes_of_records (records s (first ∷ others)))
      → Ends h (link full there.inode id name (taken s id b)) g tt (
          after_write
            (record g { pos = block_offset (taken s id b) there.block_id })
            (parent_bytes s id b parent first others f name short there can))
  unfolding link get_max_records_count sizeof_block_record
  link-Ends k full g held =
      let l = id_bound s id b parent can.room in
      let v = can.room.valid.info.max_path_len in
      let c = (count_bound s id b parent first others f name short there can).1 in
      let not_full = can.not_full in
      let size = length-map (λ e. entry s e.0 e.1) (first ∷ others) in
      Ends-if_false _ _ (ne→== id s.fs_info.inodes_count (omega arith)) (
        Ends-bind _ _ (Ends-element _ there.block_id _ there.slot) (
          Ends-bind _ _
            (Ends-attempt (
              read_block-directory k (taken s id b) there.block_id parent (entry s first.0 first.1)
                (records s others) _ v
                (All-records s (taken s id b) (records s (first ∷ others)) refl there.entry_ranges)
                there.ranges held))
            (Ends-if_false _ _
              (ne→== (length (records s (first ∷ others))) (get_max_records_count s) (omega arith))
              (rw
                (append_record_lem (taken s id b) there.block_id parent id (first ∷ others) name
                  short c)
                (Ends-bind _ _ (Ends-pure _ _) (
                  Ends-bind _ _
                    (Ends-attempt (
                      write_block-directory k (taken s id b) there.block_id parent _ _ _ v
                        (new_records-All s id b parent first others f name short there can)))
                    (Ends-pure _ _)))))))
