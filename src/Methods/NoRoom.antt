-- ===== src/Methods/NoRoom.antt =====
-- create_dir_helper and create_file_helper where no inode or no block is free.
use ext.Base.{
  ℕ, ◌≡◌, refl, ◌<◌, true, false, none, some, length, set, get_elem?-set_self, get_elem?-lt, arith,
  eq→==, ne→==,
}
use ext.Os.{Host, File}
use ext.Os.Ends.{Ends, Ends-pure, Ends-bind, Ends-element}
use ext.Superblock.{Superblock, first_free, reserve_inode, reserve_block, free_inode}
use ext.Superblock.Bounds.{IsValid}
use ext.Superblock.Masks.{first_free-IsFirstFree}
use ext.Methods.{create_dir_helper, create_file_helper}

module _ (s : Superblock) (parent : ℕ) where
  reserve_inode-none :
      first_free s.reserved_inodes_mask ≡ none → reserve_inode s ≡ (s.fs_info.inodes_count, s)
  unfolding reserve_inode
  reserve_inode-none e = rw (e, reserve_inode)

  -- Both helpers end with inodes_count.
  abbrev pub Refuses : Host → File → Type 0
  Refuses h f =
      (t : Superblock) × Ends h (create_dir_helper s parent false) f (s.fs_info.inodes_count, t) f
      × Ends h (create_file_helper s parent) f (s.fs_info.inodes_count, t) f
      × (t.fs_info ≡ s.fs_info)

  pub no_inode-Refuses :
      {h : Host} (f : File) → first_free s.reserved_inodes_mask ≡ none → Refuses h f
  unfolding create_dir_helper create_file_helper
  no_inode-Refuses f e = (
    s,
    rw (reserve_inode-none e, eq→== s.fs_info.inodes_count s.fs_info.inodes_count refl)
        (Ends-pure _ f),
    rw (reserve_inode-none e, eq→== s.fs_info.inodes_count s.fs_info.inodes_count refl)
        (Ends-pure _ f),
    refl,
  )

  module _ (valid : IsValid s) (id : ℕ) (fi : first_free s.reserved_inodes_mask ≡ some id)
      (fb : first_free s.reserved_blocks_mask ≡ none) where
    abbrev with_inode : Superblock
    with_inode = record s { reserved_inodes_mask = set s.reserved_inodes_mask id true }

    bound : id < length s.reserved_inodes_mask
    bound =
        let h = first_free-IsFirstFree s.reserved_inodes_mask id fi in
        get_elem?-lt s.reserved_inodes_mask id false h.free

    reserve_inode-some : reserve_inode s ≡ (id, with_inode)
    unfolding reserve_inode
    reserve_inode-some = rw (fi, reserve_inode)

    reserve_block-none : reserve_block with_inode ≡ (s.fs_info.blocks_count, with_inode)
    unfolding reserve_block
    reserve_block-none = rw (fb, reserve_block)

    abbrev freed : Superblock
    freed = record with_inode {
      reserved_inodes_mask = set with_inode.reserved_inodes_mask id false;
    }

    free_inode-Ends : {h : Host} (f : File) → Ends h (free_inode with_inode id) f (id, freed) f
    unfolding free_inode
    free_inode-Ends f =
        Ends-bind _ _
          (Ends-element _ true f (get_elem?-set_self s.reserved_inodes_mask id true bound))
          (Ends-pure _ f)

    pub no_block-Refuses : {h : Host} (f : File) → Refuses h f
    unfolding create_dir_helper create_file_helper
    no_block-Refuses f =
        let v = valid.inodes in
        let l = bound in
        let ne = ne→== id s.fs_info.inodes_count (omega arith) in
        let all = eq→== s.fs_info.blocks_count s.fs_info.blocks_count refl in
        (
          freed,
          rw (reserve_inode-some, ne, reserve_block-none, all)
              (Ends-bind _ _ (free_inode-Ends f) (Ends-pure _ f)),
          rw (reserve_inode-some, ne, reserve_block-none, all)
              (Ends-bind _ _ (free_inode-Ends f) (Ends-pure _ f)),
          refl,
        )
