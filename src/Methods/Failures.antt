-- ===== src/Methods/Failures.antt =====
-- create_dir_helper and create_file_helper, whatever the host answers.
use ext.Base.{
  ℕ, ◌<◌, ◌≡◌, refl, ◌∙◌, ap, Bool, true, false, List, some, get_elem?, get_elem?-lt,
  get_elem?-set_self, set, set-set, length, set-get_elem?, ◌⊎◌, inl, inr, Option-cases, ◌==◌,
  if◌then◌else◌, ne→==, eq→==, arith,
}
use ext.Os.{M, pure, ◌>>=◌}
use ext.Os.Ensures.{
  Ensures, Ensures-pure, Ensures-option, Ensures-bind, Ensures-then, Ensures-element,
}
use ext.Superblock.{Superblock, first_free, reserve_inode, reserve_block, free_inode, free_block}
use ext.Superblock.Bounds.{IsValid}
use ext.Superblock.Masks.{first_free-IsFirstFree}
use ext.Inode.{Inode}
use ext.Block.{Block, init_block}
use ext.Methods.{give_back, write_new, new_inode, dots_block, create_dir_helper, create_file_helper}
use ext.Methods.Create.{taken}

-- Nothing was taken and inodes_count is the result, or the first free inode and the first free block
-- were, and the inode is the result.
abbrev pub AllOrNothing : Superblock → ℕ × Superblock → Type 0
AllOrNothing s (id, s') =
    (id ≡ s.fs_info.inodes_count) × (s' ≡ s)
    ⊎ (b : ℕ) × (first_free s.reserved_inodes_mask ≡ some id)
      × (first_free s.reserved_blocks_mask ≡ some b)
      × (s' ≡ taken s id b)

pub mask_bound : (mask : List Bool) (id : ℕ) → first_free mask ≡ some id → id < length mask
mask_bound mask id free = get_elem?-lt mask id false (first_free-IsFirstFree mask id free).free

module _ (mask : List Bool) (id : ℕ) (free : first_free mask ≡ some id) where
  pub reserved : get_elem? (set mask id true) id ≡ some true
  reserved =
      let h = first_free-IsFirstFree mask id free in
      get_elem?-set_self mask id true (get_elem?-lt mask id false h.free)

  freed : set (set mask id true) id false ≡ mask
  freed =
      let h = first_free-IsFirstFree mask id free in
      set-set mask id true false ∙ set-get_elem? mask id false h.free

free_inode-Ensures :
    (s : Superblock) (id : ℕ)
    → get_elem? s.reserved_inodes_mask id ≡ some true
    → Ensures
        (λ r. r.1 ≡ record s { reserved_inodes_mask = set s.reserved_inodes_mask id false })
        (free_inode s id)
unfolding free_inode
free_inode-Ensures s id e =
    Ensures-bind _ (Ensures-element _ true e) (λ c t. rw (← t) (Ensures-pure _ refl))

free_block-Ensures :
    (s : Superblock) (b : ℕ)
    → get_elem? s.reserved_blocks_mask b ≡ some true
    → Ensures
        (λ r. r.1 ≡ record s { reserved_blocks_mask = set s.reserved_blocks_mask b false })
        (free_block s b)
unfolding free_block
free_block-Ensures s b e =
    Ensures-bind _ (Ensures-element _ true e) (λ c t. rw (← t) (Ensures-pure _ refl))

module _ (s : Superblock) (id b : ℕ) (i : first_free s.reserved_inodes_mask ≡ some id)
    (k : first_free s.reserved_blocks_mask ≡ some b) where
  give_back-Ensures : Ensures (AllOrNothing s) (give_back (taken s id b) id b)
  unfolding give_back
  give_back-Ensures =
      Ensures-bind _ (free_inode-Ensures (taken s id b) id (reserved s.reserved_inodes_mask id i))
        (λ r e. rw e (
          Ensures-bind _ (free_block-Ensures _ b (reserved s.reserved_blocks_mask b k)) (λ t d.
            Ensures-pure _ (
              inl (
                refl,
                d ∙ (λ j. record {
                  fs_info = s.fs_info;
                  reserved_inodes_mask = freed s.reserved_inodes_mask id i j;
                  reserved_blocks_mask = freed s.reserved_blocks_mask b k j;
                }),
              )))))

  write_new-Ensures :
      (block : Block) (inode : Inode)
      → Ensures (AllOrNothing s) (write_new block inode (taken s id b) id b)
  unfolding write_new
  write_new-Ensures block inode = Ensures-then _ (λ x. Ensures-option x give_back-Ensures (λ _.
      Ensures-then _ (λ y. Ensures-option y give_back-Ensures (λ _.
        Ensures-then _
          (λ z. Ensures-option z give_back-Ensures (λ _. Ensures-pure _ (inr (b, i, k, refl))))))))

no_block :
    (s : Superblock) (id : ℕ)
    → first_free s.reserved_inodes_mask ≡ some id
    → Ensures (AllOrNothing s) (
        free_inode (record s { reserved_inodes_mask = set s.reserved_inodes_mask id true }) id
        >>= λ freed. pure (s.fs_info.inodes_count, freed.1))
no_block s id i =
    Ensures-bind _ (free_inode-Ensures _ id (reserved s.reserved_inodes_mask id i)) (λ r e.
      Ensures-pure _ (
        inl (
          refl,
          e ∙ ap (λ m. record s { reserved_inodes_mask = m }) (freed s.reserved_inodes_mask id i),
        )))

-- What both helpers are: two reservations, and `make` for the rest.
helper_Ensures :
    (s : Superblock) (make : ℕ → ℕ → Superblock → M (ℕ × Superblock))
    → IsValid s
    → ((id b : ℕ)
        → first_free s.reserved_inodes_mask ≡ some id
        → first_free s.reserved_blocks_mask ≡ some b
        → Ensures (AllOrNothing s) (make id b (taken s id b)))
    → Ensures (AllOrNothing s) (
        let (id, with_inode) = reserve_inode s in
        if id == s.fs_info.inodes_count
        then pure (s.fs_info.inodes_count, with_inode)
        else let (b, with_block) = reserve_block with_inode in
          if b == s.fs_info.blocks_count
          then (free_inode with_block id >>= λ freed. pure (s.fs_info.inodes_count, freed.1))
          else make id b with_block)
unfolding reserve_inode reserve_block
helper_Ensures s make v k = elim (Option-cases (first_free s.reserved_inodes_mask)) [
  | inl n ↦
      rw (n, reserve_inode, eq→== s.fs_info.inodes_count s.fs_info.inodes_count refl)
        (Ensures-pure _ (inl (refl, refl)))
  | inr (id, i) ↦
      let l = mask_bound s.reserved_inodes_mask id i in
      let w = v.inodes in
      rw (i, reserve_inode, ne→== id s.fs_info.inodes_count (omega arith))
        (elim (Option-cases (first_free s.reserved_blocks_mask)) [
          | inl n ↦
              rw (n, reserve_block, eq→== s.fs_info.blocks_count s.fs_info.blocks_count refl)
                (no_block s id i)
          | inr (b, j) ↦
              let m = mask_bound s.reserved_blocks_mask b j in
              let x = v.blocks in
              rw (j, reserve_block, ne→== b s.fs_info.blocks_count (omega arith)) (k id b i j)
        ])
]

-- What follows the two reservations.
abbrev make_dir : ℕ → Bool → ℕ → ℕ → Superblock → M (ℕ × Superblock)
make_dir parent is_root id b s = do
  inode ← new_inode id b false s
  block ← dots_block b id (if is_root then id else parent) s
  write_new block inode s id b

abbrev pub make_file : ℕ → ℕ → Superblock → M (ℕ × Superblock)
make_file id b s = do inode ← new_inode id b true s; write_new (init_block s b id) inode s id b

-- Whatever the host answers, on a valid superblock every result of create_dir_helper is
-- inodes_count with the superblock as it was, or the first free inode with the superblock that has
-- this inode and the first free block reserved and no other change.
pub create_dir_helper-AllOrNothing :
    (s : Superblock) (parent : ℕ) (is_root : Bool)
    → IsValid s
    → Ensures (AllOrNothing s) (create_dir_helper s parent is_root)
unfolding create_dir_helper
create_dir_helper-AllOrNothing s parent is_root v =
    helper_Ensures s (make_dir parent is_root) v (λ id b i j.
      Ensures-then (new_inode id b false (taken s id b)) (λ inode.
        Ensures-then (dots_block b id (if is_root then id else parent) (taken s id b))
          (λ block. write_new-Ensures s id b i j block inode)))

-- Whatever the host answers, on a valid superblock every result of create_file_helper is
-- inodes_count with the superblock as it was, or the first free inode with the superblock that has
-- this inode and the first free block reserved and no other change.
pub create_file_helper-AllOrNothing :
    (s : Superblock) (parent : ℕ)
    → IsValid s
    → Ensures (AllOrNothing s) (create_file_helper s parent)
unfolding create_file_helper
create_file_helper-AllOrNothing s parent v = helper_Ensures s make_file v (λ id b i j.
    Ensures-then (new_inode id b true (taken s id b))
      (λ inode. write_new-Ensures s id b i j (init_block (taken s id b) b id) inode))
