-- ===== src/Methods/Returns.antt =====
-- create_file_helper returns, whatever the host answers.
use ext.Base.{
  ℕ, ◌<◌, ◌≤◌, ◌≡◌, refl, ◌^◌, Bool, true, false, some, List, ◌+◌, get_elem?, length, length-set,
  length-replicate, replicate, set, arith, Option-cases, inl, inr, eq→==, ne→==, ◌∙◌, ap, sym,
  subst,
}
use ext.Base.Words.{length-bytes_of_bools, length-bytes_of_u16s}
use ext.Os.{Host, World, ok, pure, assign, element, ◌>>=◌}
use ext.Os.Settles.{
  Settles, Returns, Settles-Returns, Settles-bind, Returns-pure, Returns-bind, Returns-lseek,
  Returns-element, Returns-attempt, Returns-option, Returns-if,
}
use ext.Utils.Ends.{write_while-Settles}
use ext.Superblock.{
  Superblock, first_free, reserve_inode, reserve_block, free_inode, free_block, write_super_block,
}
use ext.Superblock.Bounds.{IsValid}
use ext.Superblock.Store.{length-bytes_of_info}
use ext.Inode.{Inode, init_inode, write_inode}
use ext.Inode.Store.{length-bytes_of_inode_info}
use ext.Block.{init_block, write_block, write_contents}
use ext.Block.Store.{length-bytes_of_block_info}
use ext.Descriptors.Open.{get_elem?-replicate}
use ext.Methods.{give_back, write_new, new_inode, create_file_helper}
use ext.Methods.Create.{taken, fresh_inode}
use ext.Methods.Failures.{
  AllOrNothing, make_file, mask_bound, reserved, create_file_helper-AllOrNothing,
}

write_super_block-Settles : (s : Superblock) → IsValid s → Settles (write_super_block s)
unfolding write_super_block
write_super_block-Settles s v = Settles-bind (Settles-Returns (Returns-lseek 0)) (λ _.
    Settles-bind (write_while-Settles _ (omega (arith, length-bytes_of_info s.fs_info))) (λ info.
      Settles-bind
        (write_while-Settles _ (
          omega
            (arith, length-bytes_of_bools s.reserved_inodes_mask, v.inodes, v.info.inodes_count)))
        (λ inodes.
          Settles-bind
            (write_while-Settles _ (
              omega (
                arith,
                length-bytes_of_bools s.reserved_blocks_mask,
                v.blocks,
                v.info.blocks_count,
              )))
            (λ blocks. Settles-Returns (Returns-pure (info + inodes + blocks))))))

write_inode-Settles :
    (s : Superblock) (inode : Inode)
    → length inode.block_ids < 2 ^ 16
    → Settles (write_inode inode s)
unfolding write_inode
write_inode-Settles s inode l = Settles-bind (Settles-Returns (Returns-lseek _)) (λ _.
    Settles-bind
      (write_while-Settles _ (omega (arith, length-bytes_of_inode_info inode.inode_info)))
      (λ info.
        Settles-bind (write_while-Settles _ (omega (arith, length-bytes_of_u16s inode.block_ids)))
          (λ ids. Settles-Returns (Returns-pure (info + ids)))))

-- The block of a new file has nothing behind its block_info.
write_block-Settles : (s : Superblock) (b id : ℕ) → Settles (write_block (init_block s b id) s)
unfolding write_block write_contents init_block
write_block-Settles s b id = Settles-bind (Settles-Returns (Returns-lseek _)) (λ _.
    Settles-bind
      (write_while-Settles _
        (omega (arith, length-bytes_of_block_info (init_block s b id).block_info)))
      (λ n. Settles-Returns (Returns-pure n)))

assign_ok :
    {A : Type 0} (xs : List A) (i : ℕ) (a old : A) (h : Host) (w : World)
    → get_elem? xs i ≡ some old
    → assign xs i a h w ≡ (ok (set xs i a), w)
unfolding assign
assign_ok xs i a old h w e = rw (e, assign) refl

assign-pure :
    {A : Type 0} (xs : List A) (i : ℕ) (a old : A)
    → get_elem? xs i ≡ some old
    → assign xs i a ≡ pure (set xs i a)
unfolding pure
assign-pure xs i a old e = λ j h w. assign_ok xs i a old h w e j

new_inode_lem :
    (s : Superblock) (id b : ℕ) (is_file : Bool)
    → 0 < s.fs_info.blocks_count_in_inode
    → new_inode id b is_file s ≡ pure (fresh_inode s id b is_file)
unfolding new_inode init_inode ◌>>=◌ pure
new_inode_lem s id b is_file l =
    let zeros : List ℕ = replicate s.fs_info.blocks_count_in_inode 0 in
    ap
      (λ m. m >>= λ ids. pure (record {
        inode_info = record { id = id; blocks_count = 1; is_file = is_file };
        block_ids = ids;
      }))
      (assign-pure zeros 0 b 0 (get_elem?-replicate {A = ℕ} s.fs_info.blocks_count_in_inode 0 0 l))

free_inode-pure :
    (s : Superblock) (id : ℕ)
    → get_elem? s.reserved_inodes_mask id ≡ some true
    → free_inode s id
      ≡ pure (id, record s { reserved_inodes_mask = set s.reserved_inodes_mask id false })
unfolding free_inode element ◌>>=◌
free_inode-pure s id e = rw (e, free_inode) refl

free_block-Returns :
    (s : Superblock) (b : ℕ)
    → get_elem? s.reserved_blocks_mask b ≡ some true
    → Returns (free_block s b)
unfolding free_block
free_block-Returns s b e =
    Returns-bind (Returns-element _ true e) (λ c. Returns-if c (Returns-pure _) (Returns-pure _))

module _ (s : Superblock) (v : IsValid s) (id b : ℕ)
    (i : get_elem? s.reserved_inodes_mask id ≡ some true)
    (k : get_elem? s.reserved_blocks_mask b ≡ some true) where
  give_back-Returns : Returns (give_back s id b)
  unfolding give_back ◌>>=◌ pure
  give_back-Returns =
      rw (free_inode-pure s id i) (Returns-bind (free_block-Returns _ b k) (λ t. Returns-pure _))

  write_new-Returns :
      (inode : Inode)
      → length inode.block_ids < 2 ^ 16
      → Returns (write_new (init_block s b id) inode s id b)
  unfolding write_new
  write_new-Returns inode l = Returns-bind (Returns-attempt (write_block-Settles s b id)) (λ x.
      Returns-option x give_back-Returns (λ _.
        Returns-bind (Returns-attempt (write_inode-Settles s inode l)) (λ y.
          Returns-option y give_back-Returns (λ _.
            Returns-bind (Returns-attempt (write_super_block-Settles s v))
              (λ z. Returns-option z give_back-Returns (λ _. Returns-pure _))))))

-- The masks of the superblock with an inode and a block taken.
module _ (s : Superblock) (v : IsValid s) (id b : ℕ)
    (i : first_free s.reserved_inodes_mask ≡ some id)
    (k : first_free s.reserved_blocks_mask ≡ some b) where
  make_file-Returns : 0 < s.fs_info.blocks_count_in_inode → Returns (make_file id b (taken s id b))
  unfolding ◌>>=◌ pure
  make_file-Returns l =
      let n = s.fs_info.blocks_count_in_inode in
      let z = length-set (replicate {A = ℕ} n 0) 0 b ∙ length-replicate {A = ℕ} n 0 in
      let r = v.info.blocks_count_in_inode in
      let taken_valid : IsValid (taken s id b) = record {
        info = v.info;
        inodes = length-set s.reserved_inodes_mask id true ∙ v.inodes;
        blocks = length-set s.reserved_blocks_mask b true ∙ v.blocks;
      } in
      rw (new_inode_lem (taken s id b) id b true l) (
        write_new-Returns (taken s id b) taken_valid id b (reserved s.reserved_inodes_mask id i)
          (reserved s.reserved_blocks_mask b k) (fresh_inode s id b true) (omega arith))

create_file_helper-Returns :
    (s : Superblock) (parent : ℕ)
    → IsValid s
    → 0 < s.fs_info.blocks_count_in_inode
    → Returns (create_file_helper s parent)
unfolding create_file_helper reserve_inode reserve_block
create_file_helper-Returns s parent v slots =
    elim (Option-cases (first_free s.reserved_inodes_mask)) [
      | inl n ↦
          rw (n, reserve_inode, eq→== s.fs_info.inodes_count s.fs_info.inodes_count refl)
            (Returns-pure _)
      | inr (id, i) ↦
          let l = mask_bound s.reserved_inodes_mask id i in
          let w = v.inodes in
          rw (i, reserve_inode, ne→== id s.fs_info.inodes_count (omega arith))
            (elim (Option-cases (first_free s.reserved_blocks_mask)) [
              | inl n ↦
                  rw (n, reserve_block, eq→== s.fs_info.blocks_count s.fs_info.blocks_count refl)
                    (Returns-bind
                      (subst Returns
                        (sym (free_inode-pure _ id (reserved s.reserved_inodes_mask id i)))
                        (Returns-pure _))
                      (λ r. Returns-pure _))
              | inr (b, j) ↦
                  let m = mask_bound s.reserved_blocks_mask b j in
                  let x = v.blocks in
                  rw (j, reserve_block, ne→== b s.fs_info.blocks_count (omega arith))
                    (make_file-Returns s v id b i j slots)
            ])
    ]

-- Whatever the host answers, on a valid superblock whose inodes have a slot for a block,
-- create_file_helper returns, if the transfer loops have 2^18 rounds: inodes_count with the
-- superblock as it was, or the first free inode with the superblock that has this inode and the
-- first free block reserved and no other change.
pub create_file_helper_lem :
    (s : Superblock) (parent : ℕ) (h : Host) (w : World)
    → IsValid s
    → 0 < s.fs_info.blocks_count_in_inode
    → 2 ^ 18 ≤ h.rounds
    → (r : ℕ × Superblock) × ((create_file_helper s parent h w).0 ≡ ok r) × AllOrNothing s r
create_file_helper_lem s parent h w v slots rounds =
    let (r, e) = (create_file_helper-Returns s parent v slots).at h w rounds in
    (r, e, (create_file_helper-AllOrNothing s parent v).at h w r e)
