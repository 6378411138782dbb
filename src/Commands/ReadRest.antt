-- ===== src/Commands/ReadRest.antt =====
-- read_file of more than is left of the data, where they end before the first block does.
use ext.Base.{
  ℕ, zero, suc, ◌+◌, ◌-◌, ◌%◌, ◌^◌, ◌<◌, ◌≤◌, ◌≡◌, refl, sym, [], ◌∷◌, ◌++◌, length, min, true,
  false, arith, ne→==, ltb, ◌⊎◌, inl, inr, subst, ◌==◌, if◌then◌else◌,
}
use ext.Base.Image.{Bytes, read_at}
use ext.Os.{Host, File, pure, IsSteady, ◌>>=◌}
use ext.Os.Ends.{Ends, Ends-pure, Ends-bind, Ends-attempt, Ends-element, Ends-assign, Ends-if_false}
use ext.Superblock.{Superblock}
use ext.Descriptors.{DescriptorsTable}
use ext.Inode.{Inode}
use ext.Inode.Store.{read_inode-Ends}
use ext.Block.{
  block_offset, max_size_of_data, get_max_data_in_block, get_max_data_size_of_all_blocks,
}
use ext.Block.Sizes.{max_data}
use ext.Block.Store.{file_block, reloaded, read_block-file_block}
use ext.Commands.Fresh.{open_fs-Ends}
use ext.Commands.Keep.{with_table, moved, table_or_exit-Ends, save_table-Ends}
use ext.Commands.OneBlock.{HasFile, HasFile-table}
use ext.Commands.ReadOne.{read_at-reloaded}
use ext.Commands.Transfer.{get_data, read_blocks, read_file, block_or_exit, inode_or_exit}
use ext.Commands.WriteOne.{capacity, place_of_lem, length-reloaded}
use ext.Commands.WriteFile.{IsOpen, moved-IsValid}

at_or_before : (pos n : ℕ) → pos ≤ n → (pos ≡ n) ⊎ (pos < n)
at_or_before pos n l = ground arith

read_at-nil : (p : ℕ) (contents : Bytes) → read_at p 0 contents ≡ []
unfolding read_at
read_at-nil zero [] = refl
read_at-nil zero (x ∷ contents) = refl
read_at-nil (suc p) [] = refl
read_at-nil (suc p) (x ∷ contents) = read_at-nil p contents

module _ {h : Host} (k : IsSteady h) (s : Superblock) (t : DescriptorsTable) (f : File) (i : Inode)
    (b n : ℕ) (contents : Bytes) (file : HasFile s t f.bytes i b n contents)
    (ends_inside : n < max_size_of_data s) where
  small : (max_size_of_data s < 2 ^ 16) × (get_max_data_in_block s ≡ max_size_of_data s)
  small =
      let m = max_data s file.has.valid.info file.room in
      let r = file.has.valid.info.block_size in omega arith

  -- A round at a position in the data or behind them.
  round-Ends :
      (fuel need pos p q : ℕ) (dest : Bytes) (a : ℕ × Bytes)
      → pos ≤ n
      → Ends h
          (if (n + 2 ^ 32 - pos) % 2 ^ 32 == 0 then pure (pos, dest) else (do
            chunk ←
                get_data pos
                  (min (suc need) ((n + 2 ^ 32 - pos) % 2 ^ 32))
                  (file_block b i.inode_info.id n (reloaded s n contents))
            read_blocks fuel
                (suc need - min (suc need) ((n + 2 ^ 32 - pos) % 2 ^ 32))
                ((pos + min (suc need) ((n + 2 ^ 32 - pos) % 2 ^ 32)) % 2 ^ 32)
                (dest ++ chunk)
                i
                s))
          (record f { pos = block_offset s b + (7 + n) })
          a
          (record f { pos = q })
      → Ends h
          (read_blocks (suc fuel) (suc need) pos dest i s)
          (record f { pos = p })
          a
          (record f { pos = q })
  unfolding read_blocks block_or_exit
  round-Ends fuel need pos p q dest a l rest =
      let (l0, l1) = file.within in
      let z = small in
      let r = file.has.valid.info.block_size in
      let some = file.some_block in
      let few : ltb i.inode_info.blocks_count 0 ≡ false = ground arith in
      rw (place_of_lem s pos r (omega arith) (omega arith)) (
        Ends-bind _ _ (Ends-pure (0, pos) _) (
          Ends-if_false _ _ few (
            Ends-bind _ _ (Ends-element _ b _ file.slot) (
              Ends-bind _ _
                (Ends-bind _ _
                  (Ends-attempt (
                    read_block-file_block k s b i.inode_info.id n contents _ l0 l1 file.ranges
                      file.block_there))
                  (Ends-pure _ _))
                rest))))

  abbrev behind_data : ℕ
  behind_data = block_offset s b + (7 + n)

  -- Nothing is left.
  at_end :
      (fuel need p : ℕ) (dest : Bytes)
      → Ends h
          (read_blocks (suc fuel) (suc need) n dest i s)
          (record f { pos = p })
          (n, dest)
          (record f { pos = behind_data })
  at_end fuel need p dest =
      let none_left : (n + 2 ^ 32 - n) % 2 ^ 32 ≡ 0 = omega arith in
      round-Ends fuel need n p behind_data dest (n, dest) (omega arith)
        (rw none_left (Ends-pure (n, dest) _))

  before_end :
      (fuel need pos p : ℕ)
      → pos < n
      → n - pos ≤ need
      → Ends h
          (read_blocks (suc (suc fuel)) (suc need) pos [] i s)
          (record f { pos = p })
          (n, read_at pos (n - pos) contents)
          (record f { pos = behind_data })
  unfolding get_data
  before_end fuel need pos p l m =
      let (l0, l1) = file.within in
      let size = length-reloaded s n contents l0 l1 in
      let z = small in
      let remain : (n + 2 ^ 32 - pos) % 2 ^ 32 ≡ n - pos = omega arith in
      let part : min (suc need) (n - pos) ≡ n - pos = omega arith in
      let end : (pos + (n - pos)) % 2 ^ 32 ≡ n = omega arith in
      let left : suc need - (n - pos) ≡ suc (need - (n - pos)) = omega arith in
      let inside : ltb (length (reloaded s n contents)) (pos + (n - pos)) ≡ false = ground arith in
      round-Ends (suc fuel) need pos p behind_data [] _ (omega arith) (
        rw
          (
            remain,
            part,
            end,
            left,
            inside,
            ne→== (n - pos) 0 (omega arith),
            read_at-reloaded s pos (n - pos) n contents (omega arith) l0,
          )
          (Ends-bind _ _ (Ends-pure _ _) (at_end fuel (need - (n - pos)) _ _)))

  rest-Ends :
      (m pos p : ℕ)
      → pos ≤ n
      → n - pos ≤ m
      → Ends h
          (read_blocks (suc m) (suc m) pos [] i s)
          (record f { pos = p })
          (n, read_at pos (n - pos) contents)
          (record f { pos = behind_data })
  rest-Ends m pos p l e = elim (at_or_before pos n l) [
    | inl same ↦
        let nothing : n - pos ≡ 0 = omega arith in
        rw (nothing, read_at-nil pos contents, same) (at_end m m p [])
    | inr before ↦
        let again : m ≡ suc (m - 1) = omega arith in
        subst
          (λ fuel.
            Ends h (read_blocks (suc fuel) (suc m) pos [] i s) (record f { pos = p })
              (n, read_at pos (n - pos) contents) (record f { pos = behind_data }))
          (sym again) (before_end (m - 1) m pos p before e)
  ]

  module _ (fd pos : ℕ) (is_open : IsOpen t fd i.inode_info.id pos) (size : ℕ) (le : pos ≤ n)
      (beyond : n - pos < size) where
    abbrev pub after_read_rest : File
    after_read_rest = with_table s (moved t fd n) (record f { pos = behind_data })

    -- Under a host that fails no call, for a file that has a valid superblock with the magic
    -- number, a reserved root, a valid table behind it, and a valid inode whose first block is
    -- there with its data, which end before the block does, if the sizes do not wrap and a block
    -- has room for the struct block_info, and if the descriptor is open on that inode at a
    -- position in the data or at their end: read_file of more than the data from there on gives
    -- these data, and the file then has the same superblock, inode and block, and the table in
    -- which the position of the descriptor is behind the data.
    pub read_rest_lem :
        Ends h (read_file fd size) f (read_at pos (n - pos) contents) after_read_rest
        × HasFile s (moved t fd n) after_read_rest.bytes i b n contents
    unfolding read_file inode_or_exit
    read_rest_lem =
        let has = file.has in
        let z = small in
        let some = file.some_block in
        let v = moved-IsValid s t fd n has.table_valid (omega arith) in
        let cap =
          capacity s has.valid.info.blocks_count_in_inode (omega (arith, file.valid.blocks_count))
            (omega arith) in
        let capped = min size (get_max_data_size_of_all_blocks s) in
        let again : capped ≡ suc (capped - 1) = omega arith in
        (
          Ends-bind _ _ (open_fs-Ends k s f has.valid has.magic has.root has.superblock_there) (
              Ends-bind _ _ (table_or_exit-Ends k s t _ has) (
                Ends-bind _ _ (Ends-element _ true _ is_open.reserved) (
                  Ends-bind _ _ (Ends-element _ pos _ is_open.position) (
                    Ends-bind _ _ (Ends-element _ i.inode_info.id _ is_open.inode_there) (
                      Ends-bind _ _
                        (Ends-bind _ _
                          (Ends-attempt
                            (read_inode-Ends k s i i.inode_info.id _ file.valid file.inode_there))
                          (Ends-pure i _))
                        (rw again (
                          Ends-bind _ _ (rest-Ends (capped - 1) pos _ le (omega arith)) (
                            Ends-bind _ _ (Ends-assign t.fd_to_position fd n pos _ is_open.position)
                              (Ends-bind _ _
                                (save_table-Ends k s (moved t fd n) _ v
                                  has.valid.info.descriptors_count)
                                (Ends-pure _ _)))))))))),
          HasFile-table s t f.bytes i b n contents file (moved t fd n) f.pos v,
        )
