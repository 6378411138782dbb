-- ===== src/Commands/ReadOne.antt =====
-- read_file where the data lie in the first block of the file.
use ext.Base.{
  ℕ, zero, suc, ◌+◌, ◌-◌, ◌%◌, ◌^◌, ◌<◌, ◌≤◌, ◌≡◌, refl, sym, ◌∙◌, ap, [], ◌∷◌, ◌++◌, length, take,
  drop, min, true, false, length-take, replicate, take-append-drop, arith, ne→==, ltb,
}
use ext.Base.Image.{Bytes, read_at}
use ext.Os.{Host, File, IsSteady}
use ext.Os.Ends.{Ends, Ends-pure, Ends-bind, Ends-attempt, Ends-element, Ends-assign, Ends-if_false}
use ext.Superblock.{Superblock}
use ext.Descriptors.{DescriptorsTable}
use ext.Inode.{Inode}
use ext.Inode.Store.{read_inode-Ends}
use ext.Block.{
  block_offset, max_size_of_data, get_max_data_in_block, get_max_data_size_of_all_blocks,
}
use ext.Block.Sizes.{max_data}
use ext.Block.Store.{file_block, reloaded, read_block-file_block}
use ext.Commands.Fresh.{open_fs-Ends}
use ext.Commands.Keep.{with_table, moved, table_or_exit-Ends, save_table-Ends}
use ext.Commands.OneBlock.{HasFile, HasFile-table}
use ext.Commands.Transfer.{get_data, read_blocks, read_file, block_or_exit, inode_or_exit}
use ext.Commands.WriteOne.{capacity, place_of_lem, length-reloaded}
use ext.Commands.WriteFile.{IsOpen, moved-IsValid}

-- What lies in the front part does not depend on the rest.
read_at-front :
    (p n : ℕ) (xs ys : Bytes) → p + n ≤ length xs → read_at p n (xs ++ ys) ≡ read_at p n xs
unfolding read_at
read_at-front zero zero xs ys l = refl
read_at-front zero (suc n) [] ys l = absurd (omega arith)
read_at-front zero (suc n) (x ∷ xs) ys l =
    ap (λ r. x ∷ r) (unfold read_at in read_at-front zero n xs ys (omega arith))
read_at-front (suc p) n [] ys l = absurd (omega arith)
read_at-front (suc p) n (x ∷ xs) ys l = read_at-front p n xs ys (omega arith)

pub read_at-reloaded :
    (s : Superblock) (p m n : ℕ) (contents : Bytes)
    → p + m ≤ n
    → n ≤ length contents
    → read_at p m (reloaded s n contents) ≡ read_at p m contents
read_at-reloaded s p m n contents l k =
    let size = length-take n contents in
    read_at-front p m (take n contents) (replicate {A = ℕ} (max_size_of_data s - n) 0) (omega arith)
    ∙ sym (read_at-front p m (take n contents) (drop n contents) (omega arith))
    ∙ ap (read_at p m) (take-append-drop n contents)

module _ {h : Host} (k : IsSteady h) (s : Superblock) (t : DescriptorsTable) (f : File) (i : Inode)
    (b n : ℕ) (contents : Bytes) (file : HasFile s t f.bytes i b n contents) (pos need : ℕ)
    (inside : pos + suc need ≤ n) where
  small : (max_size_of_data s < 2 ^ 16) × (get_max_data_in_block s ≡ max_size_of_data s)
  small =
      let m = max_data s file.has.valid.info file.room in
      let r = file.has.valid.info.block_size in omega arith

  get_data-Ends :
      (m : ℕ) (g : File)
      → m ≡ suc need
      → Ends h
          (get_data pos m (file_block b i.inode_info.id n (reloaded s n contents)))
          g
          (read_at pos (suc need) contents)
          g
  unfolding get_data
  get_data-Ends m g e =
      let (l0, l1) = file.within in
      let size = length-reloaded s n contents l0 l1 in
      let z = small in
      let big : ltb (length (reloaded s n contents)) (pos + suc need) ≡ false = ground arith in
      rw (e, big, read_at-reloaded s pos (suc need) n contents inside l0) (Ends-pure _ g)

  none_left :
      (m fuel : ℕ) (chunk : Bytes) (g : File)
      → m ≡ suc need
      → Ends h
          (read_blocks fuel (suc need - m) ((pos + m) % 2 ^ 32) chunk i s)
          g
          (pos + suc need, chunk)
          g
  unfolding read_blocks
  none_left m fuel chunk g e =
      let (l0, l1) = file.within in
      let z = small in
      let wrap : (pos + suc need) % 2 ^ 32 ≡ pos + suc need = omega arith in
      let left : suc need - suc need ≡ 0 = omega arith in
      rw (e, left, wrap) (elim fuel [ zero ↦ Ends-pure _ g | suc y ↦ Ends-pure _ g ])

  read_blocks-Ends :
      (fuel p : ℕ)
      → Ends h
          (read_blocks (suc fuel) (suc need) pos [] i s)
          (record f { pos = p })
          (pos + suc need, read_at pos (suc need) contents)
          (record f { pos = block_offset s b + (7 + n) })
  unfolding read_blocks block_or_exit
  read_blocks-Ends fuel p =
      let (l0, l1) = file.within in
      let z = small in
      let r = file.has.valid.info.block_size in
      let some = file.some_block in
      let remain : (n + 2 ^ 32 - pos) % 2 ^ 32 ≡ n - pos = omega arith in
      let size : min (suc need) (n - pos) ≡ suc need = omega arith in
      let few : ltb i.inode_info.blocks_count 0 ≡ false = ground arith in
      rw (place_of_lem s pos r (omega arith) (omega arith)) (
        Ends-bind _ _ (Ends-pure (0, pos) _) (
          Ends-if_false _ _ few (
            Ends-bind _ _ (Ends-element _ b _ file.slot) (
              Ends-bind _ _
                (Ends-bind _ _
                  (Ends-attempt (
                    read_block-file_block k s b i.inode_info.id n contents _ l0 l1 file.ranges
                      file.block_there))
                  (Ends-pure _ _))
                (rw (remain, ne→== (n - pos) 0 (omega arith))
                  (Ends-bind _ _ (get_data-Ends _ _ size) (none_left _ fuel _ _ size)))))))

  module _ (fd : ℕ) (is_open : IsOpen t fd i.inode_info.id pos) where
    abbrev pub after_read_file : File
    after_read_file =
        with_table s (moved t fd (pos + suc need)) (record f { pos = block_offset s b + (7 + n) })

    -- Under a host that fails no call, for a file that has a valid superblock with the magic
    -- number, a reserved root, a valid table behind it, and a valid inode whose first block is
    -- there with its data, if the sizes do not wrap and a block has room for the struct
    -- block_info, and if the descriptor is open on that inode at a position: read_file of at least
    -- a byte that ends inside the data of the first block gives the bytes at the position, and the
    -- file then has the same superblock, inode and block, and the table in which the position of
    -- the descriptor is behind what was read.
    pub read_file_lem :
        Ends h (read_file fd (suc need)) f (read_at pos (suc need) contents) after_read_file
        × HasFile s (moved t fd (pos + suc need)) after_read_file.bytes i b n contents
    unfolding read_file inode_or_exit
    read_file_lem =
        let has = file.has in
        let (l0, l1) = file.within in
        let m = small in
        let some = file.some_block in
        let v = moved-IsValid s t fd (pos + suc need) has.table_valid (omega arith) in
        let cap =
          capacity s has.valid.info.blocks_count_in_inode (omega (arith, file.valid.blocks_count))
            (omega arith) in
        let all : min (suc need) (get_max_data_size_of_all_blocks s) ≡ suc need = omega arith in
        (
          Ends-bind _ _ (open_fs-Ends k s f has.valid has.magic has.root has.superblock_there) (
              Ends-bind _ _ (table_or_exit-Ends k s t _ has) (
                Ends-bind _ _ (Ends-element _ true _ is_open.reserved) (
                  Ends-bind _ _ (Ends-element _ pos _ is_open.position) (
                    Ends-bind _ _ (Ends-element _ i.inode_info.id _ is_open.inode_there) (
                      Ends-bind _ _
                        (Ends-bind _ _
                          (Ends-attempt
                            (read_inode-Ends k s i i.inode_info.id _ file.valid file.inode_there))
                          (Ends-pure i _))
                        (rw all (
                          Ends-bind _ _ (read_blocks-Ends need _) (
                            Ends-bind _ _
                              (Ends-assign t.fd_to_position fd (pos + suc need) pos _
                                is_open.position)
                              (Ends-bind _ _
                                (save_table-Ends k s (moved t fd (pos + suc need)) _ v
                                  has.valid.info.descriptors_count)
                                (Ends-pure _ _)))))))))),
          HasFile-table s t f.bytes i b n contents file (moved t fd (pos + suc need)) f.pos v,
        )
