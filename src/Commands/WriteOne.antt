-- ===== src/Commands/WriteOne.antt =====
-- write_to_file where the data fit into the first block of the file.
use ext.Base.{
  ℕ, zero, suc, ◌+◌, ◌*◌, ◌-◌, ◌%◌, ◌^◌, ◌<◌, ◌≤◌, ◌≡◌, refl, [], ◌∷◌, length, take, drop, min,
  false, length-append, length-take, length-replicate, take-all, replicate, arith, ne→==, lt→ltb,
  ltb,
}
use native.Mathlib.Nat.{div-eq_of_lt, mod-eq_of_lt, mul-le-mul, mul-le-mul_left}
use ext.Base.Image.{Bytes, write_at, length-write_at}
use ext.Base.Words.{IsU16}
use ext.Os.{Host, File, IsSteady, pure}
use ext.Os.Ends.{Ends, Ends-pure, Ends-bind, Ends-attempt, Ends-element, Ends-if_true}
use ext.Utils.Write.{after_write}
use ext.Superblock.{Superblock}
use ext.Descriptors.{DescriptorsTable}
use ext.Inode.{Inode}
use ext.Block.{
  block_offset, max_size_of_data, get_max_data_in_block, get_max_data_size_of_all_blocks,
}
use ext.Block.Sizes.{max_data}
use ext.Block.Store.{file_block, reloaded, read_block-file_block, write_block-file_block, InRange}
use ext.Commands.OneBlock.{HasFile, data_bytes}
use ext.Commands.Transfer.{place_of, put_data, block_or_exit, write_blocks, block_to_write}

pub place_of_lem :
    (s : Superblock) (pos : ℕ)
    → s.fs_info.block_size < 2 ^ 16
    → pos < get_max_data_in_block s
    → get_max_data_in_block s < 2 ^ 16
    → place_of pos s ≡ pure (0, pos)
unfolding place_of
place_of_lem s pos b l m =
    let wrap : pos % 2 ^ 16 ≡ pos = omega arith in
    rw (ne→== (get_max_data_in_block s) 0 (omega arith), wrap, div-eq_of_lt l, mod-eq_of_lt l) refl

pub length-reloaded :
    (s : Superblock) (n : ℕ) (contents : Bytes)
    → n ≤ length contents
    → n ≤ max_size_of_data s
    → length (reloaded s n contents) ≡ max_size_of_data s
length-reloaded s n contents l m =
    let a = length-append (take n contents) (replicate {A = ℕ} (max_size_of_data s - n) 0) in
    let c = length-take n contents in
    let r = length-replicate {A = ℕ} (max_size_of_data s - n) 0 in omega arith

small_product : (m n : ℕ) → 0 < n → n < 2 ^ 16 → m < 2 ^ 16 → m ≤ m * n % 2 ^ 32
small_product m n a b c =
    let one : 1 ≤ n = a in
    let m_most : m ≤ 2 ^ 16 - 1 = omega arith in
    let n_most : n ≤ 2 ^ 16 - 1 = omega arith in
    let least = mul-le-mul_left m one in let most = mul-le-mul m_most n_most in omega arith

-- The capacity of a file is not below that of a block.
pub capacity :
    (s : Superblock)
    → IsU16 s.fs_info.blocks_count_in_inode
    → 0 < s.fs_info.blocks_count_in_inode
    → get_max_data_in_block s < 2 ^ 16
    → get_max_data_in_block s ≤ get_max_data_size_of_all_blocks s
unfolding get_max_data_size_of_all_blocks
capacity s a b c = small_product _ _ b a c

drop_all : (xs : Bytes) → drop (length xs) xs ≡ []
drop_all [] = refl
drop_all (x ∷ xs) = drop_all xs

module _ (s : Superblock) (t : DescriptorsTable) (f : File) (i : Inode) (b n : ℕ) (contents : Bytes)
    (file : HasFile s t f.bytes i b n contents) (pos c : ℕ) (cs : Bytes)
    (inside : pos + length (c ∷ cs) ≤ max_size_of_data s) where
  -- The data of the block after the write.
  abbrev pub new_data : Bytes
  new_data = write_at pos (c ∷ cs) (reloaded s n contents)

  abbrev pub new_size : ℕ
  new_size = pos + length (c ∷ cs)

  pub length-new_data : length new_data ≡ max_size_of_data s
  length-new_data =
      let l = length-reloaded s n contents file.within.0 file.within.1 in
      let w = length-write_at pos (c ∷ cs) (reloaded s n contents) in omega arith

  pub max_is_small : (max_size_of_data s < 2 ^ 16) × (get_max_data_in_block s ≡ max_size_of_data s)
  max_is_small =
      let m = max_data s file.has.valid.info file.room in
      let r = file.has.valid.info.block_size in omega arith

  pub new_ranges : InRange (file_block b i.inode_info.id new_size new_data).block_info
  new_ranges =
      let m = max_is_small in
      record {
        block_id = file.ranges.block_id;
        inode_id = file.ranges.inode_id;
        records_count = file.ranges.records_count;
        data_size = omega arith;
      }

  pub new_within : (new_size ≤ length new_data) × (new_size ≤ max_size_of_data s)
  new_within = let l = length-new_data in (omega arith, inside)

  abbrev pub with_data : File
  with_data =
      after_write (record f { pos = block_offset s b })
        (data_bytes s b i.inode_info.id new_size new_data)

  put_data-Ends :
      {h : Host} (m : ℕ) (g : File)
      → m ≡ length (c ∷ cs)
      → Ends h
          (put_data pos (take m (c ∷ cs)) (file_block b i.inode_info.id n (reloaded s n contents)))
          g
          (file_block b i.inode_info.id new_size new_data)
          g
  unfolding put_data
  put_data-Ends m g e =
      let l = length-reloaded s n contents file.within.0 file.within.1 in
      let small = max_is_small in
      let wrap : (pos % 2 ^ 16 + length (c ∷ cs)) % 2 ^ 16 ≡ new_size = omega arith in
      let big : ltb (length (reloaded s n contents)) (pos + length (c ∷ cs)) ≡ false =
        ground arith in
      rw (take-all m (c ∷ cs) (omega arith), big, wrap) (Ends-pure _ g)

  -- Nothing is left to write.
  rest-Ends :
      {h : Host} (m fuel fd : ℕ) (g : File)
      → m ≡ length (c ∷ cs)
      → Ends h
          (write_blocks fuel fd i.inode_info.id t (drop m (c ∷ cs)) ((pos + m) % 2 ^ 32) i s)
          g
          (i, s, new_size)
          g
  unfolding write_blocks
  rest-Ends m fuel fd g e =
      let small = max_is_small in
      let wrap : (pos + length (c ∷ cs)) % 2 ^ 32 ≡ new_size = omega arith in
      rw (e, drop_all (c ∷ cs), wrap) (elim fuel [ zero ↦ Ends-pure _ g | suc z ↦ Ends-pure _ g ])

  pub write_blocks-Ends :
      {h : Host} (k : IsSteady h) (fuel fd p : ℕ)
      → Ends h
          (write_blocks (suc fuel) fd i.inode_info.id t (c ∷ cs) pos i s)
          (record f { pos = p })
          (i, s, new_size)
          with_data
  unfolding write_blocks block_to_write block_or_exit
  write_blocks-Ends k fuel fd p =
      let m = max_is_small in
      let r = file.has.valid.info.block_size in
      let some = file.some_block in
      let size : min (length (c ∷ cs)) (get_max_data_in_block s - pos) ≡ length (c ∷ cs) =
        omega arith in
      let l = length-new_data in
      rw (place_of_lem s pos r (omega arith) (omega arith)) (
        Ends-bind _ _ (Ends-pure (0, pos) _) (
          Ends-bind _ _
            (Ends-if_true _ _ (lt→ltb 0 i.inode_info.blocks_count some) (
              Ends-bind _ _ (Ends-element _ b _ file.slot) (
                Ends-bind _ _
                  (Ends-bind _ _
                    (Ends-attempt (
                      read_block-file_block k s b i.inode_info.id n contents _ file.within.0
                        file.within.1 file.ranges file.block_there))
                    (Ends-pure _ _))
                  (Ends-pure _ _))))
            (Ends-bind _ _ (put_data-Ends _ _ size) (
              Ends-bind _ _
                (Ends-attempt
                  (write_block-file_block k s b i.inode_info.id new_size new_data _ (omega arith)))
                (rest-Ends _ fuel fd _ size)))))
