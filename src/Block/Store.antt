-- ===== src/Block/Store.antt =====
-- A block in the file: write_block and read_block, for blocks of records and for blocks of data.
use ext.Base.{
  ℕ, zero, suc, ◌+◌, ◌-◌, ◌*◌, ◌^◌, ◌≤◌, ◌≡◌, refl, sym, subst, List, [], ◌∷◌, ◌++◌, none, some,
  length, length-take, take-take, take, replicate, arith, All, ltb, ◌==◌, Bool-cases, inl, inr,
  if◌then◌else◌, false,
}
use ext.Base.Holds.{Holds, Holds-append, Holds-take}
use ext.Base.Image.{Bytes}
use ext.Base.Words.{IsU8, IsU16}
use ext.Os.{Host, File, pure, IsSteady}
use ext.Os.Ends.{Ends, Ends-pure, Ends-bind, Ends-lseek}
use ext.Utils.{write_while}
use ext.Utils.Read.{read_while-Holds, fill_while-Ends}
use ext.Utils.Write.{after_write, after_write-append, after_write-nil, write_while-Ends}
use ext.Superblock.{Superblock}
use ext.Block.{
  BlockRecord, BlockInfo, Block, read_block, write_block, read_contents, write_contents,
  block_offset, sizeof_block_record, bytes_of_block_info, block_info_of_bytes, max_size_of_data,
}
use ext.Block.Records.{IsRecord, bytes_of_records, write_records-Ends, read_records-Ends}

-- A block of the records `rs`, and a block of `size` bytes of data.
abbrev pub directory : Superblock → ℕ → ℕ → List BlockRecord → Block
directory s block_id inode_id rs = record {
  block_info = record {
    block_id = block_id;
    inode_id = inode_id;
    records_count = length rs;
    data_size = 0;
  };
  block_records = some rs;
  contents = replicate (max_size_of_data s) 0;
}

abbrev pub file_block : ℕ → ℕ → ℕ → Bytes → Block
file_block block_id inode_id size contents = record {
  block_info = record {
    block_id = block_id;
    inode_id = inode_id;
    records_count = 0;
    data_size = size;
  };
  block_records = none;
  contents = contents;
}

pub record InRange (i : BlockInfo) : Type 0 where
  pub block_id : IsU16 i.block_id
  pub inode_id : IsU16 i.inode_id
  pub records_count : IsU8 i.records_count
  pub data_size : IsU16 i.data_size

block_info_round : (i : BlockInfo) → InRange i → block_info_of_bytes (bytes_of_block_info i) ≡ i
unfolding block_info_of_bytes bytes_of_block_info
block_info_round i r = ground arith

pub length-bytes_of_block_info : (i : BlockInfo) → length (bytes_of_block_info i) ≡ 7
unfolding bytes_of_block_info
length-bytes_of_block_info i = refl

-- The bytes of a block of data behind its struct block_info.
unfoldable pub bytes_of_data : Superblock → ℕ → Bytes → Bytes
bytes_of_data s size contents = if size == 0 then [] else take (max_size_of_data s) contents

-- The data that read_block returns: data_size bytes, and zeros behind them.
abbrev pub reloaded : Superblock → ℕ → Bytes → Bytes
reloaded s size contents = take size contents ++ replicate (max_size_of_data s - size) 0

suc_is_not_zero : (n : ℕ) → (suc n == 0) ≡ false
suc_is_not_zero n = ground arith

fits : (n m : ℕ) → m ≤ n → ltb n m ≡ false
fits n m l = ground arith

module _ {h : Host} (k : IsSteady h) (s : Superblock) where
  write_info :
      (i : BlockInfo) (f : File)
      → Ends h (write_while (bytes_of_block_info i)) f 7 (after_write f (bytes_of_block_info i))
  write_info i f =
      let size = length-bytes_of_block_info i in
      subst
        (λ n.
          Ends h (write_while (bytes_of_block_info i)) f n (after_write f (bytes_of_block_info i)))
        size (write_while-Ends k (bytes_of_block_info i) f (omega arith))

  write_file_contents :
      (block_id inode_id size : ℕ) (contents : Bytes) (f : File)
      → length contents ≤ 2 ^ 17
      → Ends h
          (write_contents (file_block block_id inode_id size contents) s 7)
          f
          (7 + length (bytes_of_data s size contents))
          (after_write f (bytes_of_data s size contents))
  unfolding write_contents bytes_of_data
  write_file_contents block_id inode_id size contents f l =
      let part = length-take (max_size_of_data s) contents in
      elim (Bool-cases (size == 0)) [
        | inl e ↦
            rw e
              (subst (λ g. Ends {A = ℕ} h (pure 7) f 7 g) (sym (after_write-nil f)) (Ends-pure 7 f))
        | inr e ↦ rw e (
            Ends-bind _ _ (write_while-Ends k (take (max_size_of_data s) contents) f (omega arith))
              (Ends-pure _ _))
      ]

  -- write_block puts the struct block_info at the offset of the block, and behind it
  -- max_size_of_data bytes of the data, or none if the data size is 0.
  pub write_block-file_block :
      (block_id inode_id size : ℕ) (contents : Bytes) (f : File)
      → length contents ≤ 2 ^ 17
      → let b = file_block block_id inode_id size contents in
        Ends h (write_block b s) f (7 + length (bytes_of_data s size contents)) (
          after_write
            (record f { pos = block_offset s block_id })
            (bytes_of_block_info b.block_info ++ bytes_of_data s size contents))
  unfolding write_block
  write_block-file_block block_id inode_id size contents f l =
      let b = file_block block_id inode_id size contents in
      let start : File = record f { pos = block_offset s block_id } in
      let info = bytes_of_block_info b.block_info in
      subst (λ g. Ends h (write_block b s) f (7 + length (bytes_of_data s size contents)) g)
        (after_write-append start info (bytes_of_data s size contents))
        (Ends-bind _ _ (Ends-lseek (block_offset s block_id) f) (
          Ends-bind _ _ (write_info b.block_info start)
            (write_file_contents block_id inode_id size contents (after_write start info) l)))

  -- write_block puts the struct block_info and the records at the offset of the block.
  pub write_block-directory :
      (block_id inode_id : ℕ) (r : BlockRecord) (rs : List BlockRecord) (f : File)
      → IsU16 s.fs_info.max_path_len
      → All (IsRecord s) (r ∷ rs)
      → let b = directory s block_id inode_id (r ∷ rs) in
        Ends h (write_block b s) f (7 + length (r ∷ rs) * sizeof_block_record s) (
          after_write
            (record f { pos = block_offset s block_id })
            (bytes_of_block_info b.block_info ++ bytes_of_records (r ∷ rs)))
  unfolding write_block
  write_block-directory block_id inode_id r rs f m v =
      let b = directory s block_id inode_id (r ∷ rs) in
      let start : File = record f { pos = block_offset s block_id } in
      let info = bytes_of_block_info b.block_info in
      subst (λ g. Ends h (write_block b s) f (7 + length (r ∷ rs) * sizeof_block_record s) g)
        (after_write-append start info (bytes_of_records (r ∷ rs)))
        (Ends-bind _ _ (Ends-lseek (block_offset s block_id) f) (
          Ends-bind _ _ (write_info b.block_info start) (
            rw suc_is_not_zero (
              Ends-bind _ _ (write_records-Ends k s m (r ∷ rs) (after_write start info) v)
                (Ends-pure _ _)))))

  -- read_block reads back a block of records of which the bytes are at the offset of the block.
  pub read_block-directory :
      (block_id inode_id : ℕ) (r : BlockRecord) (rs : List BlockRecord) (f : File)
      → IsU16 s.fs_info.max_path_len
      → All (IsRecord s) (r ∷ rs)
      → let b = directory s block_id inode_id (r ∷ rs) in
        InRange b.block_info
        → Holds f.bytes
            (block_offset s block_id)
            (bytes_of_block_info b.block_info ++ bytes_of_records (r ∷ rs))
        → Ends h (read_block block_id s) f b (record f {
          pos = block_offset s block_id + (7 + length (r ∷ rs) * sizeof_block_record s);
        })
  unfolding read_block
  read_block-directory block_id inode_id r rs f m v i d =
      let b = directory s block_id inode_id (r ∷ rs) in
      let p = block_offset s block_id in
      let info = bytes_of_block_info b.block_info in
      let (d0, d1) = Holds-append f.bytes p info (bytes_of_records (r ∷ rs)) d in
      let size = length-bytes_of_block_info b.block_info in
      let d2 =
        subst (λ x. Holds f.bytes x (bytes_of_records (r ∷ rs))) {y = p + 7} (omega arith) d1 in
      Ends-bind _ _ (Ends-lseek p f) (
        Ends-bind _ _ (read_while-Holds k 7 p (p + 7) info f.bytes (sym size) refl (omega arith) d0)
          (rw (block_info_round b.block_info i) (
            rw suc_is_not_zero (
              Ends-bind _ _
                (read_records-Ends k s m (r ∷ rs) (p + 7)
                  (p + (7 + length (r ∷ rs) * sizeof_block_record s)) f.bytes v (omega arith) d2)
                (Ends-pure _ _)))))

  read_file_contents :
      (block_id inode_id size : ℕ) (contents : Bytes) (p q : ℕ) (file : Bytes)
      → size ≤ length contents
      → size ≤ max_size_of_data s
      → IsU16 size
      → p + size ≡ q
      → Holds file p (bytes_of_data s size contents)
      → Ends h
          (read_contents (file_block block_id inode_id size contents).block_info s)
          (record { bytes = file; pos = p })
          (file_block block_id inode_id size (reloaded s size contents))
          (record { bytes = file; pos = q })
  unfolding read_contents bytes_of_data
  read_file_contents block_id inode_id zero contents p q file l m u e d =
      let n : max_size_of_data s - 0 ≡ max_size_of_data s = omega arith in
      let e' : p ≡ q = omega arith in rw (n, ← e') (Ends-pure _ _)
  read_file_contents block_id inode_id (suc n) contents p q file l m u e d =
      let part = length-take (suc n) contents in
      let all = Holds-take file p (suc n) _ (rw suc_is_not_zero at d) in
      let bytes = subst (Holds file p) (take-take (suc n) (max_size_of_data s) contents m) all in
      rw (suc_is_not_zero n, fits (max_size_of_data s) (suc n) m)
        (Ends-bind _ _
          (fill_while-Ends (suc n) (take (suc n) contents) _ _ (
            read_while-Holds k (suc n) p q (take (suc n) contents) file (omega arith) e
              (omega arith) bytes))
          (let full : length (take (suc n) contents) ≡ suc n = omega arith in
            rw full (Ends-pure _ _)))

  -- read_block reads back a block of data, up to data_size.
  pub read_block-file_block :
      (block_id inode_id size : ℕ) (contents : Bytes) (f : File)
      → size ≤ length contents
      → size ≤ max_size_of_data s
      → let b = file_block block_id inode_id size contents in
        InRange b.block_info
        → Holds f.bytes
            (block_offset s block_id)
            (bytes_of_block_info b.block_info ++ bytes_of_data s size contents)
        → Ends h
            (read_block block_id s)
            f
            (file_block block_id inode_id size (reloaded s size contents))
            (record f { pos = block_offset s block_id + (7 + size) })
  unfolding read_block
  read_block-file_block block_id inode_id size contents f l m i d =
      let b = file_block block_id inode_id size contents in
      let p = block_offset s block_id in
      let info = bytes_of_block_info b.block_info in
      let (d0, d1) = Holds-append f.bytes p info (bytes_of_data s size contents) d in
      let length_info = length-bytes_of_block_info b.block_info in
      let d2 =
        subst (λ x. Holds f.bytes x (bytes_of_data s size contents)) {y = p + 7} (omega arith) d1 in
      Ends-bind _ _ (Ends-lseek p f) (
        Ends-bind _ _
          (read_while-Holds k 7 p (p + 7) info f.bytes (sym length_info) refl (omega arith) d0)
          (rw (block_info_round b.block_info i) (
            read_file_contents block_id inode_id size contents (p + 7) (p + (7 + size)) f.bytes l m
              i.data_size (omega arith) d2)))
