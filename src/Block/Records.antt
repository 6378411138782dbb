-- ===== src/Block/Records.antt =====
-- Directory records in the file: the loops of write_block and read_block over them.
use ext.Base.{
  ℕ, ◌+◌, ◌*◌, ◌≡◌, refl, sym, ◌∙◌, ap, subst, List, [], ◌∷◌, ◌++◌, length, length-append, take,
  take-all, arith, All,
}
use mathlib.Core.Path.{subst₂}
use ext.Base.Holds.{Holds, Holds-append}
use ext.Base.Image.{Bytes}
use ext.Base.Words.{IsU16, byte, u16_at}
use ext.Os.{Host, File, pure, IsSteady}
use ext.Os.Ends.{Ends, Ends-pure, Ends-bind, Ends-attempt}
use ext.Utils.Read.{read_while-Holds}
use ext.Utils.Write.{after_write, after_write-append, after_write-nil, write_two-Ends}
use ext.Superblock.{Superblock}
use ext.Block.{
  BlockRecord, read_block_record, write_block_record, read_records, write_records,
  sizeof_block_record,
}

-- A record whose path is an array of max_path_len bytes.
pub record IsRecord (superblock : Superblock) (r : BlockRecord) : Type 0 where
  pub inode_id : IsU16 r.inode_id
  pub path : length r.path ≡ superblock.fs_info.max_path_len

-- The bytes of a record in the file.
pub bytes_of_record : BlockRecord → Bytes
bytes_of_record r = (byte 0 r.inode_id ∷ byte 1 r.inode_id ∷ []) ++ r.path

unfoldable pub bytes_of_records : List BlockRecord → Bytes
bytes_of_records [] = []
bytes_of_records (r ∷ rs) = bytes_of_record r ++ bytes_of_records rs

length-bytes_of_record :
    (s : Superblock) (r : BlockRecord)
    → IsRecord s r
    → length (bytes_of_record r) ≡ sizeof_block_record s
unfolding bytes_of_record sizeof_block_record
length-bytes_of_record s r v = omega (arith, v.path)

pub length-bytes_of_records :
    (s : Superblock) (rs : List BlockRecord)
    → All (IsRecord s) rs
    → length (bytes_of_records rs) ≡ length rs * sizeof_block_record s
unfolding bytes_of_records
length-bytes_of_records s [] v = omega arith
length-bytes_of_records s (r ∷ rs) v = omega (
  arith,
  length-append (bytes_of_record r) (bytes_of_records rs),
  length-bytes_of_record s r v.0,
  length-bytes_of_records s rs v.1,
)

module _ {h : Host} (k : IsSteady h) (s : Superblock) (small : IsU16 s.fs_info.max_path_len) where
  write_block_record-Ends :
      (r : BlockRecord) (f : File)
      → IsRecord s r
      → Ends h
          (write_block_record r s)
          f
          (sizeof_block_record s)
          (after_write f (bytes_of_record r))
  unfolding write_block_record bytes_of_record sizeof_block_record
  write_block_record-Ends r f v =
      let vp = v.path in
      let whole = take-all s.fs_info.max_path_len r.path (omega arith) in
      subst₂
        (λ n bs.
          Ends h (write_block_record r s) f n
            (after_write f ((byte 0 r.inode_id ∷ byte 1 r.inode_id ∷ []) ++ bs)))
        {x = 2 + length (take s.fs_info.max_path_len r.path)}
        (ap (λ l. 2 + length l) whole ∙ ap (λ n. 2 + n) vp) whole
        (write_two-Ends k (byte 0 r.inode_id ∷ byte 1 r.inode_id ∷ [])
          (take s.fs_info.max_path_len r.path) f (omega arith)
          (omega (arith, ap (λ (l : Bytes). length l) whole)))

  pub write_records-Ends :
      (rs : List BlockRecord) (f : File)
      → All (IsRecord s) rs
      → Ends h
          (write_records (length rs) rs s)
          f
          (length rs * sizeof_block_record s)
          (after_write f (bytes_of_records rs))
  unfolding write_records bytes_of_records
  write_records-Ends [] f v =
      let z : 0 ≡ 0 * sizeof_block_record s = omega arith in
      subst₂ (λ n g. Ends h (pure 0) f n g) z (sym (after_write-nil f)) (Ends-pure 0 f)
  write_records-Ends (r ∷ rs) f v =
      subst₂ (λ n g. Ends h (write_records (length (r ∷ rs)) (r ∷ rs) s) f n g)
        {x = sizeof_block_record s + length rs * sizeof_block_record s} (omega arith)
        (after_write-append f (bytes_of_record r) (bytes_of_records rs))
        (Ends-bind _ _ (Ends-attempt (write_block_record-Ends r f v.0)) (
          Ends-bind _ _ (write_records-Ends rs (after_write f (bytes_of_record r)) v.1)
            (Ends-pure _ _)))

  same_record :
      (r : BlockRecord)
      → IsRecord s r
      → ◌≡◌ {A = BlockRecord}
          (record {
            inode_id = u16_at 0 (byte 0 r.inode_id ∷ byte 1 r.inode_id ∷ []);
            path = r.path;
          })
          r
  same_record r v = ground arith

  read_block_record-Ends :
      (r : BlockRecord) (p : ℕ) (file : Bytes)
      → IsRecord s r
      → Holds file p (bytes_of_record r)
      → Ends h
          (read_block_record s)
          (record { bytes = file; pos = p })
          r
          (record { bytes = file; pos = p + sizeof_block_record s })
  unfolding read_block_record bytes_of_record sizeof_block_record
  read_block_record-Ends r p file v d =
      let id = byte 0 r.inode_id ∷ byte 1 r.inode_id ∷ [] in
      let n = s.fs_info.max_path_len in
      let vp = v.path in
      let (d0, d1) = Holds-append file p id r.path d in
      subst
        (λ x.
          Ends h (read_block_record s) (record { bytes = file; pos = p }) x
            (record { bytes = file; pos = p + (2 + n) }))
        (same_record r v)
        (Ends-bind _ _ (read_while-Holds k 2 p (p + 2) id file refl refl (omega arith) d0) (
          Ends-bind _ _
            (read_while-Holds k n (p + 2) (p + (2 + n)) r.path file (sym vp) (omega arith)
              (omega arith) d1)
            (Ends-pure _ _)))

  pub read_records-Ends :
      (rs : List BlockRecord) (p q : ℕ) (file : Bytes)
      → All (IsRecord s) rs
      → p + length rs * sizeof_block_record s ≡ q
      → Holds file p (bytes_of_records rs)
      → Ends h
          (read_records (length rs) s)
          (record { bytes = file; pos = p })
          rs
          (record { bytes = file; pos = q })
  unfolding read_records bytes_of_records
  read_records-Ends [] p q file v e d =
      let e' : p ≡ q = omega arith in
      subst
        (λ x.
          Ends {A = List BlockRecord} h (pure []) (record { bytes = file; pos = p }) []
            (record { bytes = file; pos = x }))
        e' (Ends-pure [] _)
  read_records-Ends (r ∷ rs) p q file v e d =
      let (d0, d1) = Holds-append file p (bytes_of_record r) (bytes_of_records rs) d in
      let size = length-bytes_of_record s r v.0 in
      let d2 =
        subst (λ x. Holds file x (bytes_of_records rs)) {y = p + sizeof_block_record s}
          (omega arith) d1 in
      Ends-bind _ _ (Ends-attempt (read_block_record-Ends r p file v.0 d0)) (
        Ends-bind _ _ (read_records-Ends rs (p + sizeof_block_record s) q file v.1 (omega arith) d2)
          (Ends-pure _ _))
