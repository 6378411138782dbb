-- ===== src/Superblock/Store.antt =====
-- The superblock in the file: write_super_block and read_super_block.
use ext.Base.{◌+◌, ◌≡◌, refl, sym, ap, subst, ◌++◌, length, length-append, arith}
use ext.Base.Holds.{Holds, Holds-append}
use ext.Base.Image.{Bytes}
use ext.Base.Words.{
  bytes_of_bools, bools_of_bytes, bools_of_bytes-bytes_of_bools, length-bytes_of_bools,
}
use ext.Os.{Host, File, IsSteady}
use ext.Os.Ends.{Ends, Ends-pure, Ends-bind, Ends-lseek}
use ext.Utils.Read.{read_while-Holds}
use ext.Utils.Write.{after_write, write_three-Ends}
use ext.Superblock.{
  FsInfo, Superblock, bytes_of_info, info_of_bytes, read_super_block, write_super_block,
  sizeof_superblock,
}
use ext.Superblock.Bounds.{InRange, IsValid}

info_of_bytes-bytes_of_info : (i : FsInfo) → InRange i → info_of_bytes (bytes_of_info i) ≡ i
unfolding info_of_bytes bytes_of_info
info_of_bytes-bytes_of_info i r = ground arith

pub length-bytes_of_info : (i : FsInfo) → length (bytes_of_info i) ≡ 14
unfolding bytes_of_info
length-bytes_of_info i = refl

-- The bytes of a superblock in the file.
pub bytes_of_superblock : Superblock → Bytes
bytes_of_superblock s =
    bytes_of_info s.fs_info
    ++ (bytes_of_bools s.reserved_inodes_mask ++ bytes_of_bools s.reserved_blocks_mask)

pub length-bytes_of_superblock :
    (s : Superblock) → IsValid s → length (bytes_of_superblock s) ≡ sizeof_superblock s
unfolding bytes_of_superblock sizeof_superblock
length-bytes_of_superblock s v =
    let info = bytes_of_info s.fs_info in
    let inodes = bytes_of_bools s.reserved_inodes_mask in
    let blocks = bytes_of_bools s.reserved_blocks_mask in
    omega (
      arith,
      length-append info (inodes ++ blocks),
      length-append inodes blocks,
      length-bytes_of_info s.fs_info,
      length-bytes_of_bools s.reserved_inodes_mask,
      length-bytes_of_bools s.reserved_blocks_mask,
      v.inodes,
      v.blocks,
    )

pub write_super_block-Ends :
    {h : Host} (k : IsSteady h) (s : Superblock) (f : File)
    → IsValid s
    → Ends h
        (write_super_block s)
        f
        (sizeof_superblock s)
        (after_write (record f { pos = 0 }) (bytes_of_superblock s))
unfolding write_super_block bytes_of_superblock sizeof_superblock
write_super_block-Ends {h} k s f v =
    let info = bytes_of_info s.fs_info in
    let inodes = bytes_of_bools s.reserved_inodes_mask in
    let blocks = bytes_of_bools s.reserved_blocks_mask in
    let a = length-bytes_of_info s.fs_info in
    let b = length-bytes_of_bools s.reserved_inodes_mask in
    let c = length-bytes_of_bools s.reserved_blocks_mask in
    let size : length info + length inodes + length blocks ≡ sizeof_superblock s =
      omega (arith, a, b, c, v.inodes, v.blocks) in
    subst
      (λ n.
        Ends h (write_super_block s) f n
          (after_write (record f { pos = 0 }) (bytes_of_superblock s)))
      size
      (Ends-bind _ _ (Ends-lseek 0 f) (
        write_three-Ends k info inodes blocks (record f { pos = 0 }) (omega (arith, a))
          (omega (arith, b, v.inodes, v.info.inodes_count))
          (omega (arith, c, v.blocks, v.info.blocks_count))))

same_superblock :
    (s : Superblock)
    → IsValid s
    → ◌≡◌ {A = Superblock}
        (record {
          fs_info = info_of_bytes (bytes_of_info s.fs_info);
          reserved_inodes_mask = bools_of_bytes (bytes_of_bools s.reserved_inodes_mask);
          reserved_blocks_mask = bools_of_bytes (bytes_of_bools s.reserved_blocks_mask);
        })
        s
same_superblock s v = λ j. record {
  fs_info = info_of_bytes-bytes_of_info s.fs_info v.info j;
  reserved_inodes_mask = bools_of_bytes-bytes_of_bools s.reserved_inodes_mask j;
  reserved_blocks_mask = bools_of_bytes-bytes_of_bools s.reserved_blocks_mask j;
}

pub read_super_block-Ends :
    {h : Host} (k : IsSteady h) (s : Superblock) (f : File)
    → IsValid s
    → Holds f.bytes 0 (bytes_of_superblock s)
    → Ends h read_super_block f s (record f { pos = sizeof_superblock s })
unfolding read_super_block bytes_of_superblock sizeof_superblock bytes_of_info
read_super_block-Ends {h} k s f v d =
    let i = s.fs_info in
    let info = bytes_of_info i in
    let inodes = bytes_of_bools s.reserved_inodes_mask in
    let blocks = bytes_of_bools s.reserved_blocks_mask in
    let a = length-bytes_of_info i in
    let b = length-bytes_of_bools s.reserved_inodes_mask in
    let c = length-bytes_of_bools s.reserved_blocks_mask in
    let same = info_of_bytes-bytes_of_info i v.info in
    let ni : (info_of_bytes info).inodes_count ≡ i.inodes_count = ap (λ x. x.inodes_count) same in
    let nb : (info_of_bytes info).blocks_count ≡ i.blocks_count = ap (λ x. x.blocks_count) same in
    let (d0, rest) = Holds-append f.bytes 0 info (inodes ++ blocks) d in
    let (d1, d2) = Holds-append f.bytes (0 + length info) inodes blocks rest in
    subst (λ r. Ends h read_super_block f r (record f { pos = sizeof_superblock s }))
      (same_superblock s v)
      (Ends-bind _ _ (Ends-lseek 0 f) (
        Ends-bind _ _ (read_while-Holds k 14 0 14 info f.bytes (sym a) refl (omega arith) d0) (
          Ends-bind _ _
            (read_while-Holds k _ 14 (14 + i.inodes_count) inodes f.bytes (omega arith)
              (omega arith) (omega arith) d1)
            (Ends-bind _ _
              (read_while-Holds k _ (14 + i.inodes_count) (sizeof_superblock s) blocks f.bytes
                (omega arith) (omega arith) (omega arith)
                (subst (λ p. Holds f.bytes p blocks) (omega arith) d2))
              (Ends-pure _ _)))))
