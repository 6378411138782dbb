-- ===== src/Descriptors/Store.antt =====
-- The descriptor table in the file: write_descriptor_table and read_descriptors_table.
use ext.Base.{◌+◌, ◌*◌, ◌≡◌, refl, subst, ◌++◌, length, length-append, arith}
use ext.Base.Holds.{Holds, Holds-append}
use ext.Base.Image.{Bytes}
use ext.Base.Words.{
  IsU16, bytes_of_bools, bools_of_bytes, bools_of_bytes-bytes_of_bools, length-bytes_of_bools,
  bytes_of_u16s, u16s_of_bytes, u16s_of_bytes-bytes_of_u16s, length-bytes_of_u16s, bytes_of_u32s,
  u32s_of_bytes, u32s_of_bytes-bytes_of_u32s, length-bytes_of_u32s,
}
use ext.Os.{Host, File, IsSteady}
use ext.Os.Ends.{Ends, Ends-pure, Ends-bind, Ends-lseek}
use ext.Utils.Read.{read_while-Holds}
use ext.Utils.Write.{after_write, write_three-Ends}
use ext.Superblock.{Superblock, sizeof_superblock}
use ext.Descriptors.{DescriptorsTable, read_descriptors_table, write_descriptor_table}
use ext.Descriptors.Bounds.{IsValid}

-- The bytes of a table in the file.
pub bytes_of_table : DescriptorsTable → Bytes
bytes_of_table table =
    bytes_of_bools table.reserved_fd
    ++ (bytes_of_u16s table.fd_to_inode ++ bytes_of_u32s table.fd_to_position)

pub length-bytes_of_table :
    (s : Superblock) (table : DescriptorsTable)
    → IsValid s table
    → length (bytes_of_table table) ≡ 7 * s.fs_info.descriptors_count
unfolding bytes_of_table
length-bytes_of_table s table v =
    let a = bytes_of_bools table.reserved_fd in
    let b = bytes_of_u16s table.fd_to_inode in
    let c = bytes_of_u32s table.fd_to_position in
    omega (
      arith,
      length-append a (b ++ c),
      length-append b c,
      length-bytes_of_bools table.reserved_fd,
      length-bytes_of_u16s table.fd_to_inode,
      length-bytes_of_u32s table.fd_to_position,
      v.reserved,
      v.inodes,
      v.positions,
    )

-- write_descriptor_table puts the bytes of the table behind the superblock, and returns their
-- number.
pub write_descriptor_table-Ends :
    {h : Host} (k : IsSteady h) (s : Superblock) (table : DescriptorsTable) (f : File)
    → IsValid s table
    → IsU16 s.fs_info.descriptors_count
    → Ends h
        (write_descriptor_table table s)
        f
        (7 * s.fs_info.descriptors_count)
        (after_write (record f { pos = sizeof_superblock s }) (bytes_of_table table))
unfolding write_descriptor_table bytes_of_table
write_descriptor_table-Ends {h} k s table f v r =
    let a = length-bytes_of_bools table.reserved_fd in
    let b = length-bytes_of_u16s table.fd_to_inode in
    let c = length-bytes_of_u32s table.fd_to_position in
    let start : File = record f { pos = sizeof_superblock s } in
    let size : length (bytes_of_bools table.reserved_fd)
          + length (bytes_of_u16s table.fd_to_inode)
          + length (bytes_of_u32s table.fd_to_position)
        ≡ 7 * s.fs_info.descriptors_count =
      omega (arith, a, b, c, v.reserved, v.inodes, v.positions) in
    subst
      (λ n. Ends h (write_descriptor_table table s) f n (after_write start (bytes_of_table table)))
      size
      (Ends-bind _ _ (Ends-lseek (sizeof_superblock s) f) (
        write_three-Ends k _ _ _ start (omega (arith, a, v.reserved)) (omega (arith, b, v.inodes))
          (omega (arith, c, v.positions))))

same_table :
    (s : Superblock) (table : DescriptorsTable)
    → IsValid s table
    → ◌≡◌ {A = DescriptorsTable}
        (record {
          reserved_fd = bools_of_bytes (bytes_of_bools table.reserved_fd);
          fd_to_inode = u16s_of_bytes (bytes_of_u16s table.fd_to_inode);
          fd_to_position = u32s_of_bytes (bytes_of_u32s table.fd_to_position);
        })
        table
same_table s table v = λ j. record {
  reserved_fd = bools_of_bytes-bytes_of_bools table.reserved_fd j;
  fd_to_inode = u16s_of_bytes-bytes_of_u16s table.fd_to_inode v.inode_range j;
  fd_to_position = u32s_of_bytes-bytes_of_u32s table.fd_to_position v.position_range j;
}

-- read_descriptors_table reads back the table of which the bytes are behind the superblock.
pub read_descriptors_table-Ends :
    {h : Host} (k : IsSteady h) (s : Superblock) (table : DescriptorsTable) (f : File)
    → IsValid s table
    → IsU16 s.fs_info.descriptors_count
    → Holds f.bytes (sizeof_superblock s) (bytes_of_table table)
    → Ends h
        (read_descriptors_table s)
        f
        table
        (record f { pos = sizeof_superblock s + 7 * s.fs_info.descriptors_count })
unfolding read_descriptors_table bytes_of_table
read_descriptors_table-Ends {h} k s table f v r d =
    let n = s.fs_info.descriptors_count in
    let p = sizeof_superblock s in
    let reserved = bytes_of_bools table.reserved_fd in
    let inodes = bytes_of_u16s table.fd_to_inode in
    let positions = bytes_of_u32s table.fd_to_position in
    let a = length-bytes_of_bools table.reserved_fd in
    let b = length-bytes_of_u16s table.fd_to_inode in
    let c = length-bytes_of_u32s table.fd_to_position in
    let va = v.reserved in
    let vb = v.inodes in
    let vc = v.positions in
    let (d0, rest) = Holds-append f.bytes p reserved (inodes ++ positions) d in
    let (d1, d2) = Holds-append f.bytes (p + length reserved) inodes positions rest in
    let e1 = subst (λ q. Holds f.bytes q inodes) {y = p + n} (omega arith) d1 in
    let e2 = subst (λ q. Holds f.bytes q positions) {y = p + 3 * n} (omega arith) d2 in
    subst (λ t. Ends h (read_descriptors_table s) f t (record f { pos = p + 7 * n }))
      (same_table s table v)
      (Ends-bind _ _ (Ends-lseek p f) (
        Ends-bind _ _
          (read_while-Holds k n p (p + n) reserved f.bytes (omega arith) refl (omega arith) d0)
          (Ends-bind _ _
            (read_while-Holds k (2 * n) (p + n) (p + 3 * n) inodes f.bytes (omega arith)
              (omega arith) (omega arith) e1)
            (Ends-bind _ _
              (read_while-Holds k (4 * n) (p + 3 * n) (p + 7 * n) positions f.bytes (omega arith)
                (omega arith) (omega arith) e2)
              (Ends-pure _ _)))))
