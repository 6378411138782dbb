-- ===== src/Inode/Store.antt =====
-- An inode in the file: write_inode and read_inode.
use ext.Base.{ℕ, ◌+◌, ◌*◌, ◌≤◌, ◌≡◌, refl, sym, subst, ◌++◌, length, length-append, arith, All}
use ext.Base.Holds.{Holds, Holds-append}
use ext.Base.Image.{Bytes}
use ext.Base.Words.{
  IsU16, bytes_of_u16s, u16s_of_bytes, u16s_of_bytes-bytes_of_u16s, length-bytes_of_u16s,
}
use ext.Os.{Host, File, IsSteady}
use ext.Os.Ends.{Ends, Ends-pure, Ends-bind, Ends-lseek}
use ext.Utils.Read.{read_while-Holds}
use ext.Utils.Write.{after_write, write_two-Ends}
use ext.Superblock.{Superblock}
use ext.Inode.{
  Inode, InodeInfo, bytes_of_inode_info, inode_info_of_bytes, read_inode, write_inode,
  calculate_offset, sizeof_inode,
}

pub record IsValid (superblock : Superblock) (inode : Inode) : Type 0 where
  pub id : IsU16 inode.inode_info.id
  pub blocks_count : inode.inode_info.blocks_count ≤ superblock.fs_info.blocks_count_in_inode
  pub slots : length inode.block_ids ≡ superblock.fs_info.blocks_count_in_inode
  pub small : IsU16 superblock.fs_info.blocks_count_in_inode
  pub ids : All IsU16 inode.block_ids

inode_info_round :
    (i : InodeInfo)
    → IsU16 i.id
    → IsU16 i.blocks_count
    → inode_info_of_bytes (bytes_of_inode_info i) ≡ i
unfolding inode_info_of_bytes bytes_of_inode_info
inode_info_round i a b = ground arith

pub length-bytes_of_inode_info : (i : InodeInfo) → length (bytes_of_inode_info i) ≡ 5
unfolding bytes_of_inode_info
length-bytes_of_inode_info i = refl

-- The bytes of an inode in the file.
pub bytes_of_inode : Inode → Bytes
bytes_of_inode inode = bytes_of_inode_info inode.inode_info ++ bytes_of_u16s inode.block_ids

pub length-bytes_of_inode :
    (s : Superblock) (inode : Inode)
    → IsValid s inode
    → length (bytes_of_inode inode) ≡ sizeof_inode s
unfolding bytes_of_inode sizeof_inode
length-bytes_of_inode s inode v = omega (
  arith,
  length-append (bytes_of_inode_info inode.inode_info) (bytes_of_u16s inode.block_ids),
  length-bytes_of_inode_info inode.inode_info,
  length-bytes_of_u16s inode.block_ids,
  v.slots,
)

-- write_inode puts the bytes of the inode at the offset of its id, and returns their number.
pub write_inode-Ends :
    {h : Host} (k : IsSteady h) (s : Superblock) (inode : Inode) (f : File)
    → IsValid s inode
    → Ends h (write_inode inode s) f (sizeof_inode s) (
        after_write
          (record f { pos = calculate_offset s inode.inode_info.id })
          (bytes_of_inode inode))
unfolding write_inode bytes_of_inode sizeof_inode
write_inode-Ends {h} k s inode f v =
    let p = calculate_offset s inode.inode_info.id in
    let a = length-bytes_of_inode_info inode.inode_info in
    let b = length-bytes_of_u16s inode.block_ids in
    let vs = v.slots in
    let vm = v.small in
    let size : length (bytes_of_inode_info inode.inode_info)
          + length (bytes_of_u16s inode.block_ids)
        ≡ sizeof_inode s =
      omega arith in
    subst
      (λ n.
        Ends h (write_inode inode s) f n
          (after_write (record f { pos = p }) (bytes_of_inode inode)))
      size
      (Ends-bind _ _ (Ends-lseek p f)
        (write_two-Ends k _ _ (record f { pos = p }) (omega arith) (omega arith)))

same_inode :
    (s : Superblock) (inode : Inode)
    → IsValid s inode
    → ◌≡◌ {A = Inode}
        (record {
          inode_info = inode_info_of_bytes (bytes_of_inode_info inode.inode_info);
          block_ids = u16s_of_bytes (bytes_of_u16s inode.block_ids);
        })
        inode
same_inode s inode v =
    let b = v.blocks_count in
    let m = v.small in
    let i = inode_info_round inode.inode_info v.id (omega arith) in
    let l = u16s_of_bytes-bytes_of_u16s inode.block_ids v.ids in
    λ j. record { inode_info = i j; block_ids = l j }

-- read_inode reads back the inode of which the bytes are at the offset of the id.
pub read_inode-Ends :
    {h : Host} (k : IsSteady h) (s : Superblock) (inode : Inode) (id : ℕ) (f : File)
    → IsValid s inode
    → Holds f.bytes (calculate_offset s id) (bytes_of_inode inode)
    → Ends h (read_inode id s) f inode (record f { pos = calculate_offset s id + sizeof_inode s })
unfolding read_inode bytes_of_inode sizeof_inode
read_inode-Ends {h} k s inode id f v d =
    let n = s.fs_info.blocks_count_in_inode in
    let p = calculate_offset s id in
    let info = bytes_of_inode_info inode.inode_info in
    let ids = bytes_of_u16s inode.block_ids in
    let a = length-bytes_of_inode_info inode.inode_info in
    let b = length-bytes_of_u16s inode.block_ids in
    let vs = v.slots in
    let vm = v.small in
    let (d0, d1) = Holds-append f.bytes p info ids d in
    let e1 = subst (λ q. Holds f.bytes q ids) {y = p + 5} (omega arith) d1 in
    subst (λ i. Ends h (read_inode id s) f i (record f { pos = p + sizeof_inode s }))
      (same_inode s inode v)
      (Ends-bind _ _ (Ends-lseek p f) (
        Ends-bind _ _ (read_while-Holds k 5 p (p + 5) info f.bytes (sym a) refl (omega arith) d0) (
          Ends-bind _ _
            (read_while-Holds k (2 * n) (p + 5) (p + sizeof_inode s) ids f.bytes (omega arith)
              (omega arith) (omega arith) e1)
            (Ends-pure _ _))))
