-- ===== src/Methods/Made.antt =====
-- The directory that create_dir_helper makes is a directory of the file.
use ext.Base.{
  ℕ, ◌+◌, ◌*◌, ◌<◌, ◌≤◌, ◌≡◌, ◌≢◌, refl, Bool, false, [], ◌∷◌, ◌++◌, length, length-append, arith,
  replicate, get_elem?-set_self, if◌then◌else◌, length-replicate,
}
use ext.Base.Holds.{Holds, write_at-Holds}
use ext.Base.Image.{Bytes}
use ext.Os.{Host, File, IsSteady}
use ext.Os.Ends.{Ends}
use ext.Methods.{create_dir_helper}
use ext.Superblock.{Superblock, sizeof_superblock}
use ext.Superblock.Store.{bytes_of_superblock, length-bytes_of_superblock}
use ext.Inode.{sizeof_inode}
use ext.Inode.Store.{bytes_of_inode, length-bytes_of_inode}
use ext.Block.{bytes_of_block_info, sizeof_block_record}
use ext.Block.Records.{bytes_of_records, length-bytes_of_records}
use ext.Block.Store.{length-bytes_of_block_info}
use ext.Layout.{FitsWords, Part, superblock, inode, block, IsPart, start, size, write_at-other}
use ext.Methods.Create.{
  entry, taken, fresh_inode, fresh_block, with_directory, HasRoom, id_bound, b_bound, taken-IsValid,
  fresh_inode-IsValid, entries-All, create_dir_helper-Ends,
}
use ext.Methods.Names.{IsText}
use ext.Methods.Walk.{IsDirectory}

inode_is_not_superblock : (i : ℕ) → inode i ≢ superblock
inode_is_not_superblock i e = ground arith

block_is_not_superblock : (b : ℕ) → block b ≢ superblock
block_is_not_superblock b e = ground arith

block_is_not_inode : (b i : ℕ) → block b ≢ inode i
block_is_not_inode b i e = ground arith

dot_is_byte : ◌≢◌ {A = ℕ} b'.' 0
dot_is_byte e = ground arith

module _ (s : Superblock) (id b parent : ℕ) (room : HasRoom s id b parent)
    (fits : FitsWords (taken s id b)) (names : 2 < s.fs_info.max_path_len)
    (enough : 7 + 2 * (2 + s.fs_info.max_path_len) ≤ s.fs_info.block_size) (f : File) where
  abbrev pub block_bytes : Bytes
  block_bytes =
      bytes_of_block_info (fresh_block (taken s id b) id b parent).block_info
      ++ bytes_of_records (entry s id (b'.' ∷ []) ∷ entry s parent (b'.' ∷ b'.' ∷ []) ∷ [])

  pub length-block_bytes : length block_bytes ≡ 7 + 2 * (2 + s.fs_info.max_path_len)
  unfolding sizeof_block_record
  length-block_bytes =
      let info = (fresh_block (taken s id b) id b parent).block_info in
      let rs = entry s id (b'.' ∷ []) ∷ entry s parent (b'.' ∷ b'.' ∷ []) ∷ [] in
      omega (
        arith,
        length-append (bytes_of_block_info info) (bytes_of_records rs),
        length-bytes_of_block_info info,
        length-bytes_of_records (taken s id b) rs (entries-All s id b parent room),
      )

  superblock_size : length (bytes_of_superblock (taken s id b)) ≡ sizeof_superblock (taken s id b)
  superblock_size = length-bytes_of_superblock (taken s id b) (taken-IsValid s id b parent room)

  pub inode_size :
      length (bytes_of_inode (fresh_inode (taken s id b) id b false)) ≡ sizeof_inode (taken s id b)
  inode_size = length-bytes_of_inode (taken s id b) _ (fresh_inode-IsValid s id b parent room false)

  some_inode : 0 < sizeof_inode (taken s id b)
  unfolding sizeof_inode
  some_inode = omega arith

  abbrev pub made : File
  made = with_directory (taken s id b) id b parent f

  pub inode_there :
      Holds made.bytes
        (start (taken s id b) (inode id))
        (bytes_of_inode (fresh_inode (taken s id b) id b false))
  inode_there =
      let n = inode_size in
      let m = superblock_size in
      let l = some_inode in
      write_at-other (taken s id b) fits (inode id) superblock _ _ _ (id_bound s id b parent room)
        tt (inode_is_not_superblock id) (omega arith) (omega arith)
        (write_at-Holds _ _ _ (omega arith))

  pub block_there : Holds made.bytes (start (taken s id b) (block b)) block_bytes
  block_there =
      let n = length-block_bytes in
      let i = inode_size in
      let m = superblock_size in
      write_at-other (taken s id b) fits (block b) superblock _ _ _ tt tt
        (block_is_not_superblock b) (omega arith) (omega arith)
        (write_at-other (taken s id b) fits (block b) (inode id) _ _ _ tt
          (id_bound s id b parent room) (block_is_not_inode b id) (omega arith) (omega arith)
          (write_at-Holds _ _ _ (omega arith)))

  pub dot_fits : IsText (b'.' ∷ []) × (1 < s.fs_info.max_path_len)
  dot_fits = ((dot_is_byte, tt), omega arith)

  pub dots_fits : IsText (b'.' ∷ b'.' ∷ []) × (2 < s.fs_info.max_path_len)
  dots_fits = ((dot_is_byte, (dot_is_byte, tt)), names)

  -- A file with the inode and the block of the new directory has the directory.
  unfoldable pub new_directory :
      (bytes : Bytes)
      → Holds bytes
          (start (taken s id b) (inode id))
          (bytes_of_inode (fresh_inode (taken s id b) id b false))
      → Holds bytes (start (taken s id b) (block b)) block_bytes
      → IsDirectory (taken s id b) bytes id (id, b'.' ∷ []) ((parent, b'.' ∷ b'.' ∷ []) ∷ [])
  new_directory bytes d e =
      let l = id_bound s id b parent room in
      let m = b_bound s id b parent room in
      let r1 = room.valid.info.inodes_count in
      let r2 = room.valid.info.blocks_count in
      let n = s.fs_info.blocks_count_in_inode in
      let size = length-replicate {A = ℕ} n 0 in
      record {
        inode = fresh_inode (taken s id b) id b false;
        valid = fresh_inode-IsValid s id b parent room false;
        kind = refl;
        inode_there = d;
        block_id = b;
        slot = get_elem?-set_self (replicate n 0) 0 b (omega (arith, room.slots));
        ranges = record {
          block_id = omega arith;
          inode_id = omega arith;
          records_count = omega arith;
          data_size = omega arith;
        };
        block_there = e;
        entry_ranges = entries-All s id b parent room;
        entry_names = (dot_fits, (dots_fits, tt));
      }

  unfoldable pub made_is_there :
      IsDirectory (taken s id b) made.bytes id (id, b'.' ∷ []) ((parent, b'.' ∷ b'.' ∷ []) ∷ [])
  made_is_there = new_directory made.bytes inode_there block_there

  -- Under a host that fails no call, on a valid superblock with a free inode and a free block,
  -- create_dir_helper reserves the first of each, returns the inode, and the file has the
  -- directory of that inode, with "." for itself and ".." for its parent (for the root, itself);
  -- the sizes do not wrap, and the two records fit the block.
  pub create_dir_helper_lem :
      {h : Host} (k : IsSteady h) (is_root : Bool)
      → (if is_root then id else parent) ≡ parent
      → Ends h (create_dir_helper s parent is_root) f (id, taken s id b) made
        × IsDirectory (taken s id b) made.bytes id (id, b'.' ∷ []) ((parent, b'.' ∷ b'.' ∷ []) ∷ [])
  create_dir_helper_lem k is_root e =
      (create_dir_helper-Ends s id b parent room k is_root f e, made_is_there)

  pub made_keeps :
      (p : Part) (bs : Bytes)
      → IsPart (taken s id b) p
      → p ≢ superblock
      → p ≢ inode id
      → p ≢ block b
      → length bs ≤ size (taken s id b) p
      → Holds f.bytes (start (taken s id b) p) bs
      → Holds made.bytes (start (taken s id b) p) bs
  made_keeps p bs a no_s no_i no_b l d =
      let n = length-block_bytes in
      let i = inode_size in
      let m = superblock_size in
      write_at-other (taken s id b) fits p superblock _ _ _ a tt no_s l (omega arith) (
        write_at-other (taken s id b) fits p (inode id) _ _ _ a (id_bound s id b parent room) no_i l
          (omega arith)
          (write_at-other (taken s id b) fits p (block b) _ _ _ a tt no_b l (omega arith) d))

  -- Under the conditions of create_dir_helper_lem, create_dir_helper keeps the bytes of every part
  -- of the file but the superblock, the new inode and the new block.
  pub create_dir_helper_keeps :
      {h : Host} (k : IsSteady h) (is_root : Bool) (p : Part) (bs : Bytes)
      → (if is_root then id else parent) ≡ parent
      → IsPart (taken s id b) p
      → p ≢ superblock
      → p ≢ inode id
      → p ≢ block b
      → length bs ≤ size (taken s id b) p
      → Holds f.bytes (start (taken s id b) p) bs
      → (f' : File) × Ends h (create_dir_helper s parent is_root) f (id, taken s id b) f'
        × Holds f'.bytes (start (taken s id b) p) bs
  create_dir_helper_keeps k is_root p bs e a no_s no_i no_b l d = (
    made,
    create_dir_helper-Ends s id b parent room k is_root f e,
    made_keeps p bs a no_s no_i no_b l d,
  )
