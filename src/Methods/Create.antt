-- ===== src/Methods/Create.antt =====
-- create_dir_helper where nothing fails: the inode and the block of the new directory.
use ext.Base.{
  ℕ, ◌<◌, ◌≤◌, ◌≡◌, ◌∙◌, Bool, true, false, List, [], ◌∷◌, ◌++◌, some, length, length-append,
  length-set, length-replicate, length-drop, replicate, set, get_elem?-lt, drop, ltb, arith, All,
  ne→==, if◌then◌else◌,
}
use ext.Base.Image.{Bytes}
use ext.Base.Words.{IsU16}
use ext.Os.{Host, File, pure, IsSteady}
use ext.Os.Ends.{Ends, Ends-pure, Ends-bind, Ends-attempt, Ends-assign}
use ext.Utils.Write.{after_write}
use ext.Superblock.{Superblock, first_free, reserve_inode, reserve_block}
use ext.Superblock.Bounds.{IsValid}
use ext.Superblock.Masks.{first_free-IsFirstFree}
use ext.Superblock.Store.{bytes_of_superblock, write_super_block-Ends}
use ext.Descriptors.Bounds.{All-set, All-replicate}
use ext.Descriptors.Open.{get_elem?-replicate}
use ext.Inode.{Inode, init_inode, calculate_offset}
use ext.Inode.Store as Inodes
use ext.Inode.Store.{bytes_of_inode, write_inode-Ends}
use ext.Block.{
  BlockRecord, Block, block_offset, bytes_of_block_info, init_block, init_block_record,
  init_block_with_records,
}
use ext.Block.Records.{IsRecord, bytes_of_records}
use ext.Block.Store.{directory, write_block-directory}
use ext.Methods.{put_text, write_new, new_inode, dots_block, create_dir_helper}

-- The record of a name, with zeros behind it.
abbrev pub entry : Superblock → ℕ → Bytes → BlockRecord
entry s id name = record {
  inode_id = id;
  path = name ++ drop (length name) (replicate s.fs_info.max_path_len 0);
}

-- The superblock with inode `id` and block `b` reserved.
abbrev pub taken : Superblock → ℕ → ℕ → Superblock
taken s id b = record {
  fs_info = s.fs_info;
  reserved_inodes_mask = set s.reserved_inodes_mask id true;
  reserved_blocks_mask = set s.reserved_blocks_mask b true;
}

-- The inode of a new directory or file.
abbrev pub fresh_inode : Superblock → ℕ → ℕ → Bool → Inode
fresh_inode s id b is_file = record {
  inode_info = record { id = id; blocks_count = 1; is_file = is_file };
  block_ids = set (replicate s.fs_info.blocks_count_in_inode 0) 0 b;
}

-- The block of a new directory.
abbrev pub fresh_block : Superblock → ℕ → ℕ → ℕ → Block
fresh_block s id b parent =
    directory s b id (entry s id (b'.' ∷ []) ∷ entry s parent (b'.' ∷ b'.' ∷ []) ∷ [])

-- The file after the block, the inode and the superblock of a new directory have been written.
abbrev pub with_block : Superblock → ℕ → ℕ → ℕ → File → File
with_block s id b parent f =
    after_write (record f { pos = block_offset s b })
      (bytes_of_block_info (fresh_block s id b parent).block_info
        ++ bytes_of_records (entry s id (b'.' ∷ []) ∷ entry s parent (b'.' ∷ b'.' ∷ []) ∷ []))

abbrev pub with_inode : Superblock → ℕ → ℕ → ℕ → File → File
with_inode s id b parent f =
    after_write (record (with_block s id b parent f) { pos = calculate_offset s id })
      (bytes_of_inode (fresh_inode s id b false))

abbrev pub with_directory : Superblock → ℕ → ℕ → ℕ → File → File
with_directory s id b parent f =
    after_write (record (with_inode s id b parent f) { pos = 0 }) (bytes_of_superblock s)

pub entry-IsRecord :
    (s : Superblock) (id : ℕ) (name : Bytes)
    → IsU16 id
    → length name ≤ s.fs_info.max_path_len
    → IsRecord s (entry s id name)
entry-IsRecord s id name u l =
    let zeros : Bytes = replicate s.fs_info.max_path_len 0 in
    let a = length-append name (drop (length name) zeros) in
    let d = length-drop (length name) zeros in
    let n = length-replicate {A = ℕ} s.fs_info.max_path_len 0 in
    record { inode_id = u; path = omega arith }

pub put_text-pure :
    (text array : Bytes)
    → length text ≤ length array
    → put_text text array ≡ pure (text ++ drop (length text) array)
unfolding put_text
put_text-pure text array l = let e : ltb (length array) (length text) ≡ false = ground arith in rw e

module _ (s : Superblock) (id b : ℕ) where
  pub new_inode-Ends :
      {h : Host} (is_file : Bool) (f : File)
      → 0 < s.fs_info.blocks_count_in_inode
      → Ends h (new_inode id b is_file s) f (fresh_inode s id b is_file) f
  unfolding new_inode init_inode
  new_inode-Ends is_file f l =
      let zeros : List ℕ = replicate s.fs_info.blocks_count_in_inode 0 in
      Ends-bind _ _
        (Ends-assign zeros 0 b 0 f
          (get_elem?-replicate {A = ℕ} s.fs_info.blocks_count_in_inode 0 0 l))
        (Ends-pure _ f)

  dots_block-Ends :
      {h : Host} (parent : ℕ) (f : File)
      → 2 ≤ s.fs_info.max_path_len
      → Ends h (dots_block b id parent s) f (fresh_block s id b parent) f
  unfolding dots_block init_block_record init_block_with_records init_block
  dots_block-Ends parent f l =
      let n = length-replicate {A = ℕ} s.fs_info.max_path_len 0 in
      rw
        (
          put_text-pure (b'.' ∷ []) (replicate s.fs_info.max_path_len 0) (omega arith),
          put_text-pure (b'.' ∷ b'.' ∷ []) (replicate s.fs_info.max_path_len 0) (omega arith),
        )
        (Ends-bind _ _ (Ends-pure _ f) (Ends-bind _ _ (Ends-pure _ f) (Ends-pure _ f)))

-- The superblock, its new inode and its new block fit the C types.
pub record HasRoom (s : Superblock) (id b parent : ℕ) : Type 0 where
  pub valid : IsValid s
  pub inode : first_free s.reserved_inodes_mask ≡ some id
  pub block : first_free s.reserved_blocks_mask ≡ some b
  pub names : 2 ≤ s.fs_info.max_path_len
  pub slots : 0 < s.fs_info.blocks_count_in_inode
  pub parent_range : IsU16 parent

module _ (s : Superblock) (id b parent : ℕ) (room : HasRoom s id b parent) where
  pub id_bound : id < s.fs_info.inodes_count
  id_bound =
      let h = first_free-IsFirstFree s.reserved_inodes_mask id room.inode in
      let l = get_elem?-lt s.reserved_inodes_mask id false h.free in
      let v = room.valid.inodes in omega arith

  pub b_bound : b < s.fs_info.blocks_count
  b_bound =
      let h = first_free-IsFirstFree s.reserved_blocks_mask b room.block in
      let l = get_elem?-lt s.reserved_blocks_mask b false h.free in
      let v = room.valid.blocks in omega arith

  pub reserve_inode_id :
      reserve_inode s ≡ (id, record s { reserved_inodes_mask = set s.reserved_inodes_mask id true })
  unfolding reserve_inode
  reserve_inode_id = rw (room.inode, reserve_inode)

  pub reserve_block_b :
      reserve_block (record s { reserved_inodes_mask = set s.reserved_inodes_mask id true })
      ≡ (b, taken s id b)
  unfolding reserve_block
  reserve_block_b = rw (room.block, reserve_block)

  pub taken-IsValid : IsValid (taken s id b)
  taken-IsValid = record {
    info = room.valid.info;
    inodes = length-set s.reserved_inodes_mask id true ∙ room.valid.inodes;
    blocks = length-set s.reserved_blocks_mask b true ∙ room.valid.blocks;
  }

  pub fresh_inode-IsValid :
      (is_file : Bool) → Inodes.IsValid (taken s id b) (fresh_inode s id b is_file)
  fresh_inode-IsValid is_file =
      let n = s.fs_info.blocks_count_in_inode in
      let zeros : List ℕ = replicate n 0 in
      let l = id_bound in
      let m = b_bound in
      let r = room.valid.info in
      let r1 = r.inodes_count in
      let r2 = r.blocks_count in
      record {
        id = omega arith;
        blocks_count = omega (arith, room.slots);
        slots = length-set zeros 0 b ∙ length-replicate {A = ℕ} n 0;
        small = r.blocks_count_in_inode;
        ids = All-set IsU16 zeros 0 b (All-replicate IsU16 n 0 (omega arith)) (omega arith);
      }

  pub entries-All :
      All
        (IsRecord (taken s id b))
        (entry s id (b'.' ∷ []) ∷ entry s parent (b'.' ∷ b'.' ∷ []) ∷ [])
  entries-All =
      let l = id_bound in
      let r = room.valid.info.inodes_count in
      let p : 2 ≤ s.fs_info.max_path_len = room.names in
      (
        entry-IsRecord (taken s id b) id (b'.' ∷ []) (omega arith) (omega arith),
        (
          entry-IsRecord (taken s id b) parent (b'.' ∷ b'.' ∷ []) room.parent_range (omega arith),
          tt,
        ),
      )

  write_new-Ends :
      {h : Host} (k : IsSteady h) (f : File)
      → Ends h
          (write_new
            (fresh_block (taken s id b) id b parent)
            (fresh_inode (taken s id b) id b false)
            (taken s id b)
            id
            b)
          f
          (id, taken s id b)
          (with_directory (taken s id b) id b parent f)
  unfolding write_new
  write_new-Ends k f =
      Ends-bind _ _
        (Ends-attempt (
          write_block-directory k (taken s id b) b id _ _ f room.valid.info.max_path_len
            entries-All))
        (Ends-bind _ _
          (Ends-attempt (
            write_inode-Ends k (taken s id b) (fresh_inode s id b false) _
              (fresh_inode-IsValid false)))
          (Ends-bind _ _ (Ends-attempt (write_super_block-Ends k (taken s id b) _ taken-IsValid))
            (Ends-pure _ _)))

  -- What create_dir_helper returns and writes under a host that fails no call.
  pub create_dir_helper-Ends :
      {h : Host} (k : IsSteady h) (is_root : Bool) (f : File)
      → (if is_root then id else parent) ≡ parent
      → Ends h
          (create_dir_helper s parent is_root)
          f
          (id, taken s id b)
          (with_directory (taken s id b) id b parent f)
  unfolding create_dir_helper
  create_dir_helper-Ends k is_root f e =
      rw
        (
          reserve_inode_id,
          ne→== id s.fs_info.inodes_count (omega (arith, id_bound)),
          reserve_block_b,
          ne→== b s.fs_info.blocks_count (omega (arith, b_bound)),
          e,
        )
        (Ends-bind _ _ (new_inode-Ends (taken s id b) id b false f room.slots) (
          Ends-bind _ _ (dots_block-Ends (taken s id b) id b parent f room.names)
            (write_new-Ends k f)))
