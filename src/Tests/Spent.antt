-- ===== src/Tests/Spent.antt =====
-- A file system in which every inode and every block is reserved.
use ext.Base.{
  ℕ, ◌<◌, ◌≡◌, refl, ◌∙◌, arith, List, [], ◌∷◌, ◌++◌, none, some, Bool, true, replicate, length,
  length-replicate, get_elem?-lt, inl,
}
use ext.Base.Holds.{write_at-Holds}
use ext.Base.Image.{write_at}
use ext.Os.{File}
use ext.Os.Faults.{Faults}
use ext.Superblock.{Superblock, init_super_block, first_free, root_inode_id, sizeof_superblock}
use ext.Superblock.Bounds.{IsValid}
use ext.Superblock.Store.{bytes_of_superblock, length-bytes_of_superblock}
use ext.Descriptors.Bounds as Tables
use ext.Descriptors.Open.{get_elem?-replicate}
use ext.Descriptors.Store.{length-bytes_of_table}
use ext.Layout.{superblock, table}
use ext.Methods.Names.{lookup}
use ext.Methods.Walk.{path_text}
use ext.Commands.Create.{create_dir, create_file}
use ext.Commands.Fresh.{fresh_superblock, fresh_file}
use ext.Commands.Keep.{HasTable}
use ext.Fs.{Fs, Node, block_of, walk}
use ext.Fs.Fresh.{fresh_fs, fresh_file-Represents}
use ext.Fs.Full.{create-Faults}
use ext.Fs.Kept.{Kept, Kept-write, IsNode-Kept}
use ext.Fs.Reach.{IsPath}
use ext.Fs.Represents.{Sizes, IsNode, Represents, known}
use ext.Fs.Taken.{with_masks, IsNode-masks, Sizes-masks}
use ext.Tests.Hosts.{steady, steady-IsSteady}
use ext.Tests.System.{a_is_name}

abbrev mask : List Bool
mask = replicate fresh_superblock.fs_info.inodes_count true

abbrev spent_superblock : Superblock
spent_superblock = with_masks fresh_superblock mask mask

abbrev spent_fs : Fs
spent_fs = record fresh_fs { super = spent_superblock }

abbrev spent_file : File
spent_file = record {
  bytes = write_at 0 (bytes_of_superblock spent_superblock) fresh_file.bytes;
  pos = 0;
}

spent_sizes : Sizes spent_superblock
spent_sizes = Sizes-masks fresh_superblock mask mask fresh_file-Represents.sizes

same_counts : fresh_superblock.fs_info.inodes_count ≡ fresh_superblock.fs_info.blocks_count
unfolding init_super_block
same_counts = refl

spent-IsValid : IsValid spent_superblock
spent-IsValid =
    let n = length-replicate fresh_superblock.fs_info.inodes_count true in
    record { info = fresh_file-Represents.has.valid.info; inodes = n; blocks = n ∙ same_counts }

size :
    (length (bytes_of_superblock spent_superblock) ≡ sizeof_superblock spent_superblock)
    × (0 < sizeof_superblock spent_superblock)
unfolding sizeof_superblock
size = (length-bytes_of_superblock spent_superblock spent-IsValid, omega arith)

spent-Kept : Kept spent_superblock (superblock ∷ []) fresh_file.bytes spent_file.bytes
spent-Kept =
    let n = size.0 in
    Kept-write spent_superblock superblock fresh_file.bytes (bytes_of_superblock spent_superblock)
      spent_sizes.fits tt (omega arith)

spent-HasTable : HasTable spent_superblock spent_fs.table spent_file.bytes
unfolding sizeof_superblock init_super_block
spent-HasTable =
    let has = fresh_file-Represents.has in
    let v : Tables.IsValid spent_superblock spent_fs.table = record {
      reserved = has.table_valid.reserved;
      inodes = has.table_valid.inodes;
      positions = has.table_valid.positions;
      inode_range = has.table_valid.inode_range;
      position_range = has.table_valid.position_range;
    } in
    let m = length-bytes_of_table spent_superblock spent_fs.table v in
    let (n, z) = size in
    record {
      valid = spent-IsValid;
      magic = has.magic;
      root = refl;
      superblock_there = write_at-Holds _ 0 _ (omega arith);
      table_valid = v;
      some_descriptor = has.some_descriptor;
      table_there =
          spent-Kept.keep table _ tt ((λ e. ground arith), tt) (omega arith) has.table_there;
    }

spent-IsNode :
    (i : ℕ) (nd : Node) → fresh_fs.nodes i ≡ some nd → IsNode spent_superblock spent_file.bytes i nd
spent-IsNode i nd e =
    let r = fresh_file-Represents in
    let old = r.sound i nd e in
    let l = known fresh_superblock fresh_file.bytes i nd r.sizes r.has.valid old in
    let m = get_elem?-lt fresh_superblock.reserved_blocks_mask (block_of nd) true old.block_used in
    let v = r.has.valid.blocks in
    let same = same_counts in
    let count = fresh_superblock.fs_info.inodes_count in
    IsNode-Kept spent_superblock spent_sizes spent-IsValid (superblock ∷ []) fresh_file.bytes
      spent_file.bytes i nd spent-Kept ((λ q. ground arith), tt) ((λ q. ground arith), tt)
      (IsNode-masks fresh_superblock mask mask fresh_file.bytes i nd
        (get_elem?-replicate count i true l)
        (get_elem?-replicate count (block_of nd) true (omega arith)) old)

spent_file-Represents : Represents spent_fs spent_file.bytes
spent_file-Represents =
    let r = fresh_file-Represents in
    record {
      sizes = spent_sizes;
      has = spent-HasTable;
      consistent = r.consistent;
      sound = spent-IsNode;
      alone = r.alone;
      closed = r.closed;
      root = r.root;
    }

a_is_path : IsPath spent_superblock [] (b'a' ∷ [])
a_is_path =
    let v = a_is_name b'a' (λ e. ground arith) (λ e. ground arith) in
    record {
      parts = tt;
      last = record { some_byte = v.some_byte; named = v.named; text = v.text; short = v.short };
      short = omega arith;
    }

spent_facts :
    (walk spent_fs.nodes root_inode_id [] ≡ some 0)
    × (lookup ((0, b'.' ∷ []) ∷ (0, b'.' ∷ b'.' ∷ []) ∷ []) (b'a' ∷ []) ≡ none)
    × (first_free mask ≡ none)
unfolding walk lookup first_free init_super_block
spent_facts = (refl, refl, refl)

create-Faults_example :
    Faults steady (create_dir (path_text [] ++ b'a' ∷ [])) spent_file
    × Faults steady (create_file (path_text [] ++ b'a' ∷ [])) spent_file
create-Faults_example =
    create-Faults steady-IsSteady spent_fs spent_file spent_file-Represents [] (b'a' ∷ []) a_is_path
      0 0 (0, b'.' ∷ []) ((0, b'.' ∷ b'.' ∷ []) ∷ []) spent_facts.0 refl spent_facts.1
      (inl spent_facts.2)
