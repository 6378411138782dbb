-- ===== src/Commands/Fresh.antt =====
-- The file that init_fs leaves, and open_fs on a file that has a superblock.
use ext.Base.{
  suc, ◌+◌, ◌*◌, ◌∷◌, ◌<◌, ◌≤◌, ◌≡◌, refl, Bool, true, false, [], some, get_elem?, arith, eq→==,
  if◌then◌else◌,
}
use ext.Base.Holds.{Holds, write_at-Holds}
use ext.Os.{Host, File, sys_open, ◌>>◌, IsSteady}
use ext.Os.Ends.{Ends, Ends-pure, Ends-bind, Ends-attempt, Ends-element, Ends-if_true}
use ext.Utils.Write.{after_write}
use ext.Base.Words.{IsU16}
use ext.Superblock.{
  Superblock, first_free, init_super_block, magic_number, root_inode_id, sizeof_superblock,
}
use ext.Superblock.Bounds.{IsValid, init_super_block-IsValid}
use ext.Superblock.Store.{
  bytes_of_superblock, length-bytes_of_superblock, write_super_block-Ends, read_super_block-Ends,
}
use ext.Descriptors.{init_descriptors_table}
use ext.Descriptors.Bounds.{init_descriptors_table-IsValid}
use ext.Descriptors.Store.{bytes_of_table, write_descriptor_table-Ends}
use ext.Methods.Create.{taken, with_directory, HasRoom, taken-IsValid, create_dir_helper-Ends}
use ext.Methods.Walk.{IsDirectory}
use ext.Methods.Made.{made_is_there}
use ext.Layout.{FitsWords}
use ext.Inode.{sizeof_inode}
use ext.Commands.Opening.{open_or_exit, read_with_magic, open_fs}
use ext.Commands.Init.{init_fs}

Ends-sys_open :
    {h : Host} (k : IsSteady h) (truncate : Bool) (f : File)
    → Ends h (sys_open truncate) f tt (record { bytes = if truncate then [] else f.bytes; pos = 0 })
unfolding sys_open
Ends-sys_open k truncate f = record {
  at = λ t. let (n, e) = k.moving t in (suc t, rw (e, sys_open));
}

open_or_exit-Ends :
    {h : Host} (k : IsSteady h) (truncate : Bool) (f : File)
    → Ends h
        (open_or_exit truncate)
        f
        tt
        (record { bytes = if truncate then [] else f.bytes; pos = 0 })
unfolding open_or_exit
open_or_exit-Ends k truncate f =
    Ends-bind _ _ (Ends-attempt (Ends-sys_open k truncate f)) (Ends-pure _ _)

-- open_fs returns the superblock of the file.
pub open_fs-Ends :
    {h : Host} (k : IsSteady h) (s : Superblock) (f : File)
    → IsValid s
    → s.fs_info.magic ≡ magic_number
    → get_elem? s.reserved_inodes_mask root_inode_id ≡ some true
    → Holds f.bytes 0 (bytes_of_superblock s)
    → Ends h open_fs f s (record f { pos = sizeof_superblock s })
unfolding open_fs read_with_magic
open_fs-Ends {h} k s f v m r d =
    Ends-bind _ _
      (Ends-bind _ _ (open_or_exit-Ends k false f) (
        Ends-bind _ _ (Ends-attempt (read_super_block-Ends k s (record f { pos = 0 }) v d))
          (Ends-if_true _ _ (eq→== s.fs_info.magic magic_number m) (Ends-pure s _))))
      (Ends-bind _ _ (Ends-element _ true _ r) (Ends-pure s _))

-- The superblock and the file after init_fs.
abbrev pub fresh_superblock : Superblock
fresh_superblock = taken init_super_block 0 0

abbrev pub two_written : File
two_written =
    after_write
      (record (after_write (record { bytes = []; pos = 0 })
        (bytes_of_superblock init_super_block)) { pos = sizeof_superblock init_super_block })
      (bytes_of_table (init_descriptors_table init_super_block))

abbrev pub fresh_file : File
fresh_file = with_directory fresh_superblock 0 0 0 two_written

pub init_super_block-HasRoom : HasRoom init_super_block 0 0 0
unfolding init_super_block first_free
init_super_block-HasRoom = record {
  valid = init_super_block-IsValid;
  inode = refl;
  block = refl;
  names = omega arith;
  slots = omega arith;
  parent_range = omega arith;
}

small_table : IsU16 init_super_block.fs_info.descriptors_count
unfolding init_super_block
small_table = omega arith

pub init_fs-Ends : {h : Host} (k : IsSteady h) (f : File) → Ends h init_fs f tt fresh_file
unfolding init_fs
init_fs-Ends k f = Ends-bind _ _ (open_or_exit-Ends k true f) (
    Ends-bind _ _
      (Ends-attempt (write_super_block-Ends k init_super_block _ init_super_block-IsValid))
      (Ends-bind _ _
        (Ends-attempt (
          write_descriptor_table-Ends k init_super_block (init_descriptors_table init_super_block) _
            (init_descriptors_table-IsValid init_super_block) small_table))
        (Ends-bind _ _
          (create_dir_helper-Ends init_super_block 0 0 0 init_super_block-HasRoom k true two_written
            refl)
          (Ends-pure _ _))))

pub fresh_superblock-IsValid : IsValid fresh_superblock
fresh_superblock-IsValid = taken-IsValid init_super_block 0 0 0 init_super_block-HasRoom

pub root_reserved :
    (fresh_superblock.fs_info.magic ≡ magic_number)
    × (get_elem? fresh_superblock.reserved_inodes_mask root_inode_id ≡ some true)
    × (0 < sizeof_superblock fresh_superblock)
unfolding init_super_block sizeof_superblock
root_reserved = (refl, refl, omega arith)

pub fresh_file-Holds : Holds fresh_file.bytes 0 (bytes_of_superblock fresh_superblock)
fresh_file-Holds =
    let n = length-bytes_of_superblock fresh_superblock fresh_superblock-IsValid in
    let l = root_reserved.2 in
    write_at-Holds _ 0 (bytes_of_superblock fresh_superblock) (omega arith)

pub fresh_superblock-FitsWords : FitsWords fresh_superblock
unfolding init_super_block sizeof_inode
fresh_superblock-FitsWords = omega arith

pub fresh_sizes :
    (2 < init_super_block.fs_info.max_path_len)
    × (7 + 2 * (2 + init_super_block.fs_info.max_path_len) ≤ init_super_block.fs_info.block_size)
unfolding init_super_block
fresh_sizes = (omega arith, omega arith)

unfoldable pub root_is_there :
    IsDirectory fresh_superblock fresh_file.bytes 0 (0, b'.' ∷ []) ((0, b'.' ∷ b'.' ∷ []) ∷ [])
root_is_there =
    made_is_there init_super_block 0 0 0 init_super_block-HasRoom fresh_superblock-FitsWords
      fresh_sizes.0 fresh_sizes.1 two_written

-- Under a host that fails no call and whatever the file held, open_fs after init_fs returns the
-- initial superblock with inode 0 and block 0 reserved, and the file that init_fs leaves has the
-- root directory, with "." and ".." for itself.
pub open_fs-init_fs :
    {h : Host} (k : IsSteady h) (f : File)
    → Ends h
        (do init_fs; open_fs)
        f
        fresh_superblock
        (record fresh_file { pos = sizeof_superblock fresh_superblock })
      × IsDirectory fresh_superblock fresh_file.bytes root_inode_id
          (root_inode_id, b'.' ∷ [])
          ((root_inode_id, b'.' ∷ b'.' ∷ []) ∷ [])
open_fs-init_fs k f = (
  Ends-bind _ _ (init_fs-Ends k f) (
      open_fs-Ends k fresh_superblock fresh_file fresh_superblock-IsValid root_reserved.0
        root_reserved.1 fresh_file-Holds),
  root_is_there,
)
