-- ===== src/Tests/Making.antt =====
-- "mkdir /a" and "open /a" on a fresh file system.
use ext.Base.{ℕ, ◌+◌, ◌*◌, ◌<◌, ◌≡◌, refl, arith, [], ◌∷◌, ◌++◌, none, some, length, get_elem?}
use ext.Base.Image.{Bytes}
use ext.Os.{File}
use ext.Os.Ends.{Ends}
use ext.Superblock.{Superblock, first_free, init_super_block}
use ext.Inode.{sizeof_inode}
use ext.Block.{get_max_records_count, sizeof_block_record}
use ext.Layout.{FitsWords}
use ext.Methods.Made.{new_directory, made_is_there}
use ext.Descriptors.{init_descriptors_table, DescriptorsTable, occupy, reserve_descriptor}
use ext.Descriptors.Open.{IsConsistent, Opens, init_descriptors_table-IsConsistent}
use ext.Methods.Create.{HasRoom, taken}
use ext.Methods.Names.{lookup}
use ext.Methods.Walk.{arrive, IsPathName, IsDirectory, path_text}
use ext.Commands.Create.{create_dir, create_file}
use ext.Commands.Descriptor.{open_file}
use ext.Commands.Fresh.{fresh_superblock, fresh_file, fresh_superblock-IsValid, root_is_there}
use ext.Commands.FreshTable.{fresh_file-HasTable}
use ext.Commands.Keep.{HasTable, with_table}
use ext.Commands.Reach.{Place}
use ext.Commands.Entry.{extended}
use ext.Commands.Makes.{CanMake}
use ext.Commands.Mkdir.{create_dir_lem, create_dir-exists}
use ext.Commands.Opens.{open_file_lem, open_file-refused}
use ext.Tests.Hosts.{steady, steady-IsSteady}
use ext.Tests.Tables.{empty_table}

abbrev a_text : Bytes
a_text = b'a' ∷ []

abbrev dot_text : Bytes
dot_text = b'.' ∷ []

a_is_name : IsPathName fresh_superblock a_text
unfolding init_super_block
a_is_name = record {
  some_byte = omega arith;
  named = omega arith;
  text = omega arith;
  short = omega arith;
}

dot_is_name : IsPathName fresh_superblock dot_text
unfolding init_super_block
dot_is_name = record {
  some_byte = omega arith;
  named = omega arith;
  text = omega arith;
  short = omega arith;
}

sizes :
    (fresh_superblock.fs_info.max_path_len < 2 * 8 + 1)
    × (1 < fresh_superblock.fs_info.max_path_len)
    × (2 < fresh_superblock.fs_info.inodes_count)
unfolding init_super_block
sizes = omega arith

abbrev root_place :
    (name : Bytes)
    → IsPathName fresh_superblock name
    → length name < 2 * 8
    → Place fresh_superblock fresh_file.bytes [] name 0 (0, b'.' ∷ []) ((0, b'.' ∷ b'.' ∷ []) ∷ [])
root_place name v l =
    let z = sizes in
    record {
      small = omega arith;
      long = omega arith;
      parts = tt;
      walk = arrive root_is_there;
      there = root_is_there;
      known = omega arith;
      last = v;
      fits = omega arith;
    }

create_dir-exists_example :
    (q : ℕ) × Ends steady
      (create_dir (path_text [] ++ dot_text))
      fresh_file
      tt
      (record fresh_file { pos = q })
    × Ends steady
        (create_file (path_text [] ++ dot_text))
        fresh_file
        tt
        (record fresh_file { pos = q })
unfolding lookup
create_dir-exists_example =
    create_dir-exists steady-IsSteady fresh_superblock empty_table [] dot_text 0 _ _ fresh_file
      fresh_file-HasTable (root_place dot_text dot_is_name (omega arith)) 0 refl

room_for_a : HasRoom fresh_superblock 1 1 0
unfolding init_super_block first_free
room_for_a = record {
  valid = fresh_superblock-IsValid;
  inode = refl;
  block = refl;
  names = omega arith;
  slots = omega arith;
  parent_range = omega arith;
}

a_fits : FitsWords (taken fresh_superblock 1 1)
unfolding init_super_block sizeof_inode
a_fits = omega arith

a_room_in_root : CanMake fresh_superblock 1 1 0 root_is_there.block_id 2
unfolding root_is_there made_is_there new_directory init_super_block get_max_records_count
    sizeof_block_record
a_room_in_root = record {
  room = room_for_a;
  fits = a_fits;
  names = omega arith;
  enough = omega arith;
  inode_used = refl;
  block_used = refl;
  not_full = omega arith;
}

a_absent : lookup ((0, b'.' ∷ []) ∷ (0, b'.' ∷ b'.' ∷ []) ∷ []) a_text ≡ none
unfolding lookup
a_absent = refl

abbrev with_a : Superblock
with_a = taken fresh_superblock 1 1

create_dir_lem_example :
    (g : File) × Ends steady (create_dir (path_text [] ++ a_text)) fresh_file tt g
    × IsDirectory with_a g.bytes 0 (0, b'.' ∷ []) (extended ((0, b'.' ∷ b'.' ∷ []) ∷ []) 1 a_text)
    × (lookup (extended ((0, b'.' ∷ []) ∷ (0, b'.' ∷ b'.' ∷ []) ∷ []) 1 a_text) a_text ≡ some 1)
    × IsDirectory with_a g.bytes 1 (1, b'.' ∷ []) ((0, b'.' ∷ b'.' ∷ []) ∷ [])
    × HasTable with_a empty_table g.bytes
create_dir_lem_example =
    create_dir_lem steady-IsSteady fresh_superblock empty_table [] a_text 0 _ _ fresh_file
      fresh_file-HasTable (root_place a_text a_is_name (omega arith)) 1 1 a_room_in_root a_absent

-- The file with "/a".
abbrev made_a :
    (g : File) × Ends steady (create_dir (path_text [] ++ a_text)) fresh_file tt g
    × IsDirectory with_a g.bytes 0 (0, b'.' ∷ []) (extended ((0, b'.' ∷ b'.' ∷ []) ∷ []) 1 a_text)
    × (lookup (extended ((0, b'.' ∷ []) ∷ (0, b'.' ∷ b'.' ∷ []) ∷ []) 1 a_text) a_text ≡ some 1)
    × IsDirectory with_a g.bytes 1 (1, b'.' ∷ []) ((0, b'.' ∷ b'.' ∷ []) ∷ [])
    × HasTable with_a empty_table g.bytes
made_a =
    create_dir_lem steady-IsSteady fresh_superblock empty_table [] a_text 0 _ _ fresh_file
      fresh_file-HasTable (root_place a_text a_is_name (omega arith)) 1 1 a_room_in_root a_absent

a_still_name : IsPathName with_a a_text
a_still_name = record {
  some_byte = a_is_name.some_byte;
  named = a_is_name.named;
  text = a_is_name.text;
  short = a_is_name.short;
}

a_place :
    Place with_a made_a.0.bytes [] a_text 0
      (0, b'.' ∷ [])
      (extended ((0, b'.' ∷ b'.' ∷ []) ∷ []) 1 a_text)
a_place =
    let z = sizes in
    record {
      small = omega arith;
      long = omega arith;
      parts = tt;
      walk = arrive made_a.2;
      there = made_a.2;
      known = omega arith;
      last = a_still_name;
      fits = omega arith;
    }

abbrev table_with_a : DescriptorsTable
table_with_a = occupy empty_table 0 1

reserve-a : reserve_descriptor empty_table 1 ≡ some (0, table_with_a)
unfolding reserve_descriptor init_descriptors_table init_super_block ext.Descriptors.has_inode
    first_free
reserve-a = refl

one_is_known : 1 < with_a.fs_info.inodes_count
one_is_known = let z = sizes in omega arith

open_file_lem_example :
    Ends steady
      (open_file (path_text [] ++ a_text))
      made_a.0
      (some 0)
      (with_table with_a table_with_a made_a.0)
    × HasTable with_a table_with_a (with_table with_a table_with_a made_a.0).bytes
    × IsConsistent table_with_a
    × Opens table_with_a 0 1
    × (get_elem? table_with_a.fd_to_position 0 ≡ some 0)
open_file_lem_example =
    open_file_lem steady-IsSteady with_a empty_table [] a_text 0 _ _ made_a.0 made_a.5 a_place 1
      made_a.3 one_is_known 0 table_with_a (init_descriptors_table-IsConsistent init_super_block)
      reserve-a

dot_found : lookup ((0, b'.' ∷ []) ∷ (0, b'.' ∷ b'.' ∷ []) ∷ []) dot_text ≡ some 0
unfolding lookup
dot_found = refl

root_is_refused : reserve_descriptor empty_table 0 ≡ none
unfolding reserve_descriptor init_descriptors_table init_super_block ext.Descriptors.has_inode
root_is_refused = refl

open_file-refused_example :
    (q : ℕ) × Ends steady
      (open_file (path_text [] ++ dot_text))
      fresh_file
      none
      (record fresh_file { pos = q })
open_file-refused_example =
    open_file-refused steady-IsSteady fresh_superblock empty_table [] dot_text 0 _ _ fresh_file
      fresh_file-HasTable (root_place dot_text dot_is_name (omega arith)) 0 dot_found
      (let z = sizes in omega arith) root_is_refused
