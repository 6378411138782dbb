-- ===== src/Tests/Paths.antt =====
-- Paths and directories at concrete inputs, and the directories of a fresh file system.
use ext.Base.{ℕ, ◌<◌, ◌≡◌, ◌≢◌, refl, arith, [], ◌∷◌, ◌++◌, none, some, true}
use ext.Base.Words.{IsU16}
use ext.Os.{pure, ◌>>◌}
use ext.Os.Ends.{Ends}
use ext.Superblock.{init_super_block, root_inode_id, sizeof_superblock}
use ext.Paths.{slash, parse_path, split_path}
use ext.Paths.Parse.{parse_path_lem}
use ext.Paths.Split.{split_path_lem}
use ext.Methods.{create_dir_helper}
use ext.Methods.Names.{lookup}
use ext.Methods.Walk.{IsPathName, IsDirectory}
use ext.Methods.Made.{create_dir_helper_lem}
use ext.Commands.Opening.{open_fs}
use ext.Commands.Init.{init_fs}
use ext.Commands.Fresh.{
  fresh_superblock, fresh_file, two_written, init_super_block-HasRoom, fresh_superblock-FitsWords,
  fresh_sizes, open_fs-init_fs,
}
use ext.Tests.Hosts.{steady, steady-IsSteady, empty_file}

a_is_not_slash : ◌≢◌ {A = ℕ} b'a' slash
a_is_not_slash e = ground arith

dot_is_not_slash : ◌≢◌ {A = ℕ} b'.' slash
dot_is_not_slash e = ground arith

dot_is_byte : ◌≢◌ {A = ℕ} b'.' 0
dot_is_byte e = ground arith

parse_path_lem_example :
    (parse_path (slash ∷ b'a' ∷ []) 16 ≡ pure (b'a' ∷ [], none))
    × (parse_path (slash ∷ (b'a' ∷ []) ++ slash ∷ b'b' ∷ []) 16
        ≡ pure (b'a' ∷ [], some (slash ∷ b'b' ∷ [])))
parse_path_lem_example =
    parse_path_lem b'a' [] (b'b' ∷ []) 16 (a_is_not_slash, tt) (omega arith) (omega arith)

split_path_lem_example :
    (split_path ((slash ∷ b'b' ∷ []) ++ slash ∷ b'a' ∷ [])
      ≡ pure (some ((slash ∷ b'b' ∷ []) ++ slash ∷ [], b'a' ∷ [])))
    × (split_path (((slash ∷ b'b' ∷ []) ++ slash ∷ b'a' ∷ []) ++ slash ∷ [])
        ≡ pure (some ((slash ∷ b'b' ∷ []) ++ slash ∷ [], b'a' ∷ [])))
split_path_lem_example =
    split_path_lem (slash ∷ b'b' ∷ []) b'a' [] (a_is_not_slash, tt) refl (omega arith)

open_fs-init_fs_example :
    Ends steady
      (do init_fs; open_fs)
      empty_file
      fresh_superblock
      (record fresh_file { pos = sizeof_superblock fresh_superblock })
    × IsDirectory fresh_superblock fresh_file.bytes root_inode_id
        (root_inode_id, b'.' ∷ [])
        ((root_inode_id, b'.' ∷ b'.' ∷ []) ∷ [])
open_fs-init_fs_example = open_fs-init_fs steady-IsSteady empty_file

create_dir_helper_lem_example :
    Ends steady
      (create_dir_helper init_super_block 0 true)
      two_written
      (0, fresh_superblock)
      fresh_file
    × IsDirectory fresh_superblock fresh_file.bytes 0 (0, b'.' ∷ []) ((0, b'.' ∷ b'.' ∷ []) ∷ [])
create_dir_helper_lem_example =
    create_dir_helper_lem init_super_block 0 0 0 init_super_block-HasRoom fresh_superblock-FitsWords
      fresh_sizes.0 fresh_sizes.1 two_written steady-IsSteady true refl

fresh_names :
    IsU16 fresh_superblock.fs_info.max_path_len × (2 < fresh_superblock.fs_info.max_path_len)
unfolding init_super_block
fresh_names = (omega arith, omega arith)

dot_is_name : IsPathName fresh_superblock (b'.' ∷ [])
dot_is_name =
    let l = fresh_names.1 in
    record {
      some_byte = omega arith;
      named = (dot_is_not_slash, tt);
      text = (dot_is_byte, tt);
      short = omega arith;
    }

dot_found : lookup ((0, b'.' ∷ []) ∷ (0, b'.' ∷ b'.' ∷ []) ∷ []) (b'.' ∷ []) ≡ some 0
unfolding lookup
dot_found = refl
