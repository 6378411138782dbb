-- ===== src/Tests/System.antt =====
-- "init", "mkdir /a", "touch /a/f", "open /a/f", a write, "lseek", a read and "close".
use ext.Base.{ℕ, ◌+◌, ◌<◌, ◌≡◌, ◌≢◌, refl, arith, List, [], ◌∷◌, none, some, All}
use ext.Base.Image.{Bytes}
use ext.Os.{File, ◌>>◌}
use ext.Os.Ends.{Ends}
use ext.Superblock.{init_super_block, first_free, root_inode_id}
use ext.Descriptors.{init_descriptors_table, reserve_descriptor, has_inode}
use ext.Block.{
  max_size_of_data, get_max_records_count, get_max_data_size_of_all_blocks, sizeof_block_record,
}
use ext.Paths.{slash}
use ext.Methods.{get_inode_id_of_dir}
use ext.Methods.Names.{lookup}
use ext.Methods.Walk.{IsPathName, path_text}
use ext.Commands.Fresh.{fresh_superblock, fresh_file, two_written}
use ext.Commands.Init.{init_fs}
use ext.Commands.Listing.{newline, ls}
use ext.Fs.{Fs, walk}
use ext.Fs.Fresh.{fresh_fs, fresh_file-Represents, perform_all-init_fs}
use ext.Fs.Path.{inode_or, get_inode_id_of_dir-walk}
use ext.Fs.Listing.{ls-listed}
use ext.Fs.Reach.{IsPath}
use ext.Fs.Represents.{Represents}
use ext.Fs.Run.{perform_all, run, Outcome, perform_all-run}
use ext.Fs.Sizes.{IsRequest}
use ext.Fs.Step.{
  Request, make_dir, make_file, open_path, list_dir, close_fd, seek_fd, write_fd, read_fd, Reply,
  nothing, descriptor, total, content, step, listed,
}
use ext.Tests.Hosts.{steady, steady-IsSteady}

abbrev script : List Request
script =
    make_dir [] (b'a' ∷ [])
    ∷ make_file ((b'a' ∷ []) ∷ []) (b'f' ∷ [])
    ∷ open_path ((b'a' ∷ []) ∷ []) (b'f' ∷ [])
    ∷ write_fd 0 (b'h' ∷ b'i' ∷ [])
    ∷ seek_fd 0 1
    ∷ read_fd 0 1
    ∷ close_fd 0
    ∷ list_dir ((b'a' ∷ []) ∷ [])
    ∷ []

-- ".", ".." and the file, each on its line.
abbrev printed : Bytes
printed =
    b'.' ∷ newline ∷ b'.' ∷ b'.' ∷ newline ∷ b'f' ∷ b' ' ∷ b'-' ∷ b'-' ∷ b' ' ∷ b'f' ∷ b'i' ∷ b'l'
    ∷ b'e' ∷ newline ∷ []

abbrev replies : List Reply
replies =
    nothing
    ∷ nothing
    ∷ descriptor (some 0)
    ∷ total (some 2)
    ∷ nothing
    ∷ content (b'i' ∷ [])
    ∷ nothing
    ∷ content printed
    ∷ []

abbrev pub last_of : Outcome → Fs
last_of none = fresh_fs
last_of (some (outputs, last)) = last

script_runs : run script fresh_fs ≡ some (replies, last_of (run script fresh_fs))
unfolding run step walk lookup first_free reserve_descriptor has_inode init_super_block
    init_descriptors_table max_size_of_data get_max_records_count get_max_data_size_of_all_blocks
    sizeof_block_record ext.Base.Image.read_at ext.Base.Image.write_at
script_runs = refl

abbrev last : Fs
last = last_of (run script fresh_fs)

pub a_is_name : (c : ℕ) → c ≢ 0 → c ≢ slash → IsPathName fresh_superblock (c ∷ [])
unfolding init_super_block
a_is_name c no_nul no_slash = record {
  some_byte = omega arith;
  named = (no_slash, tt);
  text = (no_nul, tt);
  short = omega arith;
}

script-All : All (IsRequest fresh_superblock) script
script-All =
    let a = a_is_name b'a' (λ e. ground arith) (λ e. ground arith) in
    let f = a_is_name b'f' (λ e. ground arith) (λ e. ground arith) in
    let of_a : IsPath fresh_superblock [] (b'a' ∷ []) = record {
      parts = tt;
      last = a;
      short = omega arith;
    } in
    let of_f : IsPath fresh_superblock ((b'a' ∷ []) ∷ []) (b'f' ∷ []) = record {
      parts = (a, tt);
      last = f;
      short = omega arith;
    } in
    (of_a, (of_f, (of_f, (tt, (tt, (tt, (tt, ((a, tt), tt))))))))

perform_all-run_example :
    (g : File) × Ends steady (perform_all script) fresh_file replies g × Represents last g.bytes
perform_all-run_example =
    perform_all-run steady-IsSteady script fresh_fs fresh_file replies last fresh_file-Represents
      script-All script_runs

perform_all-init_fs_example :
    (g : File) × Ends steady (do init_fs; perform_all script) two_written replies g
    × Represents last g.bytes
perform_all-init_fs_example =
    perform_all-init_fs steady-IsSteady script two_written replies last script-All script_runs

-- "/a/" is not there yet.
get_inode_id_of_dir-walk_example :
    (p : ℕ) × Ends steady
      (get_inode_id_of_dir (path_text ((b'a' ∷ []) ∷ [])) fresh_superblock)
      (record { bytes = fresh_file.bytes; pos = 0 })
      (inode_or fresh_superblock.fs_info.inodes_count
        (walk fresh_fs.nodes root_inode_id ((b'a' ∷ []) ∷ [])))
      (record { bytes = fresh_file.bytes; pos = p })
get_inode_id_of_dir-walk_example =
    get_inode_id_of_dir-walk steady-IsSteady fresh_fs fresh_file.bytes fresh_file-Represents
      ((b'a' ∷ []) ∷ []) 0 (a_is_name b'a' (λ e. ground arith) (λ e. ground arith), tt)

-- The root has "." and "..".
ls-listed_example :
    (p : ℕ) × Ends steady
      (ls (path_text []))
      fresh_file
      (listed fresh_fs.nodes (walk fresh_fs.nodes root_inode_id []))
      (record fresh_file { pos = p })
ls-listed_example = ls-listed steady-IsSteady fresh_fs fresh_file fresh_file-Represents [] tt
