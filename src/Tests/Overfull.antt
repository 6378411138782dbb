-- ===== src/Tests/Overfull.antt =====
-- Four files fill the root directory; the fifth has no room.
use ext.Base.{ℕ, ◌≡◌, ◌≢◌, refl, arith, List, [], ◌∷◌, ◌++◌, none, some, All, length}
use ext.Base.Holds.{Holds}
use ext.Os.{File}
use ext.Paths.{slash}
use ext.Os.Ends.{Ends}
use ext.Os.Faults.{Faults}
use ext.Superblock.{init_super_block, first_free, root_inode_id}
use ext.Superblock.Store.{bytes_of_superblock}
use ext.Block.{max_size_of_data, get_max_records_count, sizeof_block_record}
use ext.Methods.Create.{taken}
use ext.Methods.Names.{Entries, lookup}
use ext.Methods.Walk.{IsDirectory, path_text}
use ext.Commands.Create.{create_dir, create_file}
use ext.Commands.Fresh.{fresh_superblock, fresh_file}
use ext.Fs.{Fs, folder, walk}
use ext.Fs.Fresh.{fresh_fs, fresh_file-Represents}
use ext.Fs.Overfull.{create-full}
use ext.Fs.Reach.{IsPath}
use ext.Fs.Represents.{Represents}
use ext.Fs.Run.{perform_all, run, perform_all-run}
use ext.Fs.Sizes.{IsRequest}
use ext.Fs.Step.{Request, make_file, Reply, nothing, step}
use ext.Tests.Hosts.{steady, steady-IsSteady}
use ext.Tests.System.{a_is_name, last_of}

abbrev fill : List Request
fill =
    make_file [] (b'a' ∷ [])
    ∷ make_file [] (b'b' ∷ [])
    ∷ make_file [] (b'c' ∷ [])
    ∷ make_file [] (b'd' ∷ [])
    ∷ []

abbrev full_fs : Fs
full_fs = last_of (run fill fresh_fs)

abbrev nothings : List Reply
nothings = nothing ∷ nothing ∷ nothing ∷ nothing ∷ []

fill_runs : run fill fresh_fs ≡ some (nothings, full_fs)
unfolding run step walk lookup first_free init_super_block max_size_of_data get_max_records_count
    sizeof_block_record
fill_runs = refl

abbrev is_path : (c : ℕ) → c ≢ 0 → c ≢ slash → IsPath fresh_superblock [] (c ∷ [])
is_path c no_nul no_slash = record {
  parts = tt;
  last = a_is_name c no_nul no_slash;
  short = omega arith;
}

fill-All : All (IsRequest fresh_superblock) fill
fill-All = (
  is_path b'a' (λ e. ground arith) (λ e. ground arith),
  (
    is_path b'b' (λ e. ground arith) (λ e. ground arith),
    (
      is_path b'c' (λ e. ground arith) (λ e. ground arith),
      (is_path b'd' (λ e. ground arith) (λ e. ground arith), tt),
    ),
  ),
)

abbrev filled :
    (g : File) × Ends steady (perform_all fill) fresh_file nothings g × Represents full_fs g.bytes
filled =
    perform_all-run steady-IsSteady fill fresh_fs fresh_file nothings full_fs fresh_file-Represents
      fill-All fill_runs

abbrev others : Entries
others =
    (0, b'.' ∷ b'.' ∷ []) ∷ (1, b'a' ∷ []) ∷ (2, b'b' ∷ []) ∷ (3, b'c' ∷ []) ∷ (4, b'd' ∷ []) ∷ []

e_is_path : IsPath full_fs.super [] (b'e' ∷ [])
unfolding run step walk lookup first_free init_super_block max_size_of_data get_max_records_count
    sizeof_block_record
e_is_path =
    let v = is_path b'e' (λ e. ground arith) (λ e. ground arith) in
    record {
      parts = tt;
      last = record {
        some_byte = v.last.some_byte;
        named = v.last.named;
        text = v.last.text;
        short = v.last.short;
      };
      short = v.short;
    }

full_facts :
    (walk full_fs.nodes root_inode_id [] ≡ some 0)
    × (full_fs.nodes 0 ≡ some (folder 0 (0, b'.' ∷ []) others))
    × (lookup ((0, b'.' ∷ []) ∷ others) (b'e' ∷ []) ≡ none)
    × (length ((0, b'.' ∷ []) ∷ others) ≡ get_max_records_count full_fs.super)
    × (first_free full_fs.super.reserved_inodes_mask ≡ some 5)
    × (first_free full_fs.super.reserved_blocks_mask ≡ some 5)
unfolding run step walk lookup first_free init_super_block max_size_of_data get_max_records_count
    sizeof_block_record
full_facts = (refl, refl, refl, refl, refl, refl)

create-full_example :
    Faults steady (create_dir (path_text [] ++ b'e' ∷ [])) filled.0
    × ((g : File) × Ends steady (create_file (path_text [] ++ b'e' ∷ [])) filled.0 tt g
        × Holds g.bytes 0 (bytes_of_superblock (taken full_fs.super 5 5))
        × IsDirectory (taken full_fs.super 5 5) g.bytes 0 (0, b'.' ∷ []) others)
create-full_example =
    create-full steady-IsSteady full_fs filled.0 filled.2 [] (b'e' ∷ []) e_is_path 5 5 0 0
      (0, b'.' ∷ []) others full_facts.0 full_facts.1 full_facts.2 full_facts.3 full_facts.4
      full_facts.5
