-- ===== src/Commands/Entry.antt =====
-- A directory with one more entry: what append_record of create_dir.h and create_file.h does.
use ext.Base.{
  ℕ, suc, ◌+◌, ◌*◌, ◌-◌, ◌^◌, ◌%◌, ◌/◌, ◌<◌, ◌≤◌, ◌≡◌, refl, ap, arith, [], ◌∷◌, ◌++◌, length,
  length-append, length-map, length-replicate, replicate, some, none, text_eq, text_eq_refl,
  take-all, Bool-cases, inl, inr, lt→ltb,
}
use native.Mathlib.Nat.{le-div_iff_mul-le}
use ext.Base.Image.{Bytes}
use ext.Os.{pure, ◌>>=◌}
use ext.Superblock.{Superblock}
use ext.Block.{get_max_records_count, sizeof_block_record, init_block_record}
use ext.Block.Store.{directory}
use ext.Methods.Create.{entry, put_text-pure}
use ext.Methods.Names.{Entries, records, lookup}
use ext.Commands.Create.{append_record}

small_rest : (m k n : ℕ) → 0 < k → n < m / k → suc n * k ≤ m
small_rest m k n z l = (le-div_iff_mul-le z).0 (omega arith)

-- A count below get_max_records_count leaves the block room for one more record.
pub room_for_record :
    (s : Superblock) (n : ℕ)
    → 7 ≤ s.fs_info.block_size
    → s.fs_info.block_size < 2 ^ 16
    → n < get_max_records_count s
    → (7 + suc n * sizeof_block_record s ≤ s.fs_info.block_size) × (suc n < 2 ^ 8)
unfolding get_max_records_count sizeof_block_record
room_for_record s n b r l =
    let m = (s.fs_info.block_size + 2 ^ 64 - 7) % 2 ^ 64 % 2 ^ 8 in
    let k = small_rest m (sizeof_block_record s) n (omega arith) l in (omega arith, omega arith)

-- The entries with a new one behind them.
abbrev pub extended : Entries → ℕ → Bytes → Entries
extended entries id name = entries ++ (id, name) ∷ []

pub lookup-extended :
    (entries : Entries) (id : ℕ) (name : Bytes)
    → lookup entries name ≡ none
    → lookup (extended entries id name) name ≡ some id
unfolding lookup
lookup-extended [] id name e = rw (text_eq_refl name)
lookup-extended (x ∷ entries) id name e = elim (Bool-cases (text_eq x.1 name)) [
  | inl b ↦ cc
  | inr b ↦ rw b (lookup-extended entries id name (rw b at e))
]

pub records-extended :
    (s : Superblock) (entries : Entries) (id : ℕ) (name : Bytes)
    → records s (extended entries id name) ≡ records s entries ++ entry s id name ∷ []
records-extended s [] id name = refl
records-extended s (x ∷ entries) id name =
    ap (λ l. entry s x.0 x.1 ∷ l) (records-extended s entries id name)

pub length-extended :
    (entries : Entries) (id : ℕ) (name : Bytes)
    → length (extended entries id name) ≡ suc (length entries)
length-extended entries id name = omega (arith, length-append entries ((id, name) ∷ []))

module _ (s : Superblock) (b dir id : ℕ) (entries : Entries) (name : Bytes) where
  pub append_record_lem :
      length name < s.fs_info.max_path_len
      → suc (length entries) < 2 ^ 8
      → append_record (directory s b dir (records s entries)) id name s
        ≡ pure (directory s b dir (records s (extended entries id name)))
  unfolding append_record init_block_record ◌>>=◌ pure
  append_record_lem l m =
      let zeros : Bytes = replicate s.fs_info.max_path_len 0 in
      let n = length-replicate {A = ℕ} s.fs_info.max_path_len 0 in
      let size = length-map (λ e. entry s e.0 e.1) entries in
      let more = length-append (records s entries) (entry s id name ∷ []) in
      let count : (length (records s entries) + 1) % 2 ^ 8
          ≡ length (records s entries ++ entry s id name ∷ []) =
        omega arith in
      rw (lt→ltb (length name) (length zeros) (omega arith), put_text-pure name zeros (omega arith))
        (rw
          (
            records-extended s entries id name,
            take-all (length (records s entries)) (records s entries) (omega arith),
            count,
          )
          refl)
