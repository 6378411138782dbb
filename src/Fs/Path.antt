-- ===== src/Fs/Path.antt =====
-- get_inode_id_of_dir of methods.c, against the walk over the nodes.
use ext.Base.{
  ℕ, zero, suc, ◌+◌, ◌*◌, ◌<◌, ◌≡◌, sym, subst, ◌∙◌, ap, Bool, true, false, List, [], ◌∷◌, Option,
  none, some, length, arith, All, Option-cases, inl, inr,
}
use ext.Base.Image.{Bytes}
use ext.Os.{Host, IsSteady}
use ext.Os.Ends.{Ends, Ends-pure, Ends-bind, Ends-attempt}
use ext.Superblock.{Superblock, root_inode_id}
use ext.Inode.{calculate_offset, sizeof_inode}
use ext.Inode.Store.{read_inode-Ends}
use ext.Block.{block_offset, sizeof_block_record}
use ext.Methods.{get_inode_id_of_dir_rec, get_inode_id_of_dir}
use ext.Methods.Names.{Entries, records, lookup}
use ext.Methods.Walk.{IsDirectory, IsPathName, path_text, step_in, step_end, length-path_text}
use ext.Fs.{
  Node, folder, regular, Fs, entered, entered-IsThere, none_is_not_some, walk, walk-arrived,
  walk-none, walk-some,
}
use ext.Fs.Represents.{IsNode, Represents, inode_of, inode_of-IsValid, folder_there}

-- What get_inode_id_of_dir_rec returns for a walk that ended somewhere, or was stuck at an inode.
abbrev pub answer : ℕ → Option ℕ → Bool × ℕ
answer stuck none = (false, stuck)
answer stuck (some last) = (true, last)

-- The inode that stands for an error is inodes_count.
abbrev pub inode_or : ℕ → Option ℕ → ℕ
inode_or count none = count
inode_or count (some last) = last

module _ {h : Host} (k : IsSteady h) (fs : Fs) (bytes : Bytes) (r : Represents fs bytes) where
  abbrev s : Superblock
  s = fs.super

  -- The recursion ends with the answer for `o`, wherever the file stands.
  abbrev Answers : ℕ → List Bytes → ℕ → Option ℕ → Type 0
  Answers fuel names i o =
      (p stuck : ℕ) × ((q : ℕ)
        → Ends h (get_inode_id_of_dir_rec fuel (path_text names) i s)
            (record { bytes = bytes; pos = q }) (answer stuck o)
            (record { bytes = bytes; pos = p }))

  at_regular :
      (fuel : ℕ) (names : List Bytes) (i b n : ℕ) (contents : Bytes)
      → IsNode s bytes i (regular b n contents)
      → Answers (suc fuel) names i none
  unfolding get_inode_id_of_dir_rec
  at_regular fuel names i b n contents there =
      let nd = regular b n contents in
      let v = inode_of-IsValid s bytes i nd r.sizes r.has.valid there in
      (
        calculate_offset s i + sizeof_inode s,
        i,
        λ q.
            Ends-bind _ _
              (Ends-attempt (read_inode-Ends k s (inode_of s i nd) i _ v there.inode_there))
              (Ends-pure (false, i) _),
      )

  at_end :
      (fuel i : ℕ) (first : ℕ × Bytes) (others : Entries)
      → IsDirectory s bytes i first others
      → Answers (suc fuel) [] i (some i)
  at_end fuel i first others d =
      let l = r.sizes.names in
      (
        calculate_offset s i + sizeof_inode s,
        i,
        λ q.
            step_end k s r.has.valid.info.max_path_len fuel i first others
              (record { bytes = bytes; pos = q }) d (omega arith),
      )

  at_missing :
      (fuel i : ℕ) (name : Bytes) (names : List Bytes) (first : ℕ × Bytes) (others : Entries)
      → IsDirectory s bytes i first others
      → IsPathName s name
      → lookup (first ∷ others) name ≡ none
      → Answers (suc fuel) (name ∷ names) i none
  at_missing fuel i name names first others d v e = (
    block_offset s d.block_id + (7 + length (records s (first ∷ others)) * sizeof_block_record s),
    i,
    λ q.
        step_in k s r.has.valid.info.max_path_len fuel i _ none (false, i) first others name names
          (record { bytes = bytes; pos = q }) d v e (Ends-pure (false, i) _),
  )

  at_found :
      (fuel i next : ℕ) (name : Bytes) (names : List Bytes) (first : ℕ × Bytes) (others : Entries)
      (o : Option ℕ)
      → IsDirectory s bytes i first others
      → IsPathName s name
      → lookup (first ∷ others) name ≡ some next
      → Answers fuel names next o
      → Answers (suc fuel) (name ∷ names) i o
  at_found fuel i next name names first others o d v e (p, stuck, rest) = (
    p,
    stuck,
    λ q.
        step_in k s r.has.valid.info.max_path_len fuel i p (some next) (answer stuck o) first others
          name names (record { bytes = bytes; pos = q }) d v e (rest _),
  )

  get_inode_id_of_dir_rec-walk :
      (fuel : ℕ) (names : List Bytes) (i : ℕ) (nd : Node)
      → fs.nodes i ≡ some nd
      → All (IsPathName s) names
      → length names < fuel
      → Answers fuel names i (walk fs.nodes i names)
  unfolding walk
  get_inode_id_of_dir_rec-walk zero names i nd e v l = absurd (omega arith)
  get_inode_id_of_dir_rec-walk (suc fuel) [] i (regular b n contents) e v l =
      subst (Answers (suc fuel) [] i) (sym (walk-arrived fs.nodes i _ e))
        (at_regular fuel [] i b n contents (r.sound i _ e))
  get_inode_id_of_dir_rec-walk (suc fuel) (name ∷ names) i (regular b n contents) e v l =
      subst (Answers (suc fuel) (name ∷ names) i)
        (sym (walk-none fs.nodes i name names (ap (λ o. entered o name) e)))
        (at_regular fuel (name ∷ names) i b n contents (r.sound i _ e))
  get_inode_id_of_dir_rec-walk (suc fuel) [] i (folder b first others) e v l =
      subst (Answers (suc fuel) [] i) (sym (walk-arrived fs.nodes i _ e)) (
        at_end fuel i first others
          (folder_there s i b first others bytes r.sizes r.has.valid (r.sound i _ e)))
  get_inode_id_of_dir_rec-walk (suc fuel) (name ∷ names) i (folder b first others) e v l =
      let d = folder_there s i b first others bytes r.sizes r.has.valid (r.sound i _ e) in
      elim (Option-cases (lookup (first ∷ others) name)) [
        | inl missing ↦
            let at_node : entered (fs.nodes i) name ≡ none = ap (λ o. entered o name) e ∙ missing in
            subst (Answers (suc fuel) (name ∷ names) i)
              (sym (walk-none fs.nodes i name names at_node))
              (at_missing fuel i name names first others d v.0 missing)
        | inr (next, found) ↦
            let at_node : entered (fs.nodes i) name ≡ some next =
              ap (λ o. entered o name) e ∙ found in
            let (md, there) = entered-IsThere fs.nodes i next name r.closed at_node in
            subst (Answers (suc fuel) (name ∷ names) i)
              (sym (walk-some fs.nodes i next name names at_node))
              (at_found fuel i next name names first others _ d v.0 found
                (get_inode_id_of_dir_rec-walk fuel names next md there v.1 (omega arith)))
      ]

  root_there : (nd : Node) × (fs.nodes root_inode_id ≡ some nd)
  root_there = elim (Option-cases (fs.nodes root_inode_id)) [
    | inl e ↦ let d = r.root in absurd (none_is_not_some _ (rw e at d))
    | inr (nd, e) ↦ (nd, e)
  ]

  -- Under a host that fails no call, for a file that represents an abstract file system,
  -- get_inode_id_of_dir of "/name/.../name/" leaves the bytes of the file, has enough fuel, and
  -- returns the inode of the directory that the names lead to from the root if every name is an
  -- entry of the directory before it and the last leads to a directory, and inodes_count if a name
  -- is missing or a file is in the way or at the end. The names have a byte, no slash and no NUL,
  -- and leave two bytes of max_path_len.
  pub get_inode_id_of_dir-walk :
      (names : List Bytes) (q : ℕ)
      → All (IsPathName fs.super) names
      → (p : ℕ) × Ends h
          (get_inode_id_of_dir (path_text names) fs.super)
          (record { bytes = bytes; pos = q })
          (inode_or fs.super.fs_info.inodes_count (walk fs.nodes root_inode_id names))
          (record { bytes = bytes; pos = p })
  unfolding get_inode_id_of_dir
  get_inode_id_of_dir-walk names q v =
      let (nd, e) = root_there in
      let (p, stuck, ends) =
        get_inode_id_of_dir_rec-walk _ names root_inode_id nd e v (length-path_text names) in
      (
        p,
        Ends-bind _ _ (ends q) (elim (Option-cases (walk fs.nodes root_inode_id names)) [
          | inl n ↦ rw n (Ends-pure _ _)
          | inr (last, n) ↦ rw n (Ends-pure _ _)
        ]),
      )
