-- ===== src/Fs/Reach.antt =====
-- The commands that take a path, at the directory that the walk over the nodes finds.
use ext.Base.{
  ℕ, ◌+◌, ◌<◌, ◌≡◌, refl, sym, ◌∙◌, subst, List, [], ◌∷◌, ◌++◌, Option, none, some, length, arith,
  All, Option-cases, inl, inr, eq→==,
}
use ext.Base.Image.{Bytes}
use ext.Os.{Host, File, M, IsSteady}
use ext.Os.Ends.{Ends, Ends-pure, Ends-bind, Ends-if_true}
use ext.Superblock.{Superblock, root_inode_id, sizeof_superblock}
use ext.Inode.{Inode}
use ext.Paths.{buffer_length}
use ext.Methods.Names.{Entries}
use ext.Methods.Walk.{IsDirectory, IsPathName, Walk, arrive, enter, path_text}
use ext.Commands.Fresh.{open_fs-Ends}
use ext.Commands.Reach.{Place, to_directory, split_path-path_text}
use ext.Fs.{
  Node, folder, regular, Nodes, Fs, entered, arrived, none_is_not_some, some_inj, walk,
  walk-arrived, walk-none, walk-some,
}
use ext.Fs.Path.{get_inode_id_of_dir-walk}
use ext.Fs.Represents.{Represents, folder_there, known}

-- The names of a path fit the arrays of the functions that split it.
pub record IsPath (s : Superblock) (names : List Bytes) (name : Bytes) : Type 0 where
  pub parts : All (IsPathName s) names
  pub last : IsPathName s name
  pub short : length (path_text names ++ name) + 1 < buffer_length

-- A node that is a directory, with its parts.
pub data IsFolder : Option Node → Type 0 where
  is_folder :
      (b : ℕ) (first : ℕ × Bytes) (others : Entries) → IsFolder (some (folder b first others))

arrived-IsFolder : (o : Option Node) (i j : ℕ) → arrived o i ≡ some j → IsFolder o × (i ≡ j)
arrived-IsFolder none i j e = absurd (none_is_not_some j e)
arrived-IsFolder (some (regular b n contents)) i j e = absurd (none_is_not_some j e)
arrived-IsFolder (some (folder b first others)) i j e = (is_folder b first others, some_inj i j e)

-- The walk ends at a directory.
pub walk-IsFolder :
    (nodes : Nodes) (i last : ℕ) (names : List Bytes)
    → walk nodes i names ≡ some last
    → IsFolder (nodes last)
walk-IsFolder nodes i last [] e =
    let (d, same) =
      arrived-IsFolder (nodes i) i last (sym (walk-arrived nodes i (nodes i) refl) ∙ e) in
    subst (λ j. IsFolder (nodes j)) same d
walk-IsFolder nodes i last (name ∷ names) e = elim (Option-cases (entered (nodes i) name)) [
  | inl n ↦ absurd (none_is_not_some last (sym (walk-none nodes i name names n) ∙ e))
  | inr (next, n) ↦
      walk-IsFolder nodes next last names (sym (walk-some nodes i next name names n) ∙ e)
]

entered-IsFolder :
    (o : Option Node) (name : Bytes) (next : ℕ) → entered o name ≡ some next → IsFolder o
entered-IsFolder none name next e = absurd (none_is_not_some next e)
entered-IsFolder (some (regular b n contents)) name next e = absurd (none_is_not_some next e)
entered-IsFolder (some (folder b first others)) name next e = is_folder b first others

module _ (fs : Fs) (bytes : Bytes) (r : Represents fs bytes) where
  -- The directory of a node in the file.
  abbrev pub folder_at :
      (i b : ℕ) (first : ℕ × Bytes) (others : Entries)
      → fs.nodes i ≡ some (folder b first others)
      → IsDirectory fs.super bytes i first others
  folder_at i b first others e =
      folder_there fs.super i b first others bytes r.sizes r.has.valid (r.sound i _ e)

  arrive_at : (i : ℕ) (o : Option Node) → fs.nodes i ≡ o → IsFolder o → Walk fs.super bytes i [] i
  arrive_at i none e d = elim d [ ]
  arrive_at i (some (regular b n contents)) e d = elim d [ ]
  arrive_at i (some (folder b first others)) e d = arrive (folder_at i b first others e)

  enter_at :
      (i next last : ℕ) (name : Bytes) (names : List Bytes) (o : Option Node)
      → fs.nodes i ≡ o
      → entered o name ≡ some next
      → Walk fs.super bytes next names last
      → Walk fs.super bytes i (name ∷ names) last
  enter_at i next last name names none e n w = absurd (none_is_not_some next n)
  enter_at i next last name names (some (regular b m contents)) e n w =
      absurd (none_is_not_some next n)
  enter_at i next last name names (some (folder b first others)) e n w =
      enter (folder_at i b first others e) n w

  -- A walk over the nodes is a walk in the file.
  pub walk-Walk :
      (i last : ℕ) (names : List Bytes)
      → walk fs.nodes i names ≡ some last
      → Walk fs.super bytes i names last
  walk-Walk i last [] e =
      let (d, same) =
        arrived-IsFolder (fs.nodes i) i last (sym (walk-arrived fs.nodes i _ refl) ∙ e) in
      subst (Walk fs.super bytes i []) same (arrive_at i (fs.nodes i) refl d)
  walk-Walk i last (name ∷ names) e = elim (Option-cases (entered (fs.nodes i) name)) [
    | inl n ↦ absurd (none_is_not_some last (sym (walk-none fs.nodes i name names n) ∙ e))
    | inr (next, n) ↦
        enter_at i next last name names (fs.nodes i) refl n
          (walk-Walk next last names (sym (walk-some fs.nodes i next name names n) ∙ e))
  ]

  -- The place that the walk finds.
  unfoldable pub place :
      (names : List Bytes) (name : Bytes) (i b : ℕ) (first : ℕ × Bytes) (others : Entries)
      → IsPath fs.super names name
      → walk fs.nodes root_inode_id names ≡ some i
      → fs.nodes i ≡ some (folder b first others)
      → Place fs.super bytes names name i first others
  place names name i b first others v w e =
      let l = r.sizes.names in
      record {
        small = r.has.valid.info.max_path_len;
        long = omega arith;
        parts = v.parts;
        walk = walk-Walk root_inode_id i names w;
        there = folder_at i b first others e;
        known = known fs.super bytes i _ r.sizes r.has.valid (r.sound i _ e);
        last = v.last;
        fits = v.short;
      }

-- Where the path leads to no directory, the commands do nothing.
pub to_directory-nowhere :
    {B : Type 0} {h : Host} (k : IsSteady h) (fs : Fs) (f : File) (r : Represents fs f.bytes)
    (names : List Bytes) (name : Bytes) (nothing : B) (rest : Superblock → ℕ → Inode → Bytes → M B)
    → IsPath fs.super names name
    → walk fs.nodes root_inode_id names ≡ none
    → (p : ℕ) × Ends h
        (to_directory (path_text names ++ name) nothing rest)
        f
        nothing
        (record f { pos = p })
to_directory-nowhere k fs f r names name nothing rest v e =
    let s = fs.super in
    let (p, walked) = get_inode_id_of_dir-walk k fs f.bytes r names (sizeof_superblock s) v.parts in
    (
      p,
      Ends-bind _ _ (open_fs-Ends k s f r.has.valid r.has.magic r.has.root r.has.superblock_there) (
          rw (split_path-path_text s names name v.last v.short) (
            Ends-bind _ _ (Ends-pure _ _) (
              Ends-bind _ _ (rw e at walked) (
                Ends-if_true _ _ (eq→== s.fs_info.inodes_count s.fs_info.inodes_count refl)
                  (Ends-pure nothing _))))),
    )
