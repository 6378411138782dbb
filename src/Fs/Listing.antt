-- ===== src/Fs/Listing.antt =====
-- ls, against the listing of the entries of a node.
use ext.Base.{
  ℕ, ◌+◌, ◌*◌, ◌≡◌, refl, sym, ◌∙◌, ap, subst, List, [], ◌∷◌, ◌++◌, Option, none, some, length,
  arith, All, append_assoc, append-nil, Option-cases, inl, inr, ne→==, eq→==,
}
use mathlib.Core.Option
use ext.Base.Image.{Bytes}
use ext.Os.{Host, File, pure, IsSteady}
use ext.Os.Ends.{
  Ends, Ends-pure, Ends-bind, Ends-attempt, Ends-element, Ends-if_true, Ends-if_false,
}
use ext.Superblock.{Superblock, root_inode_id, sizeof_superblock}
use ext.Inode.{calculate_offset, sizeof_inode}
use ext.Inode.Store.{read_inode-Ends}
use ext.Block.{block_offset, sizeof_block_record}
use ext.Block.Store.{read_block-directory}
use ext.Methods.Create.{entry}
use ext.Methods.Names.{Entries, records, IsText, Fits, drop-replicate}
use ext.Methods.Walk.{IsPathName, path_text}
use ext.Commands.Fresh.{open_fs-Ends}
use ext.Commands.Listing.{c_string, list_records, newline, ls}
use ext.Fs.{Node, folder, regular, Fs, IsThere, entries_of, walk}
use ext.Fs.Path.{get_inode_id_of_dir-walk}
use ext.Fs.Reach.{IsFolder, walk-IsFolder, folder_at}
use ext.Fs.Represents.{Represents, inode_of, inode_of-IsValid, known, folder_there}
use ext.Fs.Step.{list_dir, perform, step, mark, listing, listed}
use ext.Fs.Table.{Simulates}

-- The name in its array.
c_string-text : (name zeros : Bytes) → IsText name → c_string (name ++ 0 ∷ zeros) ≡ some name
unfolding c_string
c_string-text [] zeros a = refl
c_string-text (x ∷ name) zeros a =
    rw (ne→== x 0 a.0) (ap (λ o. Option.map (λ text. x ∷ text) o) (c_string-text name zeros a.1))

c_string-entry :
    (s : Superblock) (id : ℕ) (name : Bytes)
    → Fits s name
    → c_string (entry s id name).path ≡ some name
c_string-entry s id name v =
    ap (λ l. c_string (name ++ l)) (drop-replicate (length name) s.fs_info.max_path_len v.1)
    ∙ c_string-text name _ v.0

module _ {h : Host} (k : IsSteady h) (fs : Fs) (f : File) (r : Represents fs f.bytes) where
  abbrev Prints : Entries → Bytes → ℕ → Type 0
  Prints entries printed q =
      (p : ℕ) × Ends h
        (list_records (length (records fs.super entries)) (records fs.super entries) fs.super
          printed)
        (record f { pos = q }) (printed ++ listing fs.nodes entries) (record f { pos = p })

  list_records-Ends :
      (entries : Entries) (printed : Bytes) (q : ℕ)
      → All (λ e. Fits fs.super e.1) entries
      → All (λ e. IsThere fs.nodes e.0) entries
      → Prints entries printed q
  unfolding list_records
  list_records-Ends [] printed q v a = (
    q,
    subst (λ l. Ends h (pure printed) (record f { pos = q }) l (record f { pos = q }))
        (sym (append-nil printed)) (Ends-pure printed _),
  )
  list_records-Ends (x ∷ entries) printed q v a =
      let s = fs.super in
      let (nd, e) = a.0 in
      let there = r.sound x.0 nd e in
      let valid = inode_of-IsValid s f.bytes x.0 nd r.sizes r.has.valid there in
      let more = x.1 ++ (mark (some nd) ++ (newline ∷ [])) in
      let same : (printed ++ more) ++ listing fs.nodes entries
          ≡ printed ++ listing fs.nodes (x ∷ entries) =
        append_assoc printed more (listing fs.nodes entries)
        ∙ ap (λ m. printed ++ ((x.1 ++ (m ++ (newline ∷ []))) ++ listing fs.nodes entries))
            (ap mark (sym e)) in
      let (p, rest) =
        list_records-Ends entries (printed ++ more) (calculate_offset s x.0 + sizeof_inode s) v.1
          a.1 in
      (
        p,
        Ends-bind _ _ (Ends-element _ x.1 _ (c_string-entry s x.0 x.1 v.0)) (
            Ends-bind _ _
              (Ends-attempt (read_inode-Ends k s (inode_of s x.0 nd) x.0 _ valid there.inode_there))
              (subst
                (λ l.
                  Ends h
                    (list_records (length (records fs.super entries)) (records s entries) s
                      (printed ++ more))
                    (record f { pos = calculate_offset s x.0 + sizeof_inode s }) l
                    (record f { pos = p }))
                same rest)),
      )

  module _ (names : List Bytes) (v : All (IsPathName fs.super) names) where
    nowhere :
        walk fs.nodes root_inode_id names ≡ none
        → (p : ℕ) × Ends h (ls (path_text names)) f [] (record f { pos = p })
    unfolding ls
    nowhere e =
        let s = fs.super in
        let (p, walked) = get_inode_id_of_dir-walk k fs f.bytes r names (sizeof_superblock s) v in
        (
          p,
          Ends-bind _ _
              (open_fs-Ends k s f r.has.valid r.has.magic r.has.root r.has.superblock_there)
              (Ends-bind _ _ (rw e at walked) (
                Ends-if_true _ _ (eq→== s.fs_info.inodes_count s.fs_info.inodes_count refl)
                  (Ends-pure [] _))),
        )

    at_folder :
        (i b : ℕ) (first : ℕ × Bytes) (others : Entries)
        → walk fs.nodes root_inode_id names ≡ some i
        → fs.nodes i ≡ some (folder b first others)
        → (p : ℕ) × Ends h
            (ls (path_text names))
            f
            (listing fs.nodes (first ∷ others))
            (record f { pos = p })
    unfolding ls folder_there
    at_folder i b first others w e =
        let s = fs.super in
        let (p, walked) = get_inode_id_of_dir-walk k fs f.bytes r names (sizeof_superblock s) v in
        let l = known s f.bytes i _ r.sizes r.has.valid (r.sound i _ e) in
        let d = folder_at fs f.bytes r i b first others e in
        let entries_there =
          subst (λ o. All (λ x. IsThere fs.nodes x.0) (entries_of o)) e (r.closed i) in
        let (q, printed) =
          list_records-Ends (first ∷ others) []
            (block_offset s b + (7 + length (records s (first ∷ others)) * sizeof_block_record s))
            d.entry_names entries_there in
        (
          q,
          Ends-bind _ _
              (open_fs-Ends k s f r.has.valid r.has.magic r.has.root r.has.superblock_there)
              (Ends-bind _ _ (rw w at walked) (
                Ends-if_false _ _ (ne→== i s.fs_info.inodes_count (omega arith)) (
                  Ends-bind _ _
                    (Ends-attempt (read_inode-Ends k s d.inode i _ d.valid d.inode_there))
                    (Ends-bind _ _ (Ends-element _ b _ d.slot) (
                      Ends-bind _ _
                        (Ends-attempt (
                          read_block-directory k s b i (entry s first.0 first.1) (records s others)
                            _ r.has.valid.info.max_path_len d.entry_ranges d.ranges d.block_there))
                        printed))))),
        )

    at_node :
        (i : ℕ) (o : Option Node)
        → walk fs.nodes root_inode_id names ≡ some i
        → fs.nodes i ≡ o
        → IsFolder o
        → (p : ℕ) × Ends h
            (ls (path_text names))
            f
            (listing fs.nodes (entries_of o))
            (record f { pos = p })
    at_node i none w e d = elim d [ ]
    at_node i (some (regular b n contents)) w e d = elim d [ ]
    at_node i (some (folder b first others)) w e d = at_folder i b first others w e

    -- Under a host that fails no call, for a file that represents an abstract file system, ls of
    -- "/name/.../name/" leaves the bytes of the file and prints the names of the entries of the
    -- directory that the names lead to, in their order, each on a line and with " -- file" behind
    -- the name of a file; it prints nothing if a name is missing or a file is in the way or at the
    -- end. The names have a byte, no slash and no NUL, and leave two bytes of max_path_len.
    pub ls-listed :
        (p : ℕ) × Ends h
          (ls (path_text names))
          f
          (listed fs.nodes (walk fs.nodes root_inode_id names))
          (record f { pos = p })
    ls-listed = elim (Option-cases (walk fs.nodes root_inode_id names)) [
      | inl e ↦ rw e (nowhere e)
      | inr (i, e) ↦
          rw e (at_node i (fs.nodes i) e refl (walk-IsFolder fs.nodes root_inode_id i names e))
    ]

    pub list_dir-Simulates : Simulates h (perform (list_dir names)) f (step (list_dir names) fs)
    unfolding step
    list_dir-Simulates =
        let (p, ends) = ls-listed in (record f { pos = p }, Ends-bind _ _ ends (Ends-pure _ _), r)
