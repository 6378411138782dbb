-- ===== src/Fs/Opening.antt =====
-- open_file, against what it does to the nodes and the table.
use ext.Base.{ℕ, ◌≡◌, refl, ◌∙◌, ap, List, ◌∷◌, ◌++◌, Option, none, some, Option-cases, inl, inr}
use ext.Base.Image.{Bytes}
use ext.Os.{Host, File, IsSteady}
use ext.Os.Ends.{Ends, Ends-pure, Ends-bind}
use ext.Superblock.{root_inode_id}
use ext.Descriptors.{DescriptorsTable, reserve_descriptor}
use ext.Methods.Names.{Entries, lookup}
use ext.Methods.Walk.{path_text}
use ext.Commands.Descriptor.{open_file}
use ext.Commands.Keep.{with_table}
use ext.Commands.Opens.{open_file_lem, open_file-refused, open_file-missing}
use ext.Commands.Reach.{Place}
use ext.Fs.{Node, folder, regular, Fs, entered, entered-IsThere, walk}
use ext.Fs.Kept.{Represents-table}
use ext.Fs.Reach.{IsPath, IsFolder, walk-IsFolder, place, to_directory-nowhere}
use ext.Fs.Represents.{Represents, known}
use ext.Fs.Step.{open_path, perform, descriptor, step, opening, opened}
use ext.Fs.Table.{Simulates, touched-Kept}

module _ {h : Host} (k : IsSteady h) (fs : Fs) (f : File) (r : Represents fs f.bytes)
    (names : List Bytes) (name : Bytes) (v : IsPath fs.super names name) where
  abbrev Opened : Option (ℕ × DescriptorsTable) → Type 0
  Opened o = Simulates h (perform (open_path names name)) f (some (opened fs o))

  opens :
      (o : Option ℕ) (q : ℕ)
      → Ends h (open_file (path_text names ++ name)) f o (record f { pos = q })
      → Ends h (perform (open_path names name)) f (descriptor o) (record f { pos = q })
  opens o q e = Ends-bind _ _ e (Ends-pure _ _)

  nowhere : walk fs.nodes root_inode_id names ≡ none → Opened none
  unfolding open_file
  nowhere e =
      let (q, ends) = to_directory-nowhere k fs f r names name none _ v e in
      (record f { pos = q }, opens none q ends, r)

  module _ (i b : ℕ) (first : ℕ × Bytes) (others : Entries)
      (w : walk fs.nodes root_inode_id names ≡ some i)
      (e : fs.nodes i ≡ some (folder b first others)) where
    abbrev at_place : Place fs.super f.bytes names name i first others
    at_place = place fs f.bytes r names name i b first others v w e

    missing : lookup (first ∷ others) name ≡ none → Opened none
    missing l =
        let (q, ends) =
          open_file-missing k fs.super fs.table names name i first others f r.has at_place l in
        (record f { pos = q }, opens none q ends, r)

    at_inode :
        (inode : ℕ)
        → lookup (first ∷ others) name ≡ some inode
        → Opened (reserve_descriptor fs.table inode)
    at_inode inode l =
        let s = fs.super in
        let (nd, there) =
          entered-IsThere fs.nodes i inode name r.closed (ap (λ o. entered o name) e ∙ l) in
        let bound = known s f.bytes inode nd r.sizes r.has.valid (r.sound inode nd there) in
        elim (Option-cases (reserve_descriptor fs.table inode)) [
          | inl n ↦
              let (q, ends) =
                open_file-refused k s fs.table names name i first others f r.has at_place inode l
                  bound n in
              rw n (record f { pos = q }, opens none q ends, r)
          | inr ((fd, new), n) ↦
              let (ends, has, consistent, is_open, start) =
                open_file_lem k s fs.table names name i first others f r.has at_place inode l bound
                  fd new r.consistent n in
              let g = with_table s new f in
              rw n (
                g,
                Ends-bind _ _ ends (Ends-pure _ _),
                Represents-table fs f.bytes g.bytes new r has consistent
                    (touched-Kept fs f r new g.bytes has.table_valid (inr refl)),
              )
        ]

    at_name : Opened (opening fs (lookup (first ∷ others) name))
    at_name = elim (Option-cases (lookup (first ∷ others) name)) [
      | inl l ↦ rw l (missing l)
      | inr (inode, l) ↦ rw l (at_inode inode l)
    ]

  at_node :
      (i : ℕ) (o : Option Node)
      → walk fs.nodes root_inode_id names ≡ some i
      → fs.nodes i ≡ o
      → IsFolder o
      → Opened (opening fs (entered o name))
  at_node i none w e d = elim d [ ]
  at_node i (some (regular b n contents)) w e d = elim d [ ]
  at_node i (some (folder b first others)) w e d = at_name i b first others w e

  pub open_path-Simulates :
      Simulates h (perform (open_path names name)) f (step (open_path names name) fs)
  unfolding step
  open_path-Simulates = elim (Option-cases (walk fs.nodes root_inode_id names)) [
    | inl e ↦ rw e (nowhere e)
    | inr (i, e) ↦
        rw e (at_node i (fs.nodes i) e refl (walk-IsFolder fs.nodes root_inode_id i names e))
  ]
