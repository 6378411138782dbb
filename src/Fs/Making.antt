-- ===== src/Fs/Making.antt =====
-- create_dir and create_file, against what they do to the nodes.
use ext.Base.{
  ℕ, ◌<◌, ◌≡◌, refl, Bool, true, false, List, ◌∷◌, ◌++◌, Option, none, some, length, arith, ltb,
  ltb→lt,
}
use ext.Base.Image.{Bytes}
use ext.Os.{Host, File, M, pure, fault, IsSteady, ◌>>◌}
use ext.Os.Ends.{Ends, Ends-pure, Ends-bind}
use ext.Superblock.{Superblock, root_inode_id, first_free}
use ext.Block.{get_max_records_count}
use ext.Methods.{create_dir_helper, create_file_helper}
use ext.Methods.Create.{taken, create_dir_helper-Ends}
use ext.Methods.CreateFile.{create_file_helper-Ends}
use ext.Methods.Names.{Entries, lookup}
use ext.Methods.Walk.{path_text}
use ext.Commands.Create.{create_dir, create_file, link}
use ext.Commands.Created.{link-Ends}
use ext.Commands.Mkdir.{create_dir-exists}
use ext.Commands.Reach.{Place, to_directory-Ends, is_dir_exist-Ends}
use ext.Fs.{Node, folder, regular, Fs, walk}
use ext.Fs.Linked.{made-Represents}
use ext.Fs.Placed.{parent_before}
use ext.Fs.Made.{there, room, can, before_link, four}
use ext.Fs.Reach.{IsPath, IsFolder, walk-IsFolder, place, to_directory-nowhere}
use ext.Fs.Represents.{Represents, folder_there}
use ext.Fs.Step.{make_dir, make_file, perform, Reply, nothing, step, make_in, make_at, make_from}
use ext.Fs.Table.{Simulates}
use ext.Fs.Writes.{three}

-- What the two commands do in the directory, and on the path.
abbrev create : Bool → Bytes → M (Unit {0})
create false path = create_dir path
create true path = create_file path

abbrev helper : Bool → Superblock → ℕ → M (ℕ × Superblock)
helper false s parent = create_dir_helper s parent false
helper true s parent = create_file_helper s parent

module _ {h : Host} (k : IsSteady h) (fs : Fs) (f : File) (r : Represents fs f.bytes)
    (is_file : Bool) (names : List Bytes) (name : Bytes) (v : IsPath fs.super names name) where
  abbrev Made : Option (Reply × Fs) → Type 0
  Made o = Simulates h (do create is_file (path_text names ++ name); pure nothing) f o

  module _ (parent pb : ℕ) (first : ℕ × Bytes) (others : Entries)
      (w : walk fs.nodes root_inode_id names ≡ some parent)
      (e : fs.nodes parent ≡ some (folder pb first others)) where
    abbrev at_place : Place fs.super f.bytes names name parent first others
    at_place = place fs f.bytes r names name parent pb first others v w e

    short : length name < fs.super.fs_info.max_path_len
    short = omega (arith, v.last.short)

    create-exists :
        (kind : Bool) (inode : ℕ)
        → lookup (first ∷ others) name ≡ some inode
        → (q : ℕ) × Ends h (create kind (path_text names ++ name)) f tt (record f { pos = q })
    create-exists false inode l =
        let (q, dir, file) =
          create_dir-exists k fs.super fs.table names name parent first others f r.has at_place
            inode l in
        (q, dir)
    create-exists true inode l =
        let (q, dir, file) =
          create_dir-exists k fs.super fs.table names name parent first others f r.has at_place
            inode l in
        (q, file)

    module _ (id b : ℕ) (fi : first_free fs.super.reserved_inodes_mask ≡ some id)
        (fb : first_free fs.super.reserved_blocks_mask ≡ some b)
        (not_full : length (first ∷ others) < get_max_records_count fs.super)
        (absent : lookup (first ∷ others) name ≡ none) where
      helper-Ends :
          (kind : Bool) (q : ℕ)
          → Ends h
              (helper kind fs.super parent)
              (record f { pos = q })
              (id, taken fs.super id b)
              (three fs.super id b parent
                (room fs f r kind id b parent pb first others name e fi fb not_full short
                  v.last.text)
                r.sizes
                kind
                f)
      helper-Ends false q =
          create_dir_helper-Ends fs.super id b parent
            (room fs f r false id b parent pb first others name e fi fb not_full short v.last.text)
            k false _ refl
      helper-Ends true q =
          let l = r.sizes.enough in
          create_file_helper-Ends fs.super id b parent
            (room fs f r true id b parent pb first others name e fi fb not_full short v.last.text)
            (omega arith) k _

      -- The four writes.
      abbrev written : Bool → File
      written kind =
          four fs f r kind id b parent pb first others name e fi fb not_full short v.last.text

      links :
          (kind : Bool) (full : M (Unit {0}))
          → Ends h
              (link full at_place.there.inode id name (taken fs.super id b))
              (before_link fs f r kind id b parent pb first others name e fi fb not_full short
                v.last.text)
              tt
              (written kind)
      unfolding place folder_there
      links kind full =
          link-Ends fs.super id b parent first others f name short
            (there fs f r kind id b parent pb first others name e fi fb not_full short v.last.text)
            (can fs f r kind id b parent pb first others name e fi fb not_full short v.last.text) k
            full _ (parent_before fs f r kind id b parent pb first others name e fi fb)

      create-Ends :
          (kind : Bool) → Ends h (create kind (path_text names ++ name)) f tt (written kind)
      unfolding create_dir create_file
      create-Ends false =
          to_directory-Ends k fs.super fs.table names name parent first others f r.has at_place tt _
            _ _
            (λ q.
              Ends-bind _ _
                (is_dir_exist-Ends k fs.super fs.table names name parent first others f r.has
                  at_place q)
                (rw absent (Ends-bind _ _ (helper-Ends false _) (links false fault))))
      create-Ends true =
          to_directory-Ends k fs.super fs.table names name parent first others f r.has at_place tt _
            _ _
            (λ q.
              Ends-bind _ _
                (is_dir_exist-Ends k fs.super fs.table names name parent first others f r.has
                  at_place q)
                (rw absent (Ends-bind _ _ (helper-Ends true _) (links true (pure tt)))))

    make_in-Simulates :
        (o : Option ℕ) (inside : Bool) (i c : Option ℕ)
        → lookup (first ∷ others) name ≡ o
        → ltb (length (first ∷ others)) (get_max_records_count fs.super) ≡ inside
        → first_free fs.super.reserved_inodes_mask ≡ i
        → first_free fs.super.reserved_blocks_mask ≡ c
        → Made (make_in is_file fs parent pb first others name o inside i c)
    make_in-Simulates (some inode) inside i c l n fi fb =
        let (q, ends) = create-exists is_file inode l in
        (record f { pos = q }, Ends-bind _ _ ends (Ends-pure nothing _), r)
    make_in-Simulates none true (some id) (some b) l n fi fb =
        let not_full = ltb→lt (length (first ∷ others)) (get_max_records_count fs.super) n in
        (
          written id b fi fb not_full l is_file,
          Ends-bind _ _ (create-Ends id b fi fb not_full l is_file) (Ends-pure nothing _),
          made-Represents fs f r is_file id b parent pb first others name e fi fb not_full short
              v.last.text,
        )
    make_in-Simulates none true (some id) none l n fi fb = tt
    make_in-Simulates none true none c l n fi fb = tt
    make_in-Simulates none false i c l n fi fb = tt

  make_at-Simulates :
      (parent : ℕ) (o : Option Node)
      → walk fs.nodes root_inode_id names ≡ some parent
      → fs.nodes parent ≡ o
      → IsFolder o
      → Made (make_at is_file fs name parent o)
  make_at-Simulates parent none w e d = elim d [ ]
  make_at-Simulates parent (some (regular b n contents)) w e d = elim d [ ]
  make_at-Simulates parent (some (folder pb first others)) w e d =
      make_in-Simulates parent pb first others w e _ _ _ _ refl refl refl refl

  nowhere :
      (kind : Bool)
      → walk fs.nodes root_inode_id names ≡ none
      → (q : ℕ) × Ends h (create kind (path_text names ++ name)) f tt (record f { pos = q })
  unfolding create_dir create_file
  nowhere false w = to_directory-nowhere k fs f r names name tt _ v w
  nowhere true w = to_directory-nowhere k fs f r names name tt _ v w

  make_from-Simulates :
      (o : Option ℕ) → walk fs.nodes root_inode_id names ≡ o → Made (make_from is_file fs name o)
  make_from-Simulates none w =
      let (q, ends) = nowhere is_file w in
      (record f { pos = q }, Ends-bind _ _ ends (Ends-pure nothing _), r)
  make_from-Simulates (some parent) w =
      make_at-Simulates parent (fs.nodes parent) w refl
        (walk-IsFolder fs.nodes root_inode_id parent names w)

module _ {h : Host} (k : IsSteady h) (fs : Fs) (f : File) (r : Represents fs f.bytes)
    (names : List Bytes) (name : Bytes) (v : IsPath fs.super names name) where
  pub make_dir-Simulates :
      Simulates h (perform (make_dir names name)) f (step (make_dir names name) fs)
  unfolding step
  make_dir-Simulates = make_from-Simulates k fs f r false names name v _ refl

  pub make_file-Simulates :
      Simulates h (perform (make_file names name)) f (step (make_file names name) fs)
  unfolding step
  make_file-Simulates = make_from-Simulates k fs f r true names name v _ refl
