-- ===== src/Methods/Walk.antt =====
-- get_inode_id_of_dir: the walk along a path, against a description of the directories in the file.
use ext.Base.{
  ℕ, Bool, zero, suc, ◌+◌, ◌*◌, ◌<◌, ◌≡◌, refl, true, false, List, [], ◌∷◌, ◌++◌, Option, some,
  none, length, length-append, get_elem?, arith, All, ne→==, lt→ltb, text_eq,
}
use ext.Base.Holds.{Holds}
use ext.Base.Image.{Bytes}
use ext.Base.Words.{IsU16}
use ext.Os.{Host, File, pure, IsSteady}
use ext.Os.Ends.{Ends, Ends-pure, Ends-bind, Ends-attempt, Ends-element, Ends-if_false}
use ext.Superblock.{Superblock, root_inode_id}
use ext.Inode.{Inode, calculate_offset, sizeof_inode}
use ext.Inode.Store as Inodes
use ext.Inode.Store.{bytes_of_inode, read_inode-Ends}
use ext.Block.{block_offset, bytes_of_block_info, sizeof_block_record}
use ext.Block.Records.{IsRecord, bytes_of_records}
use ext.Block.Store.{directory, InRange, read_block-directory}
use ext.Paths.{slash, parse_path}
use ext.Paths.Parse.{IsName, parse_path-first}
use ext.Methods.{find_in_block, get_inode_id_of_dir_rec, get_inode_id_of_dir}
use ext.Methods.Names.{IsText, Entries, records, lookup, Fits, find_in_block-Ends}
use ext.Methods.Create.{entry}

-- The file has directory `id`: its inode, and the first block of that with the entries.
pub record IsDirectory (s : Superblock) (bytes : Bytes) (id : ℕ) (first : ℕ × Bytes)
    (others : Entries) : Type 0 where
  pub inode : Inode
  pub valid : Inodes.IsValid s inode
  pub kind : inode.inode_info.is_file ≡ false
  pub inode_there : Holds bytes (calculate_offset s id) (bytes_of_inode inode)
  pub block_id : ℕ
  pub slot : get_elem? inode.block_ids 0 ≡ some block_id
  pub ranges : InRange (directory s block_id id (records s (first ∷ others))).block_info
  pub block_there : Holds bytes (block_offset s block_id) (
      bytes_of_block_info (directory s block_id id (records s (first ∷ others))).block_info
      ++ bytes_of_records (records s (first ∷ others)))
  pub entry_ranges : All (IsRecord s) (records s (first ∷ others))
  pub entry_names : All (λ e. Fits s e.1) (first ∷ others)

-- The names lead from one directory to another.
pub data Walk (s : Superblock) (bytes : Bytes) : ℕ → List Bytes → ℕ → Type 0 where
  arrive :
      {id : ℕ} {first : ℕ × Bytes} {others : Entries}
      → IsDirectory s bytes id first others
      → Walk s bytes id [] id
  enter :
      {id next last : ℕ} {first : ℕ × Bytes} {others : Entries} {name : Bytes} {names : List Bytes}
      → IsDirectory s bytes id first others
      → lookup (first ∷ others) name ≡ some next
      → Walk s bytes next names last
      → Walk s bytes id (name ∷ names) last

-- "/", or "/name/.../name/"
abbrev pub path_text : List Bytes → Bytes
path_text [] = slash ∷ []
path_text (name ∷ names) = slash ∷ name ++ path_text names

-- A name of a path: it has a byte, no slash and no NUL, and fits the array that parse_path fills.
pub record IsPathName (s : Superblock) (name : Bytes) : Type 0 where
  pub some_byte : 0 < length name
  pub named : IsName name
  pub text : IsText name
  pub short : length name + 1 < s.fs_info.max_path_len

path_text-tail : (names : List Bytes) → (rest : Bytes) × (path_text names ≡ slash ∷ rest)
path_text-tail [] = ([], refl)
path_text-tail (name ∷ names) = (name ++ path_text names, refl)

pub parse_path-path_text :
    (s : Superblock) (name : Bytes) (names : List Bytes)
    → IsPathName s name
    → IsU16 s.fs_info.max_path_len
    → parse_path (path_text (name ∷ names)) s.fs_info.max_path_len
      ≡ pure (name, some (path_text names))
parse_path-path_text s [] names h m = let l = h.some_byte in absurd (omega arith)
parse_path-path_text s (c ∷ cs) names h m =
    let (rest, e) = path_text-tail names in
    rw e (parse_path-first c cs rest s.fs_info.max_path_len h.named h.short (omega arith))

pub is_not_slash :
    (s : Superblock) (name : Bytes) → IsPathName s name → text_eq name (slash ∷ []) ≡ false
is_not_slash s [] h = refl
is_not_slash s (c ∷ cs) h = rw (ne→== c slash h.named.0)

module _ {h : Host} (k : IsSteady h) (s : Superblock) (small : IsU16 s.fs_info.max_path_len) where
  -- One step of the walk: the directory is read, and the name is looked up in it.
  pub step_in :
      (fuel id p : ℕ) (o : Option ℕ) (a : Bool × ℕ) (first : ℕ × Bytes) (others : Entries)
      (name : Bytes) (names : List Bytes) (f : File) (d : IsDirectory s f.bytes id first others)
      → IsPathName s name
      → lookup (first ∷ others) name ≡ o
      → Ends h
          (elim o [
            | none ↦ pure (false, id)
            | some next ↦ get_inode_id_of_dir_rec fuel (path_text names) next s
          ])
          (record f {
            pos =
                block_offset s d.block_id
                + (7 + length (records s (first ∷ others)) * sizeof_block_record s);
          })
          a
          (record f { pos = p })
      → Ends h
          (get_inode_id_of_dir_rec (suc fuel) (path_text (name ∷ names)) id s)
          f
          a
          (record f { pos = p })
  unfolding get_inode_id_of_dir_rec
  step_in fuel id p o a first others name names f d v e rest =
      let parsed : Ends h (parse_path (path_text (name ∷ names)) s.fs_info.max_path_len)
          (record f { pos = calculate_offset s id + sizeof_inode s }) (name, some (path_text names))
          (record f { pos = calculate_offset s id + sizeof_inode s }) =
        rw (parse_path-path_text s name names v small) (Ends-pure _ _) in
      let founded : Ends h
          (find_in_block (directory s d.block_id id (records s (first ∷ others))) name)
          (record f {
            pos =
                block_offset s d.block_id
                + (7 + length (records s (first ∷ others)) * sizeof_block_record s);
          })
          o
          (record f {
            pos =
                block_offset s d.block_id
                + (7 + length (records s (first ∷ others)) * sizeof_block_record s);
          }) =
        rw (← e)
          (find_in_block-Ends s d.block_id id (first ∷ others) name _ d.entry_names v.text) in
      Ends-bind _ _ (Ends-attempt (read_inode-Ends k s d.inode id f d.valid d.inode_there)) (
        Ends-if_false _ _ d.kind (
          Ends-bind _ _ parsed (
            Ends-if_false _ _ (is_not_slash s name v) (
              Ends-bind _ _ (Ends-element _ d.block_id _ d.slot) (
                Ends-bind _ _
                  (Ends-attempt (
                    read_block-directory k s d.block_id id (entry s first.0 first.1)
                      (records s others) _ small d.entry_ranges d.ranges d.block_there))
                  (Ends-bind _ _ founded rest))))))

  -- The end of the walk: the directory is read, and the path is "/".
  pub step_end :
      (fuel id : ℕ) (first : ℕ × Bytes) (others : Entries) (f : File)
      → IsDirectory s f.bytes id first others
      → 1 < s.fs_info.max_path_len
      → Ends h
          (get_inode_id_of_dir_rec (suc fuel) (path_text []) id s)
          f
          (true, id)
          (record f { pos = calculate_offset s id + sizeof_inode s })
  unfolding get_inode_id_of_dir_rec parse_path
  step_end fuel id first others f d l =
      Ends-bind _ _ (Ends-attempt (read_inode-Ends k s d.inode id f d.valid d.inode_there)) (
        Ends-if_false _ _ d.kind (
          rw (lt→ltb 1 s.fs_info.max_path_len l)
            (Ends-bind _ _ (Ends-pure (slash ∷ [], none) _) (Ends-pure _ _))))

  get_inode_id_of_dir_rec_lem :
      (fuel id last : ℕ) (names : List Bytes) (bytes : Bytes)
      → Walk s bytes id names last
      → All (IsPathName s) names
      → length names < fuel
      → 1 < s.fs_info.max_path_len
      → (p : ℕ) × ((q : ℕ)
          → Ends h
              (get_inode_id_of_dir_rec fuel (path_text names) id s)
              (record { bytes = bytes; pos = q })
              (true, last)
              (record { bytes = bytes; pos = p }))
  get_inode_id_of_dir_rec_lem zero id last names bytes w v l m = absurd (omega arith)
  get_inode_id_of_dir_rec_lem (suc fuel) id last names bytes (arrive {first} {others} d) v l m = (
    calculate_offset s id + sizeof_inode s,
    λ q. step_end fuel id first others (record { bytes = bytes; pos = q }) d m,
  )
  get_inode_id_of_dir_rec_lem (suc fuel) id last names bytes
        (enter {next} {first} {others} {name} {names = ns} d e w) v l m =
      let (p, rest) = get_inode_id_of_dir_rec_lem fuel next last ns bytes w v.1 (omega arith) m in
      (
        p,
        λ q.
            step_in fuel id p (some next) (true, last) first others name ns
              (record { bytes = bytes; pos = q }) d v.0 e (rest _),
      )

pub length-path_text : (names : List Bytes) → length names < suc (length (path_text names))
length-path_text [] = omega arith
length-path_text (name ∷ names) =
    omega (arith, length-append name (path_text names), length-path_text names)

-- Under a host that fails no call, for a file in which the names lead from the root directory
-- through directories to directory `id` (the first entry with the name is followed),
-- get_inode_id_of_dir of the path "/name/.../name/" returns `id`, leaves the bytes of the file,
-- and its fuel is enough; the names have a byte, no slash and no NUL, and leave two bytes of
-- max_path_len, which is above 1 and below 2^16.
pub get_inode_id_of_dir-Walk :
    {h : Host} (k : IsSteady h) (s : Superblock) (id : ℕ) (names : List Bytes) (f : File)
    → IsU16 s.fs_info.max_path_len
    → 1 < s.fs_info.max_path_len
    → All (IsPathName s) names
    → Walk s f.bytes root_inode_id names id
    → (p : ℕ) × Ends h (get_inode_id_of_dir (path_text names) s) f id (record f { pos = p })
unfolding get_inode_id_of_dir
get_inode_id_of_dir-Walk k s id names f small m v w =
    let (p, rest) =
      get_inode_id_of_dir_rec_lem k s small (suc (length (path_text names))) root_inode_id id names
        f.bytes w v (length-path_text names) m in
    (p, Ends-bind _ _ (rest f.pos) (Ends-pure id _))
