-- ===== src/Commands/Reach.antt =====
-- How the commands that take a path come to the directory of it.
use ext.Base.{
  ℕ, ◌+◌, ◌*◌, ◌<◌, ◌≡◌, refl, sym, ◌∙◌, ap, subst, true, false, [], ◌∷◌, ◌++◌, List, Option, none,
  some, length, get_elem?, append_assoc, All, arith, ne→==, if◌then◌else◌, ◌==◌, get_or,
}
use ext.Base.Image.{Bytes}
use ext.Base.Words.{IsU16}
use ext.Os.{Host, File, M, pure, exit, fault, attempt, element, IsSteady, ◌>>=◌}
use ext.Os.Ends.{Ends, Ends-pure, Ends-bind, Ends-attempt, Ends-element, Ends-if_false}
use ext.Superblock.{Superblock, sizeof_superblock, root_inode_id}
use ext.Descriptors.{DescriptorsTable}
use ext.Inode.{Inode, read_inode}
use ext.Inode.Store.{read_inode-Ends}
use ext.Block.{read_block, block_offset, sizeof_block_record}
use ext.Block.Store.{read_block-directory}
use ext.Paths.{slash, split_path, buffer_length}
use ext.Paths.Split.{split_path_lem}
use ext.Methods.{get_inode_id_of_dir, get_file_inode_id, is_dir_exist, find_in_block}
use ext.Methods.Create.{entry}
use ext.Methods.Names.{Entries, records, lookup, find_in_block-Ends, IsText}
use ext.Methods.Walk.{IsDirectory, IsPathName, Walk, path_text, get_inode_id_of_dir-Walk}
use ext.Commands.Opening.{open_fs}
use ext.Commands.Fresh.{open_fs-Ends}
use ext.Commands.Keep.{HasTable}

-- The names lead to directory `id`, and `name` may follow them in a path.
pub record Place (s : Superblock) (bytes : Bytes) (names : List Bytes) (name : Bytes) (id : ℕ)
    (first : ℕ × Bytes) (others : Entries) : Type 0 where
  pub small : IsU16 s.fs_info.max_path_len
  pub long : 1 < s.fs_info.max_path_len
  pub parts : All (IsPathName s) names
  pub walk : Walk s bytes root_inode_id names id
  pub there : IsDirectory s bytes id first others
  pub known : id < s.fs_info.inodes_count
  pub last : IsPathName s name
  pub fits : length (path_text names ++ name) + 1 < buffer_length

path_text-front :
    (names : List Bytes)
    → (d : Bytes) × (path_text names ≡ d ++ slash ∷ []) × (get_or (d ++ slash ∷ []) 0 0 ≡ slash)
path_text-front [] = ([], refl, refl)
path_text-front (name ∷ names) =
    let (d, e, g) = path_text-front names in
    (
      slash ∷ name ++ d,
      ap (λ l. slash ∷ name ++ l) e ∙ sym (append_assoc (slash ∷ name) d (slash ∷ [])),
      refl,
    )

pub split_path-path_text :
    (s : Superblock) (names : List Bytes) (name : Bytes)
    → IsPathName s name
    → length (path_text names ++ name) + 1 < buffer_length
    → split_path (path_text names ++ name) ≡ pure (some (path_text names, name))
split_path-path_text s names [] v l = let z = v.some_byte in absurd (omega arith)
split_path-path_text s names (c ∷ cs) v l =
    let (d, e, g) = path_text-front names in
    let whole : path_text names ++ c ∷ cs ≡ d ++ slash ∷ c ∷ cs =
      ap (λ t. t ++ c ∷ cs) e ∙ append_assoc d (slash ∷ []) (c ∷ cs) in
    rw (whole, e)
      ((split_path_lem d c cs v.named g (subst (λ t. length t + 1 < buffer_length) whole l)).0)

-- The beginning of the commands: `rest` is what they do in the directory.
abbrev pub to_directory : {B : Type 0} → Bytes → B → (Superblock → ℕ → Inode → Bytes → M B) → M B
to_directory path nothing rest = do
  superblock ← open_fs
  parts ← split_path path
  elim parts [
    | none ↦ pure nothing
    | some (parent_path, name) ↦ (do
      inode_id ← get_inode_id_of_dir parent_path superblock
      if inode_id == superblock.fs_info.inodes_count then pure nothing else (do
        readed ← attempt (read_inode inode_id superblock)
        elim readed [
          | none ↦ fault
          | some inode ↦
              if inode.inode_info.is_file then pure nothing else rest superblock inode_id inode name
        ]))
  ]

module _ {h : Host} (k : IsSteady h) (s : Superblock) (table : DescriptorsTable)
    (names : List Bytes) (name : Bytes) (id : ℕ) (first : ℕ × Bytes) (others : Entries) (f : File)
    (t : HasTable s table f.bytes) (p : Place s f.bytes names name id first others) where
  pub to_directory-Ends :
      {B : Type 0} (nothing : B) (rest : Superblock → ℕ → Inode → Bytes → M B) (b : B) (f' : File)
      → ((q : ℕ) → Ends h (rest s id p.there.inode name) (record f { pos = q }) b f')
      → Ends h (to_directory (path_text names ++ name) nothing rest) f b f'
  to_directory-Ends nothing rest b f' r =
      let (q, walked) =
        get_inode_id_of_dir-Walk k s id names (record f { pos = sizeof_superblock s }) p.small
          p.long p.parts p.walk in
      Ends-bind _ _ (open_fs-Ends k s f t.valid t.magic t.root t.superblock_there) (
        rw (split_path-path_text s names name p.last p.fits) (
          Ends-bind _ _ (Ends-pure _ _) (
            Ends-bind _ _ walked (
              let l = p.known in
              Ends-if_false _ _ (ne→== id s.fs_info.inodes_count (omega arith)) (
                Ends-bind _ _
                  (Ends-attempt
                    (read_inode-Ends k s p.there.inode id _ p.there.valid p.there.inode_there))
                  (Ends-if_false _ _ p.there.kind (r _)))))))

  -- The position behind the records of the directory.
  abbrev pub behind_records : ℕ
  behind_records =
      block_offset s p.there.block_id
      + (7 + length (records s (first ∷ others)) * sizeof_block_record s)

  -- What get_file_inode_id and is_dir_exist do: a name is looked up in the first block.
  looked_up :
      {B : Type 0} (g : Option ℕ → B) (word : Bytes) (q : ℕ)
      → IsText word
      → Ends h
          (element (get_elem? p.there.inode.block_ids 0) >>= λ block_id.
            attempt (read_block block_id s) >>= λ readed. elim readed [
              | none ↦ exit
              | some block ↦ find_in_block block word >>= λ founded. pure (g founded)
            ])
          (record f { pos = q })
          (g (lookup (first ∷ others) word))
          (record f { pos = behind_records })
  looked_up g word q a = Ends-bind _ _ (Ends-element _ p.there.block_id _ p.there.slot) (
      Ends-bind _ _
        (Ends-attempt (
          read_block-directory k s p.there.block_id id (entry s first.0 first.1) (records s others)
            _ p.small p.there.entry_ranges p.there.ranges p.there.block_there))
        (Ends-bind _ _
          (find_in_block-Ends s p.there.block_id id (first ∷ others) word _ p.there.entry_names a)
          (Ends-pure _ _)))

  pub get_file_inode_id-Ends :
      (q : ℕ)
      → Ends h
          (get_file_inode_id p.there.inode name s)
          (record f { pos = q })
          (elim (lookup (first ∷ others) name) [ none ↦ s.fs_info.inodes_count | some i ↦ i ])
          (record f { pos = behind_records })
  unfolding get_file_inode_id
  get_file_inode_id-Ends q =
      looked_up (λ o. elim o [ none ↦ s.fs_info.inodes_count | some i ↦ i ]) name q p.last.text

  pub is_dir_exist-Ends :
      (q : ℕ)
      → Ends h
          (is_dir_exist p.there.inode name s)
          (record f { pos = q })
          (elim (lookup (first ∷ others) name) [ none ↦ false | some i ↦ true ])
          (record f { pos = behind_records })
  unfolding is_dir_exist
  is_dir_exist-Ends q = looked_up (λ o. elim o [ none ↦ false | some i ↦ true ]) name q p.last.text
