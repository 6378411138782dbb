-- ===== src/Commands/Opens.antt =====
-- open_file on a path that leads to an entry of a directory.
use ext.Base.{ℕ, ◌<◌, ◌≡◌, ◌++◌, List, none, some, ◌∷◌, arith, ne→==, eq→==, refl, get_elem?}
use ext.Base.Image.{Bytes}
use ext.Os.{Host, File, IsSteady}
use ext.Os.Ends.{Ends, Ends-pure, Ends-bind}
use ext.Superblock.{Superblock}
use ext.Descriptors.{DescriptorsTable, reserve_descriptor}
use ext.Descriptors.Bounds.{IsValid}
use ext.Descriptors.Open.{IsConsistent, Opens, reserve_descriptor-IsConsistent}
use ext.Methods.Names.{Entries, lookup}
use ext.Methods.Walk.{path_text}
use ext.Commands.Descriptor.{open_file}
use ext.Commands.Keep.{
  HasTable, with_table, with_table-HasTable, table_or_exit-Ends, save_table-Ends,
}
use ext.Commands.Reach.{Place, to_directory-Ends, get_file_inode_id-Ends, behind_records}

module _ {h : Host} (k : IsSteady h) (s : Superblock) (table : DescriptorsTable)
    (names : List Bytes) (name : Bytes) (id : ℕ) (first : ℕ × Bytes) (others : Entries) (f : File)
    (t : HasTable s table f.bytes) (p : Place s f.bytes names name id first others)
    (missing : lookup (first ∷ others) name ≡ none) where
  -- Where the directory does not have the name, open_file prints none.
  pub open_file-missing :
      (q : ℕ) × Ends h (open_file (path_text names ++ name)) f none (record f { pos = q })
  unfolding open_file
  open_file-missing = (
    behind_records k s table names name id first others f t p,
    to_directory-Ends k s table names name id first others f t p none _ _ _ (λ q.
        Ends-bind _ _ (table_or_exit-Ends k s table (record f { pos = q }) t) (
          Ends-bind _ _ (get_file_inode_id-Ends k s table names name id first others f t p _) (
            rw (missing, eq→== s.fs_info.inodes_count s.fs_info.inodes_count refl)
              (Ends-pure _ _)))),
  )

module _ {h : Host} (k : IsSteady h) (s : Superblock) (table : DescriptorsTable)
    (names : List Bytes) (name : Bytes) (id : ℕ) (first : ℕ × Bytes) (others : Entries) (f : File)
    (t : HasTable s table f.bytes) (p : Place s f.bytes names name id first others) (inode : ℕ)
    (found : lookup (first ∷ others) name ≡ some inode)
    (known : inode < s.fs_info.inodes_count) where
  open_file-Ends :
      (new_fd : ℕ) (new : DescriptorsTable)
      → reserve_descriptor table inode ≡ some (new_fd, new)
      → IsValid s new
      → Ends h (open_file (path_text names ++ name)) f (some new_fd) (with_table s new f)
  unfolding open_file
  open_file-Ends new_fd new e v =
      to_directory-Ends k s table names name id first others f t p none _ _ _ (λ q.
        Ends-bind _ _ (table_or_exit-Ends k s table (record f { pos = q }) t) (
          Ends-bind _ _ (get_file_inode_id-Ends k s table names name id first others f t p _) (
            rw (found, ne→== inode s.fs_info.inodes_count (omega arith), e)
              (Ends-bind _ _ (save_table-Ends k s new _ v t.valid.info.descriptors_count)
                (Ends-pure _ _)))))

  -- Under a host that fails no call, for a file that has a valid superblock with the magic number,
  -- a reserved root and behind it a valid and consistent table, and in which the names lead from
  -- the root to a directory where the name is found at an inode below inodes_count: if
  -- reserve_descriptor gives a descriptor for that inode, open_file of the path of the names and
  -- the name returns the descriptor and writes the table in which it is open on the inode, at
  -- position 0; the file has the superblock and that table again, and the table is consistent.
  pub open_file_lem :
      (new_fd : ℕ) (new : DescriptorsTable)
      → IsConsistent table
      → reserve_descriptor table inode ≡ some (new_fd, new)
      → Ends h (open_file (path_text names ++ name)) f (some new_fd) (with_table s new f)
        × HasTable s new (with_table s new f).bytes
        × IsConsistent new
        × Opens new new_fd inode
        × (get_elem? new.fd_to_position new_fd ≡ some 0)
  open_file_lem new_fd new c e =
      let r = t.valid.info.inodes_count in
      let (v, d, free, bound, opens, start) =
        reserve_descriptor-IsConsistent s table inode new_fd new t.table_valid (omega arith) c e in
      (open_file-Ends new_fd new e v, with_table-HasTable s table new f t v, d, opens, start)

  -- Under a host that fails no call, for a file that has a valid superblock with the magic number,
  -- a reserved root and behind it a valid table, and in which the names lead from the root to a
  -- directory where the name is found at an inode below inodes_count: if reserve_descriptor gives
  -- no descriptor for the inode that the path leads to, open_file prints none and leaves the bytes
  -- of the file as they were.
  pub open_file-refused :
      reserve_descriptor table inode ≡ none
      → (q : ℕ) × Ends h (open_file (path_text names ++ name)) f none (record f { pos = q })
  unfolding open_file
  open_file-refused e = (
    behind_records k s table names name id first others f t p,
    to_directory-Ends k s table names name id first others f t p none _ _ _ (λ q.
        Ends-bind _ _ (table_or_exit-Ends k s table (record f { pos = q }) t) (
          Ends-bind _ _ (get_file_inode_id-Ends k s table names name id first others f t p _)
            (rw (found, ne→== inode s.fs_info.inodes_count (omega arith), e) (Ends-pure _ _)))),
  )
