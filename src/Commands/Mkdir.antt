-- ===== src/Commands/Mkdir.antt =====
-- create_dir and create_file on a path whose directory is there.
use ext.Base.{ℕ, ◌<◌, ◌≡◌, refl, false, List, [], ◌∷◌, ◌++◌, none, some, length, arith}
use ext.Base.Image.{Bytes}
use ext.Os.{Host, File, IsSteady, fault}
use ext.Os.Ends.{Ends, Ends-pure, Ends-bind}
use ext.Superblock.{Superblock}
use ext.Descriptors.{DescriptorsTable}
use ext.Methods.Create.{taken, create_dir_helper-Ends}
use ext.Methods.Names.{Entries, lookup}
use ext.Methods.Walk.{IsDirectory, path_text}
use ext.Commands.Create.{create_dir, create_file}
use ext.Commands.Keep.{HasTable}
use ext.Commands.Reach.{Place, to_directory-Ends, is_dir_exist-Ends, behind_records}
use ext.Commands.Entry.{extended, lookup-extended}
use ext.Commands.Makes.{CanMake, linked, parent_there}
use ext.Commands.Created.{new_there, table_kept, block_is_there, link-Ends}

module _ {h : Host} (k : IsSteady h) (s : Superblock) (table : DescriptorsTable)
    (names : List Bytes) (name : Bytes) (parent : ℕ) (first : ℕ × Bytes) (others : Entries)
    (f : File) (t : HasTable s table f.bytes)
    (p : Place s f.bytes names name parent first others) where
  -- Under a host that fails no call, for a file that has a valid superblock with the magic number,
  -- a reserved root and a valid table behind it, and in which the names lead from the root to a
  -- directory that has the name: create_dir and create_file of the path of the names and the name
  -- end and leave the bytes of the file as they were.
  pub create_dir-exists :
      (inode : ℕ)
      → lookup (first ∷ others) name ≡ some inode
      → (q : ℕ) × Ends h (create_dir (path_text names ++ name)) f tt (record f { pos = q })
        × Ends h (create_file (path_text names ++ name)) f tt (record f { pos = q })
  unfolding create_dir create_file
  create_dir-exists inode e = (
    behind_records k s table names name parent first others f t p,
    to_directory-Ends k s table names name parent first others f t p tt _ _ _ (λ q.
        Ends-bind _ _ (is_dir_exist-Ends k s table names name parent first others f t p q)
          (rw e (Ends-pure tt _))),
    to_directory-Ends k s table names name parent first others f t p tt _ _ _ (λ q.
        Ends-bind _ _ (is_dir_exist-Ends k s table names name parent first others f t p q)
          (rw e (Ends-pure tt _))),
  )

  module _ (id b : ℕ) (can : CanMake s id b parent p.there.block_id (length (first ∷ others)))
      (absent : lookup (first ∷ others) name ≡ none) where
    short : length name < s.fs_info.max_path_len
    short = omega (arith, p.last.short)

    abbrev after : File
    after = linked s id b parent first others f name short p.there can

    create_dir-Ends : Ends h (create_dir (path_text names ++ name)) f tt after
    unfolding create_dir
    create_dir-Ends =
        to_directory-Ends k s table names name parent first others f t p tt _ _ _ (λ q.
          Ends-bind _ _ (is_dir_exist-Ends k s table names name parent first others f t p q) (
            rw absent (
              Ends-bind _ _ (create_dir_helper-Ends s id b parent can.room k false _ refl) (
                link-Ends s id b parent first others f name short p.there can k fault _
                  (block_is_there s id b parent first others f name short p.there can)))))

    -- Under a host that fails no call, for a file that has a valid superblock with the magic
    -- number, a reserved root and a valid table behind it, and in which the names lead from the
    -- root to a directory that is in use, does not have the name and is not full, if an inode and
    -- a block are free, a block has room for the two records of a new directory, and the sizes do
    -- not wrap: create_dir of the path of the names and the name ends, and the file then has the
    -- directory with its entries and, behind them, the name for the first free inode, at which it
    -- is found, and the new directory at that inode, with "." for itself and ".." for its parent;
    -- the superblock has the inode and the first free block reserved, and the table is as it was.
    -- The path is shorter than the buffer, and its names leave two bytes of max_path_len.
    pub create_dir_lem :
        (g : File) × Ends h (create_dir (path_text names ++ name)) f tt g
        × IsDirectory (taken s id b) g.bytes parent first (extended others id name)
        × (lookup (extended (first ∷ others) id name) name ≡ some id)
        × IsDirectory (taken s id b) g.bytes id (id, b'.' ∷ []) ((parent, b'.' ∷ b'.' ∷ []) ∷ [])
        × HasTable (taken s id b) table g.bytes
    create_dir_lem = (
      after,
      create_dir-Ends,
      parent_there s id b parent first others f name short p.there can p.known (p.last.text, short),
      lookup-extended (first ∷ others) id name absent,
      new_there s id b parent first others f name short p.there can,
      table_kept s id b parent first others f name short p.there can table t,
    )
