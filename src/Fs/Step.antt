-- ===== src/Fs/Step.antt =====
-- The commands of FileSystem/interface on a file, and what they do to the nodes and the table.
use ext.Base.{
  ℕ, suc, ◌+◌, ◌-◌, Bool, true, false, List, [], ◌∷◌, ◌++◌, Option, none, some, length, get_elem?,
  replicate, ltb, ◌==◌, if◌then◌else◌,
}
use ext.Base.Image.{Bytes, write_at, read_at}
use ext.Os.{M, pure, ◌>>=◌, ◌>>◌}
use ext.Superblock.{Superblock, root_inode_id, first_free}
use ext.Descriptors.{DescriptorsTable, reserve_descriptor}
use ext.Block.{max_size_of_data, get_max_records_count, get_max_data_size_of_all_blocks}
use ext.Block.Store.{reloaded}
use ext.Methods.Create.{taken}
use ext.Methods.Names.{Entries, lookup}
use ext.Methods.Walk.{path_text}
use ext.Commands.Create.{create_dir, create_file}
use ext.Commands.Descriptor.{open_file, close_file, lseek_pos}
use ext.Commands.Entry.{extended}
use ext.Commands.Keep.{moved}
use ext.Commands.Listing.{ls, file_mark, newline}
use ext.Commands.Machine as Machine
use ext.Commands.Transfer.{write_to_file, read_file}
use ext.Fs.{Node, folder, regular, Nodes, Fs, is_regular, entries_of, entered, walk}

-- A path is given by the names of its directories and a last name.
pub data Request : Type 0 where
  make_dir make_file open_path : List Bytes → Bytes → Request
  list_dir : List Bytes → Request
  close_fd : ℕ → Request
  seek_fd : ℕ → ℕ → Request
  write_fd : ℕ → Bytes → Request
  read_fd : ℕ → ℕ → Request

-- What is printed or handed over.
pub data Reply : Type 0 where
  nothing : Reply
  descriptor : Option ℕ → Reply
  total : Option ℕ → Reply
  content : Bytes → Reply

-- The command.
abbrev pub perform : Request → M Reply
perform (make_dir names name) = do create_dir (path_text names ++ name); pure nothing
perform (make_file names name) = do create_file (path_text names ++ name); pure nothing
perform (open_path names name) = do fd ← open_file (path_text names ++ name); pure (descriptor fd)
perform (list_dir names) = do printed ← ls (path_text names); pure (content printed)
perform (close_fd fd) = do close_file fd; pure nothing
perform (seek_fd fd pos) = do lseek_pos fd pos; pure nothing
perform (write_fd fd data_to_write) = do
  written ← write_to_file fd data_to_write
  pure (total written)
perform (read_fd fd size) = do dest ← read_file fd size; pure (content dest)

abbrev pub with_node : Nodes → ℕ → Node → Nodes
with_node nodes i nd = λ j. if i == j then some nd else nodes j

abbrev pub capacity : Superblock → ℕ
capacity s = get_max_data_size_of_all_blocks s

-- close_file and lseek_pos, on a descriptor of the table.
abbrev pub in_table : Machine.Command → Fs → Bool → Option (Reply × Fs)
in_table c fs true =
    some (nothing, record fs { table = Machine.step (capacity fs.super) c fs.table })
in_table c fs false = none

abbrev pub table_step : Machine.Command → Fs → Option (Reply × Fs)
table_step c fs = in_table c fs (ltb (Machine.descriptor c) fs.super.fs_info.descriptors_count)

-- The inode that a path leads to, and the descriptor for it.
abbrev pub found : Fs → Option ℕ → Bytes → Option ℕ
found fs none name = none
found fs (some i) name = entered (fs.nodes i) name

abbrev pub opening : Fs → Option ℕ → Option (ℕ × DescriptorsTable)
opening fs none = none
opening fs (some inode) = reserve_descriptor fs.table inode

abbrev pub opened : Fs → Option (ℕ × DescriptorsTable) → Reply × Fs
opened fs none = (descriptor none, fs)
opened fs (some (fd, new)) = (descriptor (some fd), record fs { table = new })

abbrev pub open_step : List Bytes → Bytes → Fs → Reply × Fs
open_step names name fs = opened fs (opening fs (found fs (walk fs.nodes root_inode_id names) name))

-- What ls prints of a node behind its name, and of the entries of a directory.
abbrev pub mark : Option Node → Bytes
mark (some nd) = if is_regular nd then file_mark else []
mark none = []

abbrev pub line : Nodes → ℕ × Bytes → Bytes
line nodes e = e.1 ++ (mark (nodes e.0) ++ (newline ∷ []))

abbrev pub listing : Nodes → Entries → Bytes
listing nodes [] = []
listing nodes (e ∷ entries) = line nodes e ++ listing nodes entries

abbrev pub listed : Nodes → Option ℕ → Bytes
listed nodes none = []
listed nodes (some i) = listing nodes (entries_of (nodes i))

-- The node of a new directory or file, in the superblock that has its inode and its block.
abbrev pub new_node : Superblock → Bool → ℕ → ℕ → ℕ → Node
new_node s true id b parent = regular b 0 (replicate (max_size_of_data s) 0)
new_node s false id b parent = folder b (id, b'.' ∷ []) ((parent, b'.' ∷ b'.' ∷ []) ∷ [])

-- A new node `id` in block `b`, with an entry in its parent.
abbrev pub made : Bool → Fs → ℕ → ℕ → ℕ → ℕ → ℕ × Bytes → Entries → Bytes → Fs
made is_file fs id b parent parent_block first others name = record {
  super = taken fs.super id b;
  table = fs.table;
  nodes =
      with_node (with_node fs.nodes id (new_node (taken fs.super id b) is_file id b parent)) parent
        (folder parent_block first (extended others id name));
}

-- Whether a name is in a directory, whether the directory has room, a free inode and a free block.
abbrev pub make_in :
    Bool
    → Fs
    → ℕ
    → ℕ
    → ℕ × Bytes
    → Entries
    → Bytes
    → Option ℕ
    → Bool
    → Option ℕ
    → Option ℕ
    → Option (Reply × Fs)
make_in is_file fs parent pb first others name (some inode) room i b = some (nothing, fs)
make_in is_file fs parent pb first others name none true (some id) (some b) =
    some (nothing, made is_file fs id b parent pb first others name)
make_in is_file fs parent pb first others name none _ _ _ = none

abbrev pub make_at : Bool → Fs → Bytes → ℕ → Option Node → Option (Reply × Fs)
make_at is_file fs name parent (some (folder pb first others)) =
    make_in is_file fs parent pb first others name (lookup (first ∷ others) name)
      (ltb (length (first ∷ others)) (get_max_records_count fs.super))
      (first_free fs.super.reserved_inodes_mask) (first_free fs.super.reserved_blocks_mask)
make_at is_file fs name parent _ = some (nothing, fs)

abbrev pub make_from : Bool → Fs → Bytes → Option ℕ → Option (Reply × Fs)
make_from is_file fs name none = some (nothing, fs)
make_from is_file fs name (some parent) = make_at is_file fs name parent (fs.nodes parent)

abbrev pub make_step : Bool → List Bytes → Bytes → Fs → Option (Reply × Fs)
make_step is_file names name fs = make_from is_file fs name (walk fs.nodes root_inode_id names)

-- The data of an open file, with the position: they are written, or read, inside the first block.
abbrev pub write_in : Fs → ℕ → ℕ → ℕ → ℕ → ℕ → Bytes → Bytes → Bool → Option (Reply × Fs)
write_in fs fd i pos b n contents bs true = some (
  total (some (length bs)),
  record {
    super = fs.super;
    table = moved fs.table fd (pos + length bs);
    nodes =
        with_node fs.nodes i
          (regular b (pos + length bs) (write_at pos bs (reloaded fs.super n contents)));
  },
)
write_in fs fd i pos b n contents bs false = none

-- All that is asked for lies in the data; or the data end before the block does, and the position is
-- not behind them.
abbrev pub read_in : Fs → ℕ → ℕ → ℕ → ℕ → Bytes → Bool → Bool → Bool → Option (Reply × Fs)
read_in fs fd pos size n contents true ends behind =
    some (content (read_at pos size contents), record fs { table = moved fs.table fd (pos + size) })
read_in fs fd pos size n contents false true false =
    some (content (read_at pos (n - pos) contents), record fs { table = moved fs.table fd n })
read_in fs fd pos size n contents false _ _ = none

abbrev pub write_to : Fs → ℕ → ℕ → ℕ → Bytes → Option Node → Option (Reply × Fs)
write_to fs fd i pos (c ∷ cs) (some (regular b n contents)) =
    write_in fs fd i pos b n contents (c ∷ cs) (ltb (pos + length cs) (max_size_of_data fs.super))
write_to fs fd i pos _ _ = none

abbrev pub read_from : Fs → ℕ → ℕ → ℕ → Option Node → Option (Reply × Fs)
read_from fs fd pos (suc need) (some (regular b n contents)) =
    read_in fs fd pos (suc need) n contents (ltb (pos + need) n) (ltb n (max_size_of_data fs.super))
      (ltb n pos)
read_from fs fd pos _ _ = none

-- The entry of a descriptor: whether it is open, its inode and its position.
abbrev pub write_entry : Fs → ℕ → Bytes → Option Bool → Option ℕ → Option ℕ → Option (Reply × Fs)
write_entry fs fd bs (some false) _ _ = some (total none, fs)
write_entry fs fd bs (some true) (some i) (some pos) = write_to fs fd i pos bs (fs.nodes i)
write_entry fs fd bs _ _ _ = none

abbrev pub read_entry : Fs → ℕ → ℕ → Option Bool → Option ℕ → Option ℕ → Option (Reply × Fs)
read_entry fs fd size (some true) (some i) (some pos) = read_from fs fd pos size (fs.nodes i)
read_entry fs fd size _ _ _ = none

-- One command; `none` is what the description leaves out.
unfoldable pub step : Request → Fs → Option (Reply × Fs)
step (make_dir names name) fs = make_step false names name fs
step (make_file names name) fs = make_step true names name fs
step (open_path names name) fs = some (open_step names name fs)
step (list_dir names) fs = some (content (listed fs.nodes (walk fs.nodes root_inode_id names)), fs)
step (close_fd fd) fs = table_step (Machine.close fd) fs
step (seek_fd fd pos) fs = table_step (Machine.seek fd pos) fs
step (write_fd fd bs) fs =
    write_entry fs fd bs (get_elem? fs.table.reserved_fd fd) (get_elem? fs.table.fd_to_inode fd)
      (get_elem? fs.table.fd_to_position fd)
step (read_fd fd size) fs =
    read_entry fs fd size (get_elem? fs.table.reserved_fd fd) (get_elem? fs.table.fd_to_inode fd)
      (get_elem? fs.table.fd_to_position fd)
