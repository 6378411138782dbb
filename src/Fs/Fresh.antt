-- ===== src/Fs/Fresh.antt =====
-- The file that init_fs of init.h leaves represents the empty file system, in which the commands run.
use ext.Base.{ℕ, ◌≡◌, refl, sym, ◌∙◌, subst, List, none, some, All, arith, inl, inr, false}
use ext.Os.{Host, File, IsSteady, ◌>>◌}
use ext.Os.Ends.{Ends, Ends-bind}
use ext.Superblock.{init_super_block}
use ext.Descriptors.{init_descriptors_table}
use ext.Descriptors.Open.{init_descriptors_table-IsConsistent}
use ext.Methods.Made.{inode_there, block_there}
use ext.Commands.Fresh.{
  fresh_superblock, fresh_file, init_fs-Ends, init_super_block-HasRoom, fresh_superblock-FitsWords,
  fresh_sizes, two_written,
}
use ext.Commands.FreshTable.{fresh_file-HasTable}
use ext.Commands.Init.{init_fs}
use ext.Fs.{Node, Nodes, Fs, none_is_not_some, some_inj}
use ext.Fs.Nodes.{with_node-cases, with_node-Alone, with_node-Closed}
use ext.Fs.Represents.{Sizes, IsNode, Represents}
use ext.Fs.Run.{perform_all, run, perform_all-run}
use ext.Fs.Sizes.{IsRequest}
use ext.Fs.Step.{Request, Reply, with_node, new_node}
use ext.Fs.Taken.{new_node-IsNode, Sizes-taken}

abbrev root_node : Node
root_node = new_node fresh_superblock false 0 0 0

abbrev no_nodes : Nodes
no_nodes = λ i. none

-- The root directory, and no open descriptor.
abbrev pub fresh_fs : Fs
fresh_fs = record {
  super = fresh_superblock;
  table = init_descriptors_table init_super_block;
  nodes = with_node no_nodes 0 root_node;
}

init_sizes : Sizes init_super_block
unfolding init_super_block ext.Inode.sizeof_inode
init_sizes = record {
  fits = record { table = omega arith; inodes = omega arith };
  slots = omega arith;
  names = omega arith;
  enough = omega arith;
}

root_IsNode : IsNode fresh_superblock fresh_file.bytes 0 root_node
root_IsNode =
    new_node-IsNode init_super_block 0 0 0 init_super_block-HasRoom init_sizes false
      fresh_file.bytes
      (inode_there init_super_block 0 0 0 init_super_block-HasRoom fresh_superblock-FitsWords
        fresh_sizes.0 fresh_sizes.1 two_written)
      (block_there init_super_block 0 0 0 init_super_block-HasRoom fresh_superblock-FitsWords
        fresh_sizes.0 fresh_sizes.1 two_written)

only_root-IsNode :
    (i : ℕ) (nd : Node) → fresh_fs.nodes i ≡ some nd → IsNode fresh_superblock fresh_file.bytes i nd
only_root-IsNode i nd e = elim (with_node-cases no_nodes 0 root_node i) [
  | inl (same, d) ↦
      subst (λ x. IsNode fresh_superblock fresh_file.bytes x nd) same
        (subst (IsNode fresh_superblock fresh_file.bytes 0) (some_inj root_node nd (sym d ∙ e))
          root_IsNode)
  | inr (ne, d) ↦ absurd (none_is_not_some nd (sym d ∙ e))
]

pub fresh_file-Represents : Represents fresh_fs fresh_file.bytes
fresh_file-Represents = record {
  sizes = Sizes-taken init_super_block 0 0 init_sizes;
  has = fresh_file-HasTable;
  consistent = init_descriptors_table-IsConsistent init_super_block;
  sound = only_root-IsNode;
  alone =
      with_node-Alone no_nodes 0 root_node (λ i j nd md e d same. absurd (none_is_not_some nd e))
        (λ j md e same. absurd (none_is_not_some md e));
  closed =
      with_node-Closed no_nodes 0 root_node (λ i. tt) ((root_node, refl), ((root_node, refl), tt));
  root = refl;
}

-- Under a host that fails no call and whatever the file held, init_fs and then any list of
-- commands, each of which ends before the next begins: if the abstract file system (directories
-- with entries, files with data, and the open descriptors) that starts with an empty root runs the
-- list, then init_fs and the commands end, with the replies of the abstract run (the descriptor of
-- open_file, the listing of ls, the size that is written, the data that are read), and the file
-- then represents the abstract file system at the end: its superblock, its descriptor table, and
-- the inode and the block of every directory and file. The commands are create_dir, create_file
-- and open_file of a path, ls of a path that ends with a slash, close_file, lseek_pos,
-- write_to_file and read_file; a run is described as far as a new directory or file finds a free
-- inode, a free block and room in its directory, a descriptor is below descriptors_count and, for
-- a read, open, what is written through an open one has a byte and ends inside the first block of
-- a file, and what is asked for in a read has a byte and lies inside the data of the first block,
-- or the data end before the block does and the rest of them is read; the names of the paths have
-- a byte, no slash and no NUL, and fit the arrays of the functions that split the paths.
pub perform_all-init_fs :
    {h : Host} (k : IsSteady h) (cs : List Request) (f : File) (replies : List Reply) (last : Fs)
    → All (IsRequest fresh_superblock) cs
    → run cs fresh_fs ≡ some (replies, last)
    → (g : File) × Ends h (do init_fs; perform_all cs) f replies g × Represents last g.bytes
perform_all-init_fs k cs f replies last v e =
    let (g, ends, r) =
      perform_all-run k cs fresh_fs fresh_file replies last fresh_file-Represents v e in
    (g, Ends-bind _ _ (init_fs-Ends k f) ends, r)
