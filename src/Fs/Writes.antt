-- ===== src/Fs/Writes.antt =====
-- The four writes of create_dir and create_file: the new block, the new inode, the superblock, and
-- the block of the parent.
use ext.Base.{ℕ, ◌<◌, ◌≤◌, ◌≡◌, Bool, true, false, [], ◌∷◌, length, length-append, arith}
use ext.Base.Holds.{Holds, write_at-Holds}
use ext.Os.{File}
use ext.Utils.Write.{after_write}
use ext.Superblock.{Superblock, sizeof_superblock}
use ext.Superblock.Store.{bytes_of_superblock, length-bytes_of_superblock}
use ext.Inode.{sizeof_inode, calculate_offset}
use ext.Inode.Store.{bytes_of_inode, length-bytes_of_inode}
use ext.Block.{block_offset, bytes_of_block_info}
use ext.Block.Records.{bytes_of_records}
use ext.Block.Store.{directory, file_block, bytes_of_data, length-bytes_of_block_info}
use ext.Layout.{superblock, inode, block}
use ext.Methods.Create.{taken, HasRoom, id_bound, taken-IsValid, fresh_inode-IsValid}
use ext.Methods.Names.{records}
use ext.Fs.{Node, folder, regular}
use ext.Fs.Kept.{Kept, Kept-write, Kept-trans, length-bytes_of_node}
use ext.Fs.Represents.{IsNode, Sizes, inode_of, bytes_of_node}
use ext.Fs.Step.{new_node}
use ext.Fs.Taken.{Sizes-taken, new_node-Formed, new_node-IsNode}

pub some_node : (s : Superblock) (i : ℕ) (nd : Node) → 0 < length (bytes_of_node s i nd)
some_node s i (folder b first others) =
    let info = (directory s b i (records s (first ∷ others))).block_info in
    omega (
      arith,
      length-append (bytes_of_block_info info) (bytes_of_records (records s (first ∷ others))),
      length-bytes_of_block_info info,
    )
some_node s i (regular b n contents) =
    let info = (file_block b i n contents).block_info in
    omega (
      arith,
      length-append (bytes_of_block_info info) (bytes_of_data s n contents),
      length-bytes_of_block_info info,
    )

module _ (s : Superblock) (id b parent : ℕ) (room : HasRoom s id b parent) (sizes : Sizes s)
    (is_file : Bool) (f : File) where
  abbrev after : Superblock
  after = taken s id b

  abbrev pub node : Node
  node = new_node after is_file id b parent

  -- The file with the new node.
  abbrev pub one : File
  one = after_write (record f { pos = block_offset after b }) (bytes_of_node after id node)

  abbrev pub two : File
  two =
      after_write (record one { pos = calculate_offset after id })
        (bytes_of_inode (inode_of after id node))

  abbrev pub three : File
  three = after_write (record two { pos = 0 }) (bytes_of_superblock after)

  node_fits : length (bytes_of_node after id node) ≤ s.fs_info.block_size
  node_fits =
      length-bytes_of_node after (Sizes-taken s id b sizes) (taken-IsValid s id b parent room) id
        node (new_node-Formed s id b parent room sizes is_file)

  inode_size :
      (kind : Bool)
      → length (bytes_of_inode (inode_of after id (new_node after kind id b parent)))
        ≡ sizeof_inode after
  inode_size false = length-bytes_of_inode after _ (fresh_inode-IsValid s id b parent room false)
  inode_size true = length-bytes_of_inode after _ (fresh_inode-IsValid s id b parent room true)

  superblock_size : length (bytes_of_superblock after) ≡ sizeof_superblock after
  superblock_size = length-bytes_of_superblock after (taken-IsValid s id b parent room)

  some_sizes : (0 < sizeof_inode after) × (0 < sizeof_superblock after)
  unfolding sizeof_inode sizeof_superblock
  some_sizes = (omega arith, omega arith)

  two_three : Kept after (superblock ∷ []) two.bytes three.bytes
  two_three =
      let l = superblock_size in
      Kept-write after superblock two.bytes (bytes_of_superblock after)
        (Sizes-taken s id b sizes).fits tt (omega arith)

  one_two : Kept after (inode id ∷ []) one.bytes two.bytes
  one_two =
      let l = inode_size is_file in
      Kept-write after (inode id) one.bytes (bytes_of_inode (inode_of after id node))
        (Sizes-taken s id b sizes).fits (id_bound s id b parent room) (omega arith)

  pub Kept-three : Kept after (block b ∷ inode id ∷ superblock ∷ []) f.bytes three.bytes
  Kept-three =
      Kept-trans after (block b ∷ []) (inode id ∷ superblock ∷ []) _ _ _
        (Kept-write after (block b) f.bytes (bytes_of_node after id node)
          (Sizes-taken s id b sizes).fits tt node_fits)
        (Kept-trans after (inode id ∷ []) (superblock ∷ []) _ _ _ one_two two_three)

  -- The new node is there.
  pub three-IsNode : IsNode after three.bytes id node
  three-IsNode =
      let n = some_node after id node in
      let i = inode_size is_file in
      let z = some_sizes in
      new_node-IsNode s id b parent room sizes is_file three.bytes
        (two_three.keep (inode id) _ (id_bound s id b parent room) ((λ e. ground arith), tt)
          (omega arith) (write_at-Holds _ _ _ (omega arith)))
        (two_three.keep (block b) _ tt ((λ e. ground arith), tt) node_fits
          (one_two.keep (block b) _ tt ((λ e. ground arith), tt) node_fits
            (write_at-Holds _ _ _ n)))

  pub superblock_there : Holds three.bytes 0 (bytes_of_superblock after)
  superblock_there =
      let l = superblock_size in let z = some_sizes in write_at-Holds _ _ _ (omega arith)
