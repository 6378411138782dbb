-- ===== src/Commands/Create.antt =====
-- FileSystem/interface/create_dir.h and create_file.h. Where an error is printed and the function
-- goes on, it uses what it has just released, and releases it once more: a fault.
use ext.Base.{
  ℕ, ◌+◌, ◌%◌, ◌^◌, false, [], ◌∷◌, ◌++◌, none, some, get_elem?, length, take, ltb, ◌==◌,
  if◌then◌else◌,
}
use ext.Base.Image.{Bytes}
use ext.Os.{M, pure, fault, attempt, element, ◌>>=◌}
use ext.Superblock.{Superblock}
use ext.Inode.{Inode, read_inode}
use ext.Block.{Block, read_block, write_block, init_block_record, get_max_records_count}
use ext.Paths.{split_path}
use ext.Methods.{
  put_text, create_dir_helper, create_file_helper, get_inode_id_of_dir, is_dir_exist, records_of,
}
use ext.Commands.Opening.{open_fs}

-- The new record behind the others; records_count is a uint8_t. strcpy must leave room for a NUL.
unfoldable pub append_record : Block → ℕ → Bytes → Superblock → M Block
append_record block new_inode_id dirname superblock =
    let new_record = init_block_record superblock new_inode_id in
    if ltb (length dirname) (length new_record.path)
    then (do
      path ← put_text dirname new_record.path
      pure (record {
        block_info = record block.block_info {
          records_count = (block.block_info.records_count + 1) % 2 ^ 8;
        };
        block_records = some (
            take block.block_info.records_count (records_of block)
            ++ (record new_record { path = path } ∷ []));
        contents = block.contents;
      }))
    else fault

-- What both commands do once the new inode is there. `full` is what happens in a full directory.
unfoldable pub link : M (Unit {0}) → Inode → ℕ → Bytes → Superblock → M (Unit {0})
unfolding append_record
link full inode new_inode_id dirname superblock =
    if new_inode_id == superblock.fs_info.inodes_count then fault else (do
      block_id ← element (get_elem? inode.block_ids 0)
      readed ← attempt (read_block block_id superblock)
      elim readed [
        | none ↦ fault
        | some block ↦
            if block.block_info.records_count == get_max_records_count superblock then full else (do
              longer ← append_record block new_inode_id dirname superblock
              written ← attempt (write_block longer superblock)
              elim written [ none ↦ fault | some _ ↦ pure tt ])
      ])

-- What both commands do before: the directory of the path, and a name that it does not have.
unfoldable pub in_directory : Bytes → (Superblock → ℕ → Inode → Bytes → M (Unit {0})) → M (Unit {0})
in_directory path create = do
  superblock ← open_fs
  parts ← split_path path
  elim parts [
    | none ↦ pure tt
    | some (parent_path, dirname) ↦ (do
      inode_id ← get_inode_id_of_dir parent_path superblock
      if inode_id == superblock.fs_info.inodes_count then pure tt else (do
        readed ← attempt (read_inode inode_id superblock)
        elim readed [
          | none ↦ fault
          | some inode ↦ if inode.inode_info.is_file then pure tt else (do
            exist ← is_dir_exist inode dirname superblock
            if exist then pure tt else create superblock inode_id inode dirname)
        ]))
  ]

-- A full directory is an error after which create_dir goes on.
unfoldable pub create_dir : Bytes → M (Unit {0})
unfolding in_directory link
create_dir path = in_directory path λ superblock inode_id inode dirname. do
  created ← create_dir_helper superblock inode_id false
  link fault inode created.0 dirname created.1

unfoldable pub create_file : Bytes → M (Unit {0})
unfolding in_directory link
create_file path = in_directory path λ superblock inode_id inode dirname. do
  created ← create_file_helper superblock inode_id
  link (pure tt) inode created.0 dirname created.1
