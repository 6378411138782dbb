-- ===== src/Methods.antt =====
-- FileSystem/core/methods.c: creating a directory or a file, and looking names up. What a function
-- does to the superblock in memory is returned beside its result.
pub mod Create
pub mod CreateFile
pub mod NoRoom
pub mod Names
pub mod Walk
pub mod Made
pub mod Failures
pub mod Returns
use ext.Base.{
  ℕ, zero, suc, Bool, true, false, List, [], ◌∷◌, Option, none, some, length, drop, ltb, ◌==◌,
  text_eq, ◌++◌, if◌then◌else◌, get_elem?,
}
use ext.Base.Image.{Bytes}
use ext.Os.{M, pure, exit, fault, hang, attempt, element, assign, ◌>>=◌}
use ext.Superblock.{
  Superblock, root_inode_id, reserve_inode, free_inode, reserve_block, free_block,
  write_super_block,
}
use ext.Inode.{Inode, init_inode, read_inode, write_inode}
use ext.Block.{
  Block, BlockRecord, init_block_record, init_block, init_block_with_records, read_block,
  write_block,
}
use ext.Paths.{slash, strcmp_eq, parse_path}

-- memcpy or strcpy of a text into a cleared array, behind which nothing may be written.
unfoldable pub put_text : Bytes → Bytes → M Bytes
put_text text array =
    if ltb (length array) (length text) then fault else pure (text ++ drop (length text) array)

-- free_inode and free_block after a failed write, and the id that stands for an error.
unfoldable pub give_back : Superblock → ℕ → ℕ → M (ℕ × Superblock)
give_back superblock new_inode_id new_block_id = do
  inode_freed ← free_inode superblock new_inode_id
  block_freed ← free_block inode_freed.1 new_block_id
  pure (superblock.fs_info.inodes_count, block_freed.1)

-- The three writes at the end of both helpers.
unfoldable pub write_new : Block → Inode → Superblock → ℕ → ℕ → M (ℕ × Superblock)
unfolding give_back
write_new block inode superblock new_inode_id new_block_id = do
  block_written ← attempt (write_block block superblock)
  elim block_written [
    | none ↦ give_back superblock new_inode_id new_block_id
    | some _ ↦ (do
      inode_written ← attempt (write_inode inode superblock)
      elim inode_written [
        | none ↦ give_back superblock new_inode_id new_block_id
        | some _ ↦ (do
          superblock_written ← attempt (write_super_block superblock)
          elim superblock_written [
            | none ↦ give_back superblock new_inode_id new_block_id
            | some _ ↦ pure (new_inode_id, superblock)
          ])
      ])
  ]

-- The inode of the new directory or file: init_inode, and its first block.
unfoldable pub new_inode : ℕ → ℕ → Bool → Superblock → M Inode
new_inode new_inode_id new_block_id is_file superblock = do
  let inode = init_inode new_inode_id is_file superblock
  block_ids ← assign inode.block_ids 0 new_block_id
  pure (record { inode_info = record inode.inode_info { blocks_count = 1 }; block_ids = block_ids })

-- The block of a new directory, with the records "." and "..".
unfoldable pub dots_block : ℕ → ℕ → ℕ → Superblock → M Block
dots_block new_block_id new_inode_id parent_node_id superblock = do
  let block = init_block_with_records superblock new_block_id new_inode_id 2
  let dot_record = init_block_record superblock new_inode_id
  dot ← put_text (b'.' ∷ []) dot_record.path
  let two_dots_record = init_block_record superblock parent_node_id
  two_dots ← put_text (b'.' ∷ b'.' ∷ []) two_dots_record.path
  pure (record block {
    block_records =
        some (record dot_record { path = dot } ∷ record two_dots_record { path = two_dots } ∷ []);
  })

unfoldable pub create_dir_helper : Superblock → ℕ → Bool → M (ℕ × Superblock)
create_dir_helper superblock parent_node_id is_root =
    let (new_inode_id, with_inode) = reserve_inode superblock in
    if new_inode_id == superblock.fs_info.inodes_count
    then pure (superblock.fs_info.inodes_count, with_inode)
    else let (new_block_id, with_block) = reserve_block with_inode in
      if new_block_id == superblock.fs_info.blocks_count
      then (do
        freed ← free_inode with_block new_inode_id
        pure (superblock.fs_info.inodes_count, freed.1))
      else (do
        inode ← new_inode new_inode_id new_block_id false with_block
        block ←
            dots_block new_block_id new_inode_id (if is_root then new_inode_id else parent_node_id)
              with_block
        write_new block inode with_block new_inode_id new_block_id)

unfoldable pub create_file_helper : Superblock → ℕ → M (ℕ × Superblock)
create_file_helper superblock parent_node_id =
    let (new_inode_id, with_inode) = reserve_inode superblock in
    if new_inode_id == superblock.fs_info.inodes_count
    then pure (superblock.fs_info.inodes_count, with_inode)
    else let (new_block_id, with_block) = reserve_block with_inode in
      if new_block_id == superblock.fs_info.blocks_count
      then (do
        freed ← free_inode with_block new_inode_id
        pure (superblock.fs_info.inodes_count, freed.1))
      else (do
        inode ← new_inode new_inode_id new_block_id true with_block
        write_new (init_block with_block new_block_id new_inode_id) inode with_block new_inode_id
            new_block_id)

-- The loop over the first `n` records: the inode of the first whose path is `name`.
unfoldable pub find_record : ℕ → List BlockRecord → Bytes → M (Option ℕ)
find_record zero block_records name = pure none
find_record (suc n) [] name = fault
find_record (suc n) (block_record ∷ block_records) name = do
  same ← element (strcmp_eq block_record.path name)
  if same then pure (some block_record.inode_id) else find_record n block_records name

-- The records of a block; a null pointer has none.
abbrev pub records_of : Block → List BlockRecord
records_of block = elim block.block_records [ none ↦ [] | some block_records ↦ block_records ]

unfoldable pub find_in_block : Block → Bytes → M (Option ℕ)
find_in_block block name = find_record block.block_info.records_count (records_of block) name

-- Whether the path leads somewhere, and the inode where the walk ended. The result of read_block is
-- not looked at: after an error the block that was released is read.
unfoldable pub get_inode_id_of_dir_rec : ℕ → Bytes → ℕ → Superblock → M (Bool × ℕ)
get_inode_id_of_dir_rec zero path current_inode_id superblock = hang
get_inode_id_of_dir_rec (suc fuel) path current_inode_id superblock = do
  inode_readed ← attempt (read_inode current_inode_id superblock)
  elim inode_readed [
    | none ↦ pure (false, current_inode_id)
    | some inode ↦ if inode.inode_info.is_file then pure (false, current_inode_id) else (do
      parsed ← parse_path path superblock.fs_info.max_path_len
      if text_eq parsed.0 (slash ∷ []) then pure (true, current_inode_id) else (do
        block_id ← element (get_elem? inode.block_ids 0)
        block_readed ← attempt (read_block block_id superblock)
        elim block_readed [
          | none ↦ fault
          | some block ↦ (do
            founded ← find_in_block block parsed.0
            elim founded [
              | none ↦ pure (false, current_inode_id)
              | some inode_id ↦ elim parsed.1 [
                | none ↦ pure (true, inode_id)
                | some path_to_parse ↦
                    get_inode_id_of_dir_rec fuel path_to_parse inode_id superblock
              ]
            ])
        ]))
  ]

-- Each call takes two bytes of the path at least, so its length bounds the depth.
unfoldable pub get_inode_id_of_dir : Bytes → Superblock → M ℕ
unfolding get_inode_id_of_dir_rec
get_inode_id_of_dir path superblock = do
  result ← get_inode_id_of_dir_rec (suc (length path)) path root_inode_id superblock
  pure (if result.0 then result.1 else superblock.fs_info.inodes_count)

unfoldable pub is_dir_exist : Inode → Bytes → Superblock → M Bool
is_dir_exist inode dirname superblock = do
  block_id ← element (get_elem? inode.block_ids 0)
  readed ← attempt (read_block block_id superblock)
  elim readed [
    | none ↦ exit
    | some block ↦ (do
      founded ← find_in_block block dirname
      pure (elim founded [ none ↦ false | some _ ↦ true ]))
  ]

unfoldable pub get_file_inode_id : Inode → Bytes → Superblock → M ℕ
get_file_inode_id inode dirname superblock = do
  block_id ← element (get_elem? inode.block_ids 0)
  readed ← attempt (read_block block_id superblock)
  elim readed [
    | none ↦ exit
    | some block ↦ (do
      founded ← find_in_block block dirname
      pure (elim founded [ none ↦ superblock.fs_info.inodes_count | some inode_id ↦ inode_id ]))
  ]
