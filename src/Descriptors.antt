-- ===== src/Descriptors.antt =====
-- FileSystem/core/descriptors_table.c: the open descriptors, the inode and the position of each.
-- The three arrays have the length descriptors_count (`IsValid` in Bounds).
pub mod Bounds
pub mod Open
pub mod Close
pub mod Store
use ext.Base.{
  ℕ, ◌*◌, ◌%◌, ◌^◌, Bool, true, false, List, [], ◌∷◌, Option, none, some, get_elem?, set, replicate,
  if◌then◌else◌, ◌+◌, ◌==◌,
}
use ext.Base.Words.{
  bytes_of_bools, bools_of_bytes, bytes_of_u16s, u16s_of_bytes, bytes_of_u32s, u32s_of_bytes,
}
use ext.Os.{M, pure, fail, ◌>>=◌, ◌>>◌, lseek, element}
use ext.Utils.{read_while, write_while}
use ext.Superblock.{Superblock, sizeof_superblock, first_free}

pub record DescriptorsTable : Type 0 where
  pub reserved_fd : List Bool
  pub fd_to_inode : List ℕ
  pub fd_to_position : List ℕ

unfoldable pub init_descriptors_table : Superblock → DescriptorsTable
init_descriptors_table superblock = record {
  reserved_fd = replicate superblock.fs_info.descriptors_count false;
  fd_to_inode = replicate superblock.fs_info.descriptors_count 0;
  fd_to_position = replicate superblock.fs_info.descriptors_count 0;
}

-- The number of bytes that C returns is compared with -1 only, and is left out.
unfoldable pub read_descriptors_table : Superblock → M DescriptorsTable
read_descriptors_table superblock = do
  lseek (sizeof_superblock superblock)
  reserved ← read_while superblock.fs_info.descriptors_count
  inodes ← read_while (2 * superblock.fs_info.descriptors_count)
  positions ← read_while (4 * superblock.fs_info.descriptors_count)
  pure (record {
    reserved_fd = bools_of_bytes reserved;
    fd_to_inode = u16s_of_bytes inodes;
    fd_to_position = u32s_of_bytes positions;
  })

unfoldable pub write_descriptor_table : DescriptorsTable → Superblock → M ℕ
write_descriptor_table table superblock = do
  lseek (sizeof_superblock superblock)
  reserved ← write_while (bytes_of_bools table.reserved_fd)
  inodes ← write_while (bytes_of_u16s table.fd_to_inode)
  positions ← write_while (bytes_of_u32s table.fd_to_position)
  pure (reserved + inodes + positions)

-- The first loop of reserve_descriptor: some entry of fd_to_inode, reserved or not, is `inode_id`.
unfoldable pub has_inode : List ℕ → ℕ → Bool
has_inode [] inode_id = false
has_inode (inode ∷ inodes) inode_id =
    let rest = has_inode inodes inode_id in if inode == inode_id then true else rest

abbrev pub occupy : DescriptorsTable → ℕ → ℕ → DescriptorsTable
occupy table fd inode_id = record {
  reserved_fd = set table.reserved_fd fd true;
  fd_to_inode = set table.fd_to_inode fd inode_id;
  fd_to_position = set table.fd_to_position fd 0;
}

-- The descriptor and the new table, or `none` for -1.
unfoldable pub reserve_descriptor : DescriptorsTable → ℕ → Option (ℕ × DescriptorsTable)
reserve_descriptor table inode_id =
    if has_inode table.fd_to_inode inode_id then none else elim (first_free table.reserved_fd) [
      | none ↦ none
      | some fd ↦ some (fd, occupy table fd inode_id)
    ]

abbrev pub release : DescriptorsTable → ℕ → DescriptorsTable
release table fd = record {
  reserved_fd = set table.reserved_fd fd false;
  fd_to_inode = set table.fd_to_inode fd 0;
  fd_to_position = set table.fd_to_position fd 0;
}

unfoldable pub free_descriptor : DescriptorsTable → ℕ → M (ℕ × DescriptorsTable)
free_descriptor table fd = do
  reserved ← element (get_elem? table.reserved_fd fd)
  if reserved then pure (fd, release table fd) else fail

-- The result is a uint16_t.
unfoldable pub sizeof_descriptors_table : Superblock → ℕ
sizeof_descriptors_table superblock = superblock.fs_info.descriptors_count * (1 + 2 + 4) % 2 ^ 16
