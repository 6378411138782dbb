-- ===== src/Inode.antt =====
-- FileSystem/core/inode.c: an inode, and its place in the file.
pub mod Store
use ext.Base.{ℕ, ◌+◌, ◌*◌, ◌%◌, ◌^◌, Bool, List, [], ◌∷◌, get_or, replicate}
use ext.Base.Image.{Bytes}
use ext.Base.Words.{byte, u16_at, byte_of_bool, bool_of_byte, bytes_of_u16s, u16s_of_bytes}
use ext.Os.{M, pure, ◌>>=◌, ◌>>◌, lseek}
use ext.Utils.{read_while, write_while}
use ext.Superblock.{Superblock, sizeof_superblock}
use ext.Descriptors.{sizeof_descriptors_table}

pub record InodeInfo : Type 0 where
  pub id : ℕ
  pub blocks_count : ℕ
  pub is_file : Bool

pub record Inode : Type 0 where
  pub inode_info : InodeInfo
  pub block_ids : List ℕ

-- sizeof(struct inode_info), which is packed
abbrev pub sizeof_inode_info : ℕ
sizeof_inode_info = 5

unfoldable pub sizeof_inode : Superblock → ℕ
sizeof_inode superblock = sizeof_inode_info + 2 * superblock.fs_info.blocks_count_in_inode

unfoldable pub calculate_offset : Superblock → ℕ → ℕ
unfolding sizeof_inode
calculate_offset superblock inode_id =
    sizeof_superblock superblock
    + sizeof_descriptors_table superblock
    + inode_id * sizeof_inode superblock

unfoldable pub init_inode : ℕ → Bool → Superblock → Inode
init_inode id is_file superblock = record {
  inode_info = record { id = id; blocks_count = 0; is_file = is_file };
  block_ids = replicate superblock.fs_info.blocks_count_in_inode 0;
}

-- The memory of a struct inode_info.
unfoldable pub bytes_of_inode_info : InodeInfo → Bytes
unfolding byte_of_bool
bytes_of_inode_info i =
    byte 0 i.id
    ∷ byte 1 i.id
    ∷ byte 0 i.blocks_count
    ∷ byte 1 i.blocks_count
    ∷ byte_of_bool i.is_file
    ∷ []

unfoldable pub inode_info_of_bytes : Bytes → InodeInfo
unfolding bool_of_byte
inode_info_of_bytes bs = record {
  id = u16_at 0 bs;
  blocks_count = u16_at 2 bs;
  is_file = bool_of_byte (get_or bs 4 0);
}

-- The number of bytes that C returns is compared with -1 only, and is left out.
unfoldable pub read_inode : ℕ → Superblock → M Inode
read_inode inode_id superblock = do
  lseek (calculate_offset superblock inode_id)
  info ← read_while sizeof_inode_info
  ids ← read_while (2 * superblock.fs_info.blocks_count_in_inode)
  pure (record { inode_info = inode_info_of_bytes info; block_ids = u16s_of_bytes ids })

unfoldable pub write_inode : Inode → Superblock → M ℕ
write_inode inode superblock = do
  lseek (calculate_offset superblock inode.inode_info.id)
  info ← write_while (bytes_of_inode_info inode.inode_info)
  ids ← write_while (bytes_of_u16s inode.block_ids)
  pure (info + ids)

-- The result is a uint16_t.
unfoldable pub sizeof_inodes_block : Superblock → ℕ
unfolding sizeof_inode
sizeof_inodes_block superblock = superblock.fs_info.inodes_count * sizeof_inode superblock % 2 ^ 16
