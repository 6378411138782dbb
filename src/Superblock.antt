-- ===== src/Superblock.antt =====
-- FileSystem/core/superblock.c: the geometry of the file system and the masks of reserved inodes
-- and blocks. A pointer to a struct is the struct, and a function that changes it returns it.
-- The masks have the lengths that calloc gave them (`IsValid` in Bounds).
pub mod Bounds
pub mod Masks
pub mod Store
use ext.Base.{
  ℕ, ◌+◌, ◌*◌, Bool, true, false, List, [], ◌∷◌, Option, none, some, get_elem?, set, replicate,
  if◌then◌else◌,
}
use ext.Base.Image.{Bytes}
use ext.Base.Words.{byte, u16_at, bytes_of_bools, bools_of_bytes}
use ext.Os.{M, pure, ◌>>=◌, ◌>>◌, lseek, element}
use ext.Utils.{read_while, write_while}
use mathlib.Core.Option

pub record FsInfo : Type 0 where
  pub inodes_count : ℕ
  pub blocks_count : ℕ
  pub block_size : ℕ
  pub blocks_count_in_inode : ℕ
  pub max_path_len : ℕ
  pub descriptors_count : ℕ
  pub magic : ℕ

pub record Superblock : Type 0 where
  pub fs_info : FsInfo
  pub reserved_inodes_mask : List Bool
  pub reserved_blocks_mask : List Bool

-- FileSystem/core/defines.h
abbrev pub default_info : FsInfo
default_info = record {
  inodes_count = 128;
  blocks_count = 128;
  block_size = 128;
  blocks_count_in_inode = 8;
  max_path_len = 16;
  descriptors_count = 16;
  magic = 0xfaf;
}

-- MAGIC and ROOT_INODE_ID
abbrev pub magic_number : ℕ
magic_number = 0xfaf

abbrev pub root_inode_id : ℕ
root_inode_id = 0

-- sizeof(struct fs_info), which is packed
abbrev pub sizeof_fs_info : ℕ
sizeof_fs_info = 14

unfoldable pub sizeof_superblock : Superblock → ℕ
sizeof_superblock superblock =
    sizeof_fs_info + superblock.fs_info.inodes_count + superblock.fs_info.blocks_count

unfoldable pub init_super_block : Superblock
init_super_block = record {
  fs_info = default_info;
  reserved_inodes_mask = replicate default_info.inodes_count false;
  reserved_blocks_mask = replicate default_info.blocks_count false;
}

-- The memory of a struct fs_info.
unfoldable pub bytes_of_info : FsInfo → Bytes
bytes_of_info i =
    byte 0 i.inodes_count
    ∷ byte 1 i.inodes_count
    ∷ byte 0 i.blocks_count
    ∷ byte 1 i.blocks_count
    ∷ byte 0 i.block_size
    ∷ byte 1 i.block_size
    ∷ byte 0 i.blocks_count_in_inode
    ∷ byte 1 i.blocks_count_in_inode
    ∷ byte 0 i.max_path_len
    ∷ byte 1 i.max_path_len
    ∷ byte 0 i.descriptors_count
    ∷ byte 1 i.descriptors_count
    ∷ byte 0 i.magic
    ∷ byte 1 i.magic
    ∷ []

unfoldable pub info_of_bytes : Bytes → FsInfo
info_of_bytes bs = record {
  inodes_count = u16_at 0 bs;
  blocks_count = u16_at 2 bs;
  block_size = u16_at 4 bs;
  blocks_count_in_inode = u16_at 6 bs;
  max_path_len = u16_at 8 bs;
  descriptors_count = u16_at 10 bs;
  magic = u16_at 12 bs;
}

-- The number of bytes that C returns is compared with -1 only, and is left out.
unfoldable pub read_super_block : M Superblock
read_super_block = do
  lseek 0
  info ← read_while sizeof_fs_info
  inodes ← read_while (info_of_bytes info).inodes_count
  blocks ← read_while (info_of_bytes info).blocks_count
  pure (record {
    fs_info = info_of_bytes info;
    reserved_inodes_mask = bools_of_bytes inodes;
    reserved_blocks_mask = bools_of_bytes blocks;
  })

unfoldable pub write_super_block : Superblock → M ℕ
write_super_block superblock = do
  lseek 0
  info ← write_while (bytes_of_info superblock.fs_info)
  inodes ← write_while (bytes_of_bools superblock.reserved_inodes_mask)
  blocks ← write_while (bytes_of_bools superblock.reserved_blocks_mask)
  pure (info + inodes + blocks)

-- The loops `for (id = 0; id < count; ++id) if (!mask[id])` up to the `return` in them.
unfoldable pub first_free : List Bool → Option ℕ
first_free [] = none
first_free (false ∷ mask) = some 0
first_free (true ∷ mask) = Option.map (λ id. id + 1) (first_free mask)

unfoldable pub reserve_inode : Superblock → ℕ × Superblock
reserve_inode superblock = elim (first_free superblock.reserved_inodes_mask) [
  | none ↦ (superblock.fs_info.inodes_count, superblock)
  | some id ↦
      (id, record superblock { reserved_inodes_mask = set superblock.reserved_inodes_mask id true })
]

unfoldable pub free_inode : Superblock → ℕ → M (ℕ × Superblock)
free_inode superblock inode_id = do
  reserved ← element (get_elem? superblock.reserved_inodes_mask inode_id)
  if reserved
      then pure (
        inode_id,
        record superblock {
          reserved_inodes_mask = set superblock.reserved_inodes_mask inode_id false;
        },
      )
      else pure (superblock.fs_info.inodes_count, superblock)

unfoldable pub reserve_block : Superblock → ℕ × Superblock
reserve_block superblock = elim (first_free superblock.reserved_blocks_mask) [
  | none ↦ (superblock.fs_info.blocks_count, superblock)
  | some id ↦
      (id, record superblock { reserved_blocks_mask = set superblock.reserved_blocks_mask id true })
]

unfoldable pub free_block : Superblock → ℕ → M (ℕ × Superblock)
free_block superblock block_id = do
  reserved ← element (get_elem? superblock.reserved_blocks_mask block_id)
  if reserved
      then pure (
        block_id,
        record superblock {
          reserved_blocks_mask = set superblock.reserved_blocks_mask block_id false;
        },
      )
      else pure (superblock.fs_info.blocks_count, superblock)
