-- ===== src/Superblock/Bounds.antt =====
-- The well-formed superblocks: counts in the range of uint16_t, and masks as long as the counts.
use ext.Base.{◌≡◌, true, length, length-set, arith, refl, ◌∙◌, Option-cases, inl, inr}
use ext.Base.Words.{IsU16}
use ext.Superblock.{
  FsInfo, Superblock, default_info, init_super_block, reserve_inode, reserve_block, first_free,
}

pub record InRange (i : FsInfo) : Type 0 where
  pub inodes_count : IsU16 i.inodes_count
  pub blocks_count : IsU16 i.blocks_count
  pub block_size : IsU16 i.block_size
  pub blocks_count_in_inode : IsU16 i.blocks_count_in_inode
  pub max_path_len : IsU16 i.max_path_len
  pub descriptors_count : IsU16 i.descriptors_count
  pub magic : IsU16 i.magic

pub record IsValid (superblock : Superblock) : Type 0 where
  pub info : InRange superblock.fs_info
  pub inodes : length superblock.reserved_inodes_mask ≡ superblock.fs_info.inodes_count
  pub blocks : length superblock.reserved_blocks_mask ≡ superblock.fs_info.blocks_count

pub default_info-InRange : InRange default_info
default_info-InRange = omega arith

pub init_super_block-IsValid : IsValid init_super_block
unfolding init_super_block
init_super_block-IsValid = record { info = default_info-InRange; inodes = refl; blocks = refl }

pub reserve_inode-IsValid : (s : Superblock) → IsValid s → IsValid (reserve_inode s).1
unfolding reserve_inode
reserve_inode-IsValid s v = elim (Option-cases (first_free s.reserved_inodes_mask)) [
  | inl e ↦ rw (e, reserve_inode) v
  | inr (id, e) ↦
      rw (e, reserve_inode)
        (record {
          info = v.info;
          inodes = length-set s.reserved_inodes_mask id true ∙ v.inodes;
          blocks = v.blocks;
        })
]

pub reserve_block-IsValid : (s : Superblock) → IsValid s → IsValid (reserve_block s).1
unfolding reserve_block
reserve_block-IsValid s v = elim (Option-cases (first_free s.reserved_blocks_mask)) [
  | inl e ↦ rw (e, reserve_block) v
  | inr (id, e) ↦
      rw (e, reserve_block)
        (record {
          info = v.info;
          inodes = v.inodes;
          blocks = length-set s.reserved_blocks_mask id true ∙ v.blocks;
        })
]
