-- ===== src/Descriptors/Bounds.antt =====
-- The well-formed descriptor tables.
use ext.Base.{
  ℕ, zero, suc, ◌≡◌, ◌∙◌, List, [], ◌∷◌, length, length-set, length-replicate, All, set, replicate,
  arith, true, false,
}
use ext.Base.Words.{IsU16, IsU32}
use ext.Superblock.{Superblock}
use ext.Descriptors.{DescriptorsTable, init_descriptors_table, occupy, release}

pub record IsValid (superblock : Superblock) (table : DescriptorsTable) : Type 0 where
  pub reserved : length table.reserved_fd ≡ superblock.fs_info.descriptors_count
  pub inodes : length table.fd_to_inode ≡ superblock.fs_info.descriptors_count
  pub positions : length table.fd_to_position ≡ superblock.fs_info.descriptors_count
  pub inode_range : All IsU16 table.fd_to_inode
  pub position_range : All IsU32 table.fd_to_position

pub All-set : (P : ℕ → Type 0) (xs : List ℕ) (i v : ℕ) → All P xs → P v → All P (set xs i v)
All-set P [] i v h p = tt
All-set P (x ∷ xs) zero v h p = (p, h.1)
All-set P (x ∷ xs) (suc i) v h p = (h.0, All-set P xs i v h.1 p)

pub All-replicate : (P : ℕ → Type 0) (n v : ℕ) → P v → All P (replicate n v)
All-replicate P zero v p = tt
All-replicate P (suc n) v p = (p, All-replicate P n v p)

pub init_descriptors_table-IsValid : (s : Superblock) → IsValid s (init_descriptors_table s)
unfolding init_descriptors_table
init_descriptors_table-IsValid s = record {
  reserved = length-replicate s.fs_info.descriptors_count false;
  inodes = length-replicate s.fs_info.descriptors_count 0;
  positions = length-replicate s.fs_info.descriptors_count 0;
  inode_range = All-replicate IsU16 s.fs_info.descriptors_count 0 (omega arith);
  position_range = All-replicate IsU32 s.fs_info.descriptors_count 0 (omega arith);
}

pub occupy-IsValid :
    (s : Superblock) (table : DescriptorsTable) (fd inode_id : ℕ)
    → IsValid s table
    → IsU16 inode_id
    → IsValid s (occupy table fd inode_id)
occupy-IsValid s table fd inode_id v r = record {
  reserved = length-set table.reserved_fd fd true ∙ v.reserved;
  inodes = length-set table.fd_to_inode fd inode_id ∙ v.inodes;
  positions = length-set table.fd_to_position fd 0 ∙ v.positions;
  inode_range = All-set IsU16 table.fd_to_inode fd inode_id v.inode_range r;
  position_range = All-set IsU32 table.fd_to_position fd 0 v.position_range (omega arith);
}

pub release-IsValid :
    (s : Superblock) (table : DescriptorsTable) (fd : ℕ)
    → IsValid s table
    → IsValid s (release table fd)
release-IsValid s table fd v = record {
  reserved = length-set table.reserved_fd fd false ∙ v.reserved;
  inodes = length-set table.fd_to_inode fd 0 ∙ v.inodes;
  positions = length-set table.fd_to_position fd 0 ∙ v.positions;
  inode_range = All-set IsU16 table.fd_to_inode fd 0 v.inode_range (omega arith);
  position_range = All-set IsU32 table.fd_to_position fd 0 v.position_range (omega arith);
}
