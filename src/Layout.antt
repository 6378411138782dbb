-- ===== src/Layout.antt =====
-- How the file is divided: the superblock, the descriptor table, the inodes, the blocks
-- (calculate_offset of inode.c, and the offset that read_block and write_block of block.c share).
use ext.Base.{ℕ, ◌+◌, ◌*◌, ◌^◌, ◌≤◌, ◌<◌, ◌≢◌, refl, ap, ◌⊎◌, inl, inr, length, arith}
use ext.Base.Holds.{Holds, Holds-write_at}
use ext.Base.Image.{Bytes, write_at}
use ext.Superblock.{Superblock, sizeof_superblock, init_super_block}
use ext.Descriptors.{sizeof_descriptors_table}
use ext.Inode.{sizeof_inode, sizeof_inodes_block, calculate_offset}
use ext.Block.{block_offset}

-- Neither of the two sizes that are returned as uint16_t wraps.
pub record FitsWords (superblock : Superblock) : Type 0 where
  pub table : superblock.fs_info.descriptors_count * 7 < 2 ^ 16
  pub inodes : superblock.fs_info.inodes_count * sizeof_inode superblock < 2 ^ 16

pub init_super_block-FitsWords : FitsWords init_super_block
unfolding init_super_block sizeof_inode
init_super_block-FitsWords = omega arith

pub data Part : Type 0 where
  superblock table : Part
  inode block : ℕ → Part

module _ (s : Superblock) where
  abbrev pub start : Part → ℕ
  start superblock = 0
  start table = sizeof_superblock s
  start (inode i) = calculate_offset s i
  start (block b) = block_offset s b

  abbrev pub size : Part → ℕ
  size superblock = sizeof_superblock s
  size table = 7 * s.fs_info.descriptors_count
  size (inode i) = sizeof_inode s
  size (block b) = s.fs_info.block_size

  -- Inodes are numbered up to inodes_count.
  abbrev pub IsPart : Part → Type 0
  IsPart (inode i) = i < s.fs_info.inodes_count
  IsPart _ = Unit {0}

  -- Part `p` ends before part `q` begins.
  abbrev pub Before : Part → Part → Type 0
  Before p q = start p + size p ≤ start q

steps : (i j n : ℕ) → i < j → i * n + n ≤ j * n
steps i j n h = grind arith

ne_cases : (i j : ℕ) → i ≢ j → (i < j) ⊎ (j < i)
ne_cases i j h = grind arith

module _ (s : Superblock) (fits : FitsWords s) where
  superblock-table : Before s superblock table
  superblock-table = omega arith

  table-inode : (i : ℕ) → Before s table (inode i)
  unfolding calculate_offset sizeof_descriptors_table
  table-inode i = omega (arith, fits.table)

  inode-inode : (i j : ℕ) → i < j → Before s (inode i) (inode j)
  unfolding calculate_offset
  inode-inode i j h = omega (arith, steps i j (sizeof_inode s) h)

  inode-block : (i b : ℕ) → i < s.fs_info.inodes_count → Before s (inode i) (block b)
  unfolding calculate_offset block_offset sizeof_inodes_block
  inode-block i b h = omega (arith, fits.inodes, steps i s.fs_info.inodes_count (sizeof_inode s) h)

  table-block : (b : ℕ) → Before s table (block b)
  unfolding block_offset sizeof_descriptors_table
  table-block b = omega (arith, fits.table)

  block-block : (b c : ℕ) → b < c → Before s (block b) (block c)
  unfolding block_offset
  block-block b c h = omega (arith, steps b c s.fs_info.block_size h)

  superblock-inode : (i : ℕ) → Before s superblock (inode i)
  superblock-inode i = omega (arith, table-inode i)

  superblock-block : (b : ℕ) → Before s superblock (block b)
  superblock-block b = omega (arith, table-block b)

  pub parts_disjoint : (p q : Part) → IsPart s p → IsPart s q → p ≢ q → Before s p q ⊎ Before s q p
  parts_disjoint superblock superblock a b ne = absurd (ne refl)
  parts_disjoint superblock table a b ne = inl superblock-table
  parts_disjoint superblock (inode j) a b ne = inl (superblock-inode j)
  parts_disjoint superblock (block c) a b ne = inl (superblock-block c)
  parts_disjoint table superblock a b ne = inr superblock-table
  parts_disjoint table table a b ne = absurd (ne refl)
  parts_disjoint table (inode j) a b ne = inl (table-inode j)
  parts_disjoint table (block c) a b ne = inl (table-block c)
  parts_disjoint (inode i) superblock a b ne = inr (superblock-inode i)
  parts_disjoint (inode i) table a b ne = inr (table-inode i)
  parts_disjoint (inode i) (inode j) a b ne = elim (ne_cases i j (λ e. ne (ap (λ x. inode x) e))) [
    | inl h ↦ inl (inode-inode i j h)
    | inr h ↦ inr (inode-inode j i h)
  ]
  parts_disjoint (inode i) (block c) a b ne = inl (inode-block i c a)
  parts_disjoint (block c) superblock a b ne = inr (superblock-block c)
  parts_disjoint (block c) table a b ne = inr (table-block c)
  parts_disjoint (block c) (inode j) a b ne = inr (inode-block j c b)
  parts_disjoint (block c) (block d) a b ne = elim (ne_cases c d (λ e. ne (ap (λ x. block x) e))) [
    | inl h ↦ inl (block-block c d h)
    | inr h ↦ inr (block-block d c h)
  ]

  -- Under the same condition on the sizes, a write into one part of the file leaves the bytes of
  -- every other part.
  pub write_at-other :
      (p q : Part) (f bs cs : Bytes)
      → IsPart s p
      → IsPart s q
      → p ≢ q
      → length bs ≤ size s p
      → length cs ≤ size s q
      → Holds f (start s p) bs
      → Holds (write_at (start s q) cs f) (start s p) bs
  write_at-other p q f bs cs a b ne l m d =
      Holds-write_at f (start s p) bs (start s q) cs d (ground (arith, parts_disjoint p q a b ne))
