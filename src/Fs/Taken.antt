-- ===== src/Fs/Taken.antt =====
-- Nodes in a superblock that has one more inode and one more block reserved.
use ext.Base.{
  ℕ, List, ◌^◌, ◌<◌, ◌≡◌, ◌≢◌, refl, sym, ◌∙◌, Bool, true, false, ◌∷◌, some, length-replicate, set,
  get_elem?, get_elem?-set_self, get_elem?-set_ne, get_elem?-lt, arith,
}
use ext.Base.Holds.{Holds}
use ext.Base.Image.{Bytes}
use ext.Superblock.{Superblock}
use ext.Superblock.Masks.{first_free-IsFirstFree}
use ext.Inode.{sizeof_inode, calculate_offset, sizeof_inodes_block}
use ext.Inode.Store.{bytes_of_inode}
use ext.Block.{block_offset, sizeof_block_record, max_size_of_data}
use ext.Block.Store.{bytes_of_data}
use ext.Descriptors.{sizeof_descriptors_table}
use ext.Superblock.{sizeof_superblock}
use ext.Methods.Create.{taken, HasRoom, id_bound, b_bound, entries-All}
use ext.Methods.Names.{records}
use ext.Commands.Makes.{All-records}
use ext.Fs.{Node, folder, regular, block_of}
use ext.Fs.Represents.{
  Formed, folder_formed, regular_formed, IsNode, Sizes, inode_of, bytes_of_node,
}
use ext.Fs.Step.{new_node}

dot_is_byte : ◌≢◌ {A = ℕ} b'.' 0
dot_is_byte e = ground arith

-- The superblock with other masks.
abbrev pub with_masks : Superblock → List Bool → List Bool → Superblock
with_masks s inodes blocks = record {
  fs_info = s.fs_info;
  reserved_inodes_mask = inodes;
  reserved_blocks_mask = blocks;
}

module _ (s : Superblock) (inodes blocks : List Bool) where
  abbrev masked : Superblock
  masked = with_masks s inodes blocks

  Formed-masks : (i : ℕ) (nd : Node) → Formed s i nd → Formed masked i nd
  unfolding sizeof_block_record max_size_of_data
  Formed-masks i nd (folder_formed {first} {others} ranges rs names fit) =
      folder_formed
        (record {
          block_id = ranges.block_id;
          inode_id = ranges.inode_id;
          records_count = ranges.records_count;
          data_size = ranges.data_size;
        })
        (All-records s masked (records s (first ∷ others)) refl rs) names fit
  Formed-masks i nd (regular_formed ranges l m) = regular_formed ranges l m

  -- A node that is reserved in the masks is there, too.
  pub IsNode-masks :
      (bytes : Bytes) (i : ℕ) (nd : Node)
      → get_elem? inodes i ≡ some true
      → get_elem? blocks (block_of nd) ≡ some true
      → IsNode s bytes i nd
      → IsNode masked bytes i nd
  unfolding calculate_offset sizeof_inode sizeof_superblock sizeof_descriptors_table block_offset
      sizeof_inodes_block bytes_of_data max_size_of_data
  IsNode-masks bytes i (folder pb first others) u v there = record {
    inode_used = u;
    block_used = v;
    formed = Formed-masks i (folder pb first others) there.formed;
    inode_there = there.inode_there;
    block_there = there.block_there;
  }
  IsNode-masks bytes i (regular c n contents) u v there = record {
    inode_used = u;
    block_used = v;
    formed = Formed-masks i (regular c n contents) there.formed;
    inode_there = there.inode_there;
    block_there = there.block_there;
  }

  pub Sizes-masks : Sizes s → Sizes masked
  unfolding sizeof_inode
  Sizes-masks z = record {
    fits = record { table = z.fits.table; inodes = z.fits.inodes };
    slots = z.slots;
    names = z.names;
    enough = z.enough;
  }

module _ (s : Superblock) (id b : ℕ) where
  pub Sizes-taken : Sizes s → Sizes (taken s id b)
  Sizes-taken =
      Sizes-masks s (set s.reserved_inodes_mask id true) (set s.reserved_blocks_mask b true)

  -- A node is there in the new superblock, too.
  pub IsNode-taken :
      (bytes : Bytes) (i : ℕ) (nd : Node)
      → i ≢ id
      → block_of nd ≢ b
      → IsNode s bytes i nd
      → IsNode (taken s id b) bytes i nd
  IsNode-taken bytes i nd ni nb there =
      IsNode-masks s (set s.reserved_inodes_mask id true) (set s.reserved_blocks_mask b true) bytes
        i nd
        (get_elem?-set_ne s.reserved_inodes_mask id i true (λ e. ni (sym e)) ∙ there.inode_used)
        (get_elem?-set_ne s.reserved_blocks_mask b (block_of nd) true (λ e. nb (sym e))
          ∙ there.block_used)
        there

  module _ (parent : ℕ) (room : HasRoom s id b parent) (sizes : Sizes s) where
    new_ranges : (id < 2 ^ 16) × (b < 2 ^ 16)
    new_ranges =
        let l = id_bound s id b parent room in
        let m = b_bound s id b parent room in
        let r1 = room.valid.info.inodes_count in
        let r2 = room.valid.info.blocks_count in (omega arith, omega arith)

    pub new_node-Formed :
        (is_file : Bool) → Formed (taken s id b) id (new_node (taken s id b) is_file id b parent)
    unfolding sizeof_block_record
    new_node-Formed false =
        let (l, m) = new_ranges in
        let n = sizes.names in
        folder_formed
          (record {
            block_id = m;
            inode_id = l;
            records_count = omega arith;
            data_size = omega arith;
          })
          (entries-All s id b parent room)
          (((dot_is_byte, tt), omega arith), (((dot_is_byte, (dot_is_byte, tt)), n), tt))
          sizes.enough
    new_node-Formed true =
        let (l, m) = new_ranges in
        let n = length-replicate {A = ℕ} (max_size_of_data (taken s id b)) 0 in
        regular_formed
          (record {
            block_id = m;
            inode_id = l;
            records_count = omega arith;
            data_size = omega arith;
          })
          (omega arith) (omega arith)

    pub block_of-new_node :
        (is_file : Bool) → block_of (new_node (taken s id b) is_file id b parent) ≡ b
    block_of-new_node false = refl
    block_of-new_node true = refl

    reserved :
        (get_elem? (set s.reserved_inodes_mask id true) id ≡ some true)
        × (get_elem? (set s.reserved_blocks_mask b true) b ≡ some true)
    reserved =
        let i0 = first_free-IsFirstFree s.reserved_inodes_mask id room.inode in
        let b0 = first_free-IsFirstFree s.reserved_blocks_mask b room.block in
        (
          get_elem?-set_self s.reserved_inodes_mask id true
              (get_elem?-lt s.reserved_inodes_mask id false i0.free),
          get_elem?-set_self s.reserved_blocks_mask b true
              (get_elem?-lt s.reserved_blocks_mask b false b0.free),
        )

    -- The new node, where its inode and its block have been written.
    pub new_node-IsNode :
        (is_file : Bool) (bytes : Bytes)
        → let nd = new_node (taken s id b) is_file id b parent in
          Holds bytes
            (calculate_offset (taken s id b) id)
            (bytes_of_inode (inode_of (taken s id b) id nd))
          → Holds bytes (block_offset (taken s id b) b) (bytes_of_node (taken s id b) id nd)
          → IsNode (taken s id b) bytes id nd
    new_node-IsNode false bytes d e = record {
      inode_used = reserved.0;
      block_used = reserved.1;
      formed = new_node-Formed false;
      inode_there = d;
      block_there = e;
    }
    new_node-IsNode true bytes d e = record {
      inode_used = reserved.0;
      block_used = reserved.1;
      formed = new_node-Formed true;
      inode_there = d;
      block_there = e;
    }
