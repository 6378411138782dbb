-- ===== src/Fs/Linked.antt =====
-- The file after create_dir or create_file represents the nodes with the new one.
use ext.Base.{
  ℕ, ◌<◌, ◌≡◌, ◌≢◌, sym, ◌∙◌, subst, Bool, [], ◌∷◌, some, length, arith, get_elem?-set_ne, inl, inr,
  true,
}
use ext.Base.Holds.{write_at-Holds}
use ext.Base.Image.{Bytes}
use ext.Os.{File}
use ext.Superblock.{Superblock, first_free, sizeof_superblock}
use ext.Superblock.Bounds as Blocks
use ext.Superblock.Store.{length-bytes_of_superblock}
use ext.Descriptors.Bounds as Tables
use ext.Descriptors.Store.{length-bytes_of_table}
use ext.Inode.Store.{length-bytes_of_inode}
use ext.Block.{get_max_records_count}
use ext.Layout.{superblock, table, inode, block}
use ext.Methods.Create.{taken, HasRoom}
use ext.Methods.Names.{Entries, IsText}
use ext.Commands.Entry.{extended}
use ext.Commands.Keep.{HasTable}
use ext.Commands.Makes.{used_is_not_free}
use ext.Fs.{Node, folder, block_of, Fs, some_inj}
use ext.Fs.Made as Made
use ext.Fs.Grown.{old_inode, old_block, made-Alone, made-Closed, made-root}
use ext.Fs.Kept.{Kept, IsNode-Kept}
use ext.Fs.Nodes.{with_node-cases}
use ext.Fs.Represents.{IsNode, Represents, known, inode_of-IsValid}
use ext.Fs.Step.{with_node, new_node, made}
use ext.Fs.Taken.{Sizes-taken, block_of-new_node}
use ext.Fs.Writes.{three-IsNode, superblock_there, some_node}

module _ (fs : Fs) (f : File) (r : Represents fs f.bytes) (is_file : Bool) (id b parent pb : ℕ)
    (first : ℕ × Bytes) (others : Entries) (name : Bytes)
    (e : fs.nodes parent ≡ some (folder pb first others))
    (fi : first_free fs.super.reserved_inodes_mask ≡ some id)
    (fb : first_free fs.super.reserved_blocks_mask ≡ some b)
    (not_full : length (first ∷ others) < get_max_records_count fs.super)
    (short : length name < fs.super.fs_info.max_path_len) (text : IsText name) where
  abbrev after : Superblock
  after = taken fs.super id b

  abbrev longer : Node
  longer = folder pb first (extended others id name)

  abbrev room : HasRoom fs.super id b parent
  room = Made.room fs f r is_file id b parent pb first others name e fi fb not_full short text

  abbrev before_link : File
  before_link =
      Made.before_link fs f r is_file id b parent pb first others name e fi fb not_full short text

  abbrev four : File
  four = Made.four fs f r is_file id b parent pb first others name e fi fb not_full short text

  valid : Blocks.IsValid after
  valid = Made.valid fs f r is_file id b parent pb first others name e fi fb not_full short text

  last_write : Kept after (block pb ∷ []) before_link.bytes four.bytes
  last_write =
      Made.last_write fs f r is_file id b parent pb first others name e fi fb not_full short text

  all_writes : Kept after (block b ∷ inode id ∷ superblock ∷ block pb ∷ []) f.bytes four.bytes
  all_writes =
      Made.all_writes fs f r is_file id b parent pb first others name e fi fb not_full short text

  old-IsNode : (j : ℕ) (md : Node) → fs.nodes j ≡ some md → IsNode after f.bytes j md
  old-IsNode j md d =
      Made.old-IsNode fs f r is_file id b parent pb first others name e fi fb not_full short text j
        md d

  -- The other nodes.
  other-IsNode :
      (j : ℕ) (md : Node) → parent ≢ j → fs.nodes j ≡ some md → IsNode after four.bytes j md
  other-IsNode j md ne d =
      let no_inode =
        old_inode fs f.bytes r is_file id b parent pb first others name e fi fb j md d in
      let no_block =
        old_block fs f.bytes r is_file id b parent pb first others name e fi fb j md d in
      IsNode-Kept after (Sizes-taken fs.super id b r.sizes) valid
        (block b ∷ inode id ∷ superblock ∷ block pb ∷ []) f.bytes four.bytes j md all_writes
        (
          (λ q. ground arith),
          ((λ q. no_inode (ground arith)), ((λ q. ground arith), ((λ q. ground arith), tt))),
        )
        (
          (λ q. no_block (ground arith)),
          (
            (λ q. ground arith),
            ((λ q. ground arith), ((λ q. ne (r.alone parent j _ md e d (ground arith))), tt)),
          ),
        )
        (old-IsNode j md d)

  parent-IsNode : IsNode after four.bytes parent longer
  parent-IsNode =
      let old = old-IsNode parent _ e in
      let no_inode =
        old_inode fs f.bytes r is_file id b parent pb first others name e fi fb parent _ e in
      let z = Sizes-taken fs.super id b r.sizes in
      let l = length-bytes_of_inode after _ (inode_of-IsValid after f.bytes parent _ z valid old) in
      record {
        inode_used = old.inode_used;
        block_used = old.block_used;
        formed =
            Made.longer-Formed fs f r is_file id b parent pb first others name e fi fb not_full
              short text;
        inode_there =
            all_writes.keep (inode parent) _ (known after f.bytes parent _ z valid old)
              (
                (λ q. ground arith),
                ((λ q. no_inode (ground arith)), ((λ q. ground arith), ((λ q. ground arith), tt))),
              )
              (omega arith) old.inode_there;
        block_there = write_at-Holds _ _ _ (some_node after parent longer);
      }

  new_node-IsNode : IsNode after four.bytes id (new_node after is_file id b parent)
  new_node-IsNode =
      let z = Sizes-taken fs.super id b r.sizes in
      let no_block =
        old_block fs f.bytes r is_file id b parent pb first others name e fi fb parent _ e in
      let is_b = block_of-new_node fs.super id b parent room r.sizes is_file in
      IsNode-Kept after z valid (block pb ∷ []) before_link.bytes four.bytes id
        (new_node after is_file id b parent) last_write ((λ q. ground arith), tt)
        (
          (λ q.
              let p : block_of (new_node after is_file id b parent) ≡ pb = ground arith in
              no_block (sym p ∙ is_b)),
          tt,
        )
        (three-IsNode fs.super id b parent room r.sizes is_file f)

  made-IsNode :
      (j : ℕ) (nd : Node)
      → (made is_file fs id b parent pb first others name).nodes j ≡ some nd
      → IsNode after four.bytes j nd
  made-IsNode j nd d =
      let new = new_node after is_file id b parent in
      let with_new = with_node fs.nodes id new in
      elim (with_node-cases with_new parent longer j) [
        | inl (same, p) ↦
            subst (λ x. IsNode after four.bytes x nd) same
              (subst (IsNode after four.bytes parent) (some_inj longer nd (sym p ∙ d))
                parent-IsNode)
        | inr (ne, p) ↦ elim (with_node-cases fs.nodes id new j) [
          | inl (same, q) ↦
              subst (λ x. IsNode after four.bytes x nd) same
                (subst (IsNode after four.bytes id) (some_inj new nd (sym q ∙ sym p ∙ d))
                  new_node-IsNode)
          | inr (other, q) ↦ other-IsNode j nd ne (sym q ∙ sym p ∙ d)
        ]
      ]

  four-HasTable : HasTable after fs.table four.bytes
  unfolding sizeof_superblock
  four-HasTable =
      let has = r.has in
      let w : Tables.IsValid after fs.table = record {
        reserved = has.table_valid.reserved;
        inodes = has.table_valid.inodes;
        positions = has.table_valid.positions;
        inode_range = has.table_valid.inode_range;
        position_range = has.table_valid.position_range;
      } in
      let n = length-bytes_of_superblock after valid in
      let m = length-bytes_of_table after fs.table w in
      record {
        valid = valid;
        magic = has.magic;
        root =
            get_elem?-set_ne fs.super.reserved_inodes_mask id 0 true
              (λ q. used_is_not_free fs.super.reserved_inodes_mask 0 id has.root fi (sym q))
            ∙ has.root;
        superblock_there =
            last_write.keep superblock _ tt ((λ q. ground arith), tt) (omega arith)
              (superblock_there fs.super id b parent room r.sizes is_file f);
        table_valid = w;
        some_descriptor = has.some_descriptor;
        table_there =
            all_writes.keep table _ tt
              (
                (λ q. ground arith),
                ((λ q. ground arith), ((λ q. ground arith), ((λ q. ground arith), tt))),
              )
              (omega arith) has.table_there;
      }

  pub made-Represents : Represents (made is_file fs id b parent pb first others name) four.bytes
  made-Represents = record {
    sizes = Sizes-taken fs.super id b r.sizes;
    has = four-HasTable;
    consistent = r.consistent;
    sound = made-IsNode;
    alone = made-Alone fs f.bytes r is_file id b parent pb first others name e fi fb;
    closed = made-Closed fs f.bytes r is_file id b parent pb first others name e fi fb;
    root = made-root fs f.bytes r is_file id b parent pb first others name e fi fb;
  }
