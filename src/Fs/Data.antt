-- ===== src/Fs/Data.antt =====
-- A file of the file system as its node, and the node with other data.
use ext.Base.{ℕ, ◌≤◌, ◌≡◌, ◌≢◌, sym, ◌∙◌, ap, subst, [], ◌∷◌, Option, some, length, arith, inl, inr}
use ext.Base.Image.{Bytes}
use ext.Superblock.{root_inode_id}
use ext.Descriptors.{DescriptorsTable}
use ext.Descriptors.Open.{IsConsistent}
use ext.Block.{max_size_of_data}
use ext.Block.Store.{file_block, InRange}
use ext.Layout.{superblock, table, inode, block}
use ext.Commands.OneBlock.{HasFile}
use ext.Fs.{Node, regular, Fs, arrived, some_inj}
use ext.Fs.Kept.{Kept, IsNode-Kept}
use ext.Fs.Nodes.{with_node-cases, with_node-Alone, with_node-Closed, with_node-root}
use ext.Fs.Represents.{
  Formed, regular_formed, IsNode, Represents, inode_of, inode_of-IsValid, slot, known,
}
use ext.Fs.Step.{with_node}

module _ (fs : Fs) (bytes : Bytes) (r : Represents fs bytes) (i b n : ℕ) (contents : Bytes)
    (e : fs.nodes i ≡ some (regular b n contents)) where
  abbrev node : Node
  node = regular b n contents

  Formed-file_block :
      Formed fs.super i (regular b n contents)
      → InRange (file_block b i n contents).block_info
        × ((n ≤ length contents) × (n ≤ max_size_of_data fs.super))
  Formed-file_block (regular_formed ranges l m) = (ranges, (l, m))

  -- The file of a node.
  pub file_at : HasFile fs.super fs.table bytes (inode_of fs.super i node) b n contents
  file_at =
      let there = r.sound i node e in
      let (ranges, within) = Formed-file_block there.formed in
      let l = r.sizes.enough in
      record {
        has = r.has;
        valid = inode_of-IsValid fs.super bytes i node r.sizes r.has.valid there;
        known = known fs.super bytes i node r.sizes r.has.valid there;
        inode_there = there.inode_there;
        some_block = omega arith;
        slot = slot fs.super bytes i node r.sizes r.has.valid there;
        ranges = ranges;
        within = within;
        block_there = there.block_there;
        fits = r.sizes.fits;
        room = omega arith;
      }

  -- The node of a file with other data.
  file-IsNode :
      (t : DescriptorsTable) (g : Bytes) (m : ℕ) (new : Bytes)
      → HasFile fs.super t g (inode_of fs.super i node) b m new
      → IsNode fs.super g i (regular b m new)
  file-IsNode t g m new file =
      let there = r.sound i node e in
      record {
        inode_used = there.inode_used;
        block_used = there.block_used;
        formed = regular_formed file.ranges file.within.0 file.within.1;
        inode_there = file.inode_there;
        block_there = file.block_there;
      }

  root_is_other : (o : Option Node) → o ≡ some node → arrived o root_inode_id ≢ some root_inode_id
  root_is_other o d a =
      let f : arrived (some node) root_inode_id ≡ some root_inode_id =
        ap (λ x. arrived x root_inode_id) (sym d) ∙ a in
      cc

  -- Other data, and another table.
  pub Represents-data :
      (new : DescriptorsTable) (g : Bytes) (m : ℕ) (bs : Bytes)
      → HasFile fs.super new g (inode_of fs.super i node) b m bs
      → IsConsistent new
      → Kept fs.super (block b ∷ table ∷ inode i ∷ superblock ∷ []) bytes g
      → Represents
          (record { super = fs.super; table = new; nodes = with_node fs.nodes i (regular b m bs) })
          g
  Represents-data new g m bs file consistent kept = record {
    sizes = r.sizes;
    has = file.has;
    consistent = consistent;
    sound = λ j nd d. elim (with_node-cases fs.nodes i (regular b m bs) j) [
      | inl (same, f) ↦
          let is_new = some_inj (regular b m bs) nd (sym f ∙ d) in
          subst (λ x. IsNode fs.super g x nd) same
            (subst (IsNode fs.super g i) is_new (file-IsNode new g m bs file))
      | inr (ne, f) ↦
          let old = sym f ∙ d in
          IsNode-Kept fs.super r.sizes r.has.valid (block b ∷ table ∷ inode i ∷ superblock ∷ [])
            bytes g j nd kept
            (
              (λ q. ground arith),
              ((λ q. ground arith), ((λ q. ne (ground arith)), ((λ q. ground arith), tt))),
            )
            (
              (λ q. ne (r.alone i j node nd e old (ground arith))),
              ((λ q. ground arith), ((λ q. ground arith), ((λ q. ground arith), tt))),
            )
            (r.sound j nd old)
    ];
    alone =
        with_node-Alone fs.nodes i (regular b m bs) r.alone
          (λ j md d same. r.alone i j node md e d same);
    closed = with_node-Closed fs.nodes i (regular b m bs) r.closed tt;
    root =
        with_node-root fs.nodes i (regular b m bs) r.root
          (λ z. absurd (root_is_other (fs.nodes root_inode_id) (ap fs.nodes (sym z) ∙ e) r.root));
  }
