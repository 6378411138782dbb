-- ===== src/Fs/Grown.antt =====
-- The nodes with a new directory or file, and its entry in the parent.
use ext.Base.{
  ℕ, ◌≡◌, ◌≢◌, refl, sym, ◌∙◌, ap, subst, Bool, true, false, [], ◌∷◌, some, inl, inr, All,
}
use ext.Base.Image.{Bytes}
use ext.Superblock.{root_inode_id, first_free}
use ext.Methods.Create.{taken}
use ext.Methods.Names.{Entries}
use ext.Commands.Entry.{extended}
use ext.Commands.Makes.{used_is_not_free, All-append}
use ext.Fs.{Node, folder, block_of, Nodes, Fs, entries_of, IsThere, Closed, arrived, some_inj}
use ext.Fs.Nodes.{
  Alone, with_node-All, with_node_self, with_node-cases, with_node-IsThere, with_node-Alone,
  with_node-Closed, with_node-root,
}
use ext.Fs.Represents.{Represents}
use ext.Fs.Step.{with_node, new_node, made}

module _ (fs : Fs) (bytes : Bytes) (r : Represents fs bytes) (is_file : Bool) (id b parent pb : ℕ)
    (first : ℕ × Bytes) (others : Entries) (name : Bytes)
    (e : fs.nodes parent ≡ some (folder pb first others))
    (fi : first_free fs.super.reserved_inodes_mask ≡ some id)
    (fb : first_free fs.super.reserved_blocks_mask ≡ some b) where
  abbrev node : Node
  node = new_node (taken fs.super id b) is_file id b parent

  abbrev longer : Node
  longer = folder pb first (extended others id name)

  abbrev with_new : Nodes
  with_new = with_node fs.nodes id node

  pub old_inode : (j : ℕ) (md : Node) → fs.nodes j ≡ some md → j ≢ id
  old_inode j md d =
      used_is_not_free fs.super.reserved_inodes_mask j id (r.sound j md d).inode_used fi

  pub old_block : (j : ℕ) (md : Node) → fs.nodes j ≡ some md → block_of md ≢ b
  old_block j md d =
      used_is_not_free fs.super.reserved_blocks_mask (block_of md) b (r.sound j md d).block_used fb

  node_block : (kind : Bool) → block_of (new_node (taken fs.super id b) kind id b parent) ≡ b
  node_block false = refl
  node_block true = refl

  with_new-Alone : Alone with_new
  with_new-Alone =
      with_node-Alone fs.nodes id node r.alone
        (λ j md d same. absurd (old_block j md d (sym same ∙ node_block is_file)))

  pub made-Alone : Alone (made is_file fs id b parent pb first others name).nodes
  made-Alone = with_node-Alone with_new parent longer with_new-Alone (λ j md d same.
      elim (with_node-cases fs.nodes id node j) [
        | inl (i, f) ↦
            let is_new : node ≡ md = some_inj node md (sym f ∙ d) in
            absurd (
              old_block parent (folder pb first others) e
                (same ∙ ap block_of (sym is_new) ∙ node_block is_file))
        | inr (ne, f) ↦ r.alone parent j (folder pb first others) md e (sym f ∙ d) same
      ])

  parent-IsThere : IsThere with_new parent
  parent-IsThere = with_node-IsThere fs.nodes id node parent (folder pb first others, e)

  id-IsThere : IsThere with_new id
  id-IsThere = (node, with_node_self fs.nodes id node id refl)

  node-Closed :
      (kind : Bool)
      → All
          (λ x. IsThere with_new x.0)
          (entries_of (some (new_node (taken fs.super id b) kind id b parent)))
  node-Closed true = tt
  node-Closed false = (id-IsThere, (parent-IsThere, tt))

  with_new-Closed : Closed with_new
  with_new-Closed = with_node-Closed fs.nodes id node r.closed (node-Closed is_file)

  pub made-Closed : Closed (made is_file fs id b parent pb first others name).nodes
  made-Closed =
      let old : All (λ x. IsThere fs.nodes x.0) (first ∷ others) =
        subst (λ o. All (λ x. IsThere fs.nodes x.0) (entries_of o)) e (r.closed parent) in
      with_node-Closed with_new parent longer with_new-Closed (
        with_node-All with_new parent longer (first ∷ extended others id name) (
          All-append (λ (x : ℕ × Bytes). IsThere with_new x.0) (first ∷ others) ((id, name) ∷ [])
            (with_node-All fs.nodes id node (first ∷ others) old) (id-IsThere, tt)))

  pub made-root :
      arrived ((made is_file fs id b parent pb first others name).nodes root_inode_id) root_inode_id
      ≡ some root_inode_id
  made-root =
      with_node-root with_new parent longer
        (with_node-root fs.nodes id node r.root (λ p.
          absurd (
            used_is_not_free fs.super.reserved_inodes_mask root_inode_id id r.has.root fi (sym p))))
        (λ p. refl)
