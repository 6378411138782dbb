-- ===== src/Fs/Nodes.antt =====
-- The nodes with one of them put in: every node has a block of its own, and an entry is a node.
use ext.Base.{
  ℕ, ◌≡◌, ◌≢◌, refl, sym, ◌∙◌, ap, ◌==◌, ◌⊎◌, List, [], ◌∷◌, All, subst, some, inl, inr, Bool-cases,
  arith, eq→==, ne→==,
}
use ext.Superblock.{root_inode_id}
use ext.Fs.{Node, block_of, Nodes, entries_of, IsThere, Closed, arrived}
use ext.Methods.Names.{Entries}
use ext.Fs.Step.{with_node}

-- Two nodes have two blocks.
abbrev pub Alone : Nodes → Type 0
Alone nodes =
    (i j : ℕ) (nd md : Node)
    → nodes i ≡ some nd
    → nodes j ≡ some md
    → block_of nd ≡ block_of md
    → i ≡ j

All-imply :
    {A : Type 0} (P Q : A → Type 0) (xs : List A) → ((x : A) → P x → Q x) → All P xs → All Q xs
All-imply P Q [] f a = tt
All-imply P Q (x ∷ xs) f a = (f x a.0, All-imply P Q xs f a.1)

module _ (nodes : Nodes) (i : ℕ) (new : Node) where
  pub with_node_self : (j : ℕ) → i ≡ j → with_node nodes i new j ≡ some new
  with_node_self j e = rw (eq→== i j e) refl

  pub with_node_ne : (j : ℕ) → i ≢ j → with_node nodes i new j ≡ nodes j
  with_node_ne j e = rw (ne→== i j e) refl

  -- A node there is the new one or an old one.
  pub with_node-cases :
      (j : ℕ)
      → (i ≡ j) × (with_node nodes i new j ≡ some new)
        ⊎ (i ≢ j) × (with_node nodes i new j ≡ nodes j)
  with_node-cases j = elim (Bool-cases (i == j)) [
    | inl e ↦ let same : i ≡ j = ground arith in inl (same, with_node_self j same)
    | inr e ↦ let ne : i ≢ j = ground arith in inr (ne, with_node_ne j ne)
  ]

  pub with_node-IsThere : (j : ℕ) → IsThere nodes j → IsThere (with_node nodes i new) j
  with_node-IsThere j (nd, e) = elim (with_node-cases j) [
    | inl (same, d) ↦ (new, d)
    | inr (ne, d) ↦ (nd, d ∙ e)
  ]

  pub with_node-Alone :
      Alone nodes
      → ((j : ℕ) (md : Node) → nodes j ≡ some md → block_of new ≡ block_of md → i ≡ j)
      → Alone (with_node nodes i new)
  with_node-Alone alone only a b nd md e d same = elim (with_node-cases a) [
    | inl (ia, ea) ↦ elim (with_node-cases b) [
      | inl (ib, eb) ↦ sym ia ∙ ib
      | inr (ib, eb) ↦
          let n : new ≡ nd = cc in sym ia ∙ only b md (sym eb ∙ d) (ap block_of n ∙ same)
    ]
    | inr (ia, ea) ↦ elim (with_node-cases b) [
      | inl (ib, eb) ↦
          let n : new ≡ md = cc in sym (only a nd (sym ea ∙ e) (ap block_of n ∙ sym same)) ∙ ib
      | inr (ib, eb) ↦ alone a b nd md (sym ea ∙ e) (sym eb ∙ d) same
    ]
  ]

  pub with_node-All :
      (entries : Entries)
      → All (λ e. IsThere nodes e.0) entries
      → All (λ e. IsThere (with_node nodes i new) e.0) entries
  with_node-All entries a =
      All-imply (λ e. IsThere nodes e.0) (λ e. IsThere (with_node nodes i new) e.0) entries
        (λ e there. with_node-IsThere e.0 there) a

  pub with_node-Closed :
      Closed nodes
      → All (λ e. IsThere (with_node nodes i new) e.0) (entries_of (some new))
      → Closed (with_node nodes i new)
  with_node-Closed closed new_closed a = elim (with_node-cases a) [
    | inl (ia, ea) ↦
        subst (λ o. All (λ e. IsThere (with_node nodes i new) e.0) (entries_of o)) (sym ea)
          new_closed
    | inr (ia, ea) ↦
        subst (λ o. All (λ e. IsThere (with_node nodes i new) e.0) (entries_of o)) (sym ea)
          (with_node-All (entries_of (nodes a)) (closed a))
  ]

  pub with_node-root :
      arrived (nodes root_inode_id) root_inode_id ≡ some root_inode_id
      → (i ≡ root_inode_id → arrived (some new) root_inode_id ≡ some root_inode_id)
      → arrived (with_node nodes i new root_inode_id) root_inode_id ≡ some root_inode_id
  with_node-root root new_root = elim (with_node-cases root_inode_id) [
    | inl (e, d) ↦ ap (λ o. arrived o root_inode_id) d ∙ new_root e
    | inr (e, d) ↦ ap (λ o. arrived o root_inode_id) d ∙ root
  ]
