-- ===== src/Descriptors/Open.antt =====
-- What reserve_descriptor does to the table: no inode is open twice, and a
-- closed entry is zero.
use ext.Base.{
  ℕ, zero, suc, ◌<◌, ◌≡◌, ◌≢◌, refl, sym, ◌∙◌, ap, List, [], ◌∷◌, set, arith, ◌⊎◌, subst, none,
  some, Option-cases, Bool-cases, inl, inr, true, false, get_elem?, get_elem?-set_self,
  get_elem?-set_ne, get_elem?-lt, set-set, set-get_elem?, replicate,
}
use ext.Base.Words.{IsU16}
use ext.Superblock.{Superblock, first_free}
use ext.Descriptors.Bounds.{IsValid, occupy-IsValid}
use ext.Superblock.Masks.{IsFirstFree, first_free-IsFirstFree}
use ext.Descriptors.{
  DescriptorsTable, init_descriptors_table, has_inode, occupy, release, reserve_descriptor,
}

-- Descriptor `fd` is open on inode `inode`.
abbrev pub Opens : DescriptorsTable → ℕ → ℕ → Type 0
Opens table fd inode =
    (get_elem? table.reserved_fd fd ≡ some true) × (get_elem? table.fd_to_inode fd ≡ some inode)

-- No inode is open twice, and an entry that is not reserved has inode 0 and position 0.
pub record IsConsistent (table : DescriptorsTable) : Type 0 where
  pub once : (i j inode : ℕ) → Opens table i inode → Opens table j inode → i ≡ j
  pub clean :
      (i : ℕ)
      → get_elem? table.reserved_fd i ≡ some false
      → (get_elem? table.fd_to_inode i ≡ some 0) × (get_elem? table.fd_to_position i ≡ some 0)

true_is_not_false : true ≢ false
true_is_not_false e = cc

replicate_value {ℓ} :
    {A : Type ℓ} (n i : ℕ) (v x : A) → get_elem? (replicate n v) i ≡ some x → (i < n) × (x ≡ v)
replicate_value zero i v x e = ground arith
replicate_value (suc n) zero v x e = (omega arith, ground arith)
replicate_value (suc n) (suc i) v x e = let (l, d) = replicate_value n i v x e in (omega arith, d)

pub get_elem?-replicate {ℓ} :
    {A : Type ℓ} (n i : ℕ) (v : A) → i < n → get_elem? (replicate n v) i ≡ some v
get_elem?-replicate zero i v l = absurd (omega arith)
get_elem?-replicate (suc n) zero v l = refl
get_elem?-replicate (suc n) (suc i) v l = get_elem?-replicate n i v (omega arith)

-- The table of init_descriptors_table is consistent.
pub init_descriptors_table-IsConsistent : (s : Superblock) → IsConsistent (init_descriptors_table s)
unfolding init_descriptors_table
init_descriptors_table-IsConsistent s =
    let n = s.fs_info.descriptors_count in
    record {
      once = λ i j inode a b. absurd (true_is_not_false (replicate_value n i false true a.0).1);
      clean = λ i e.
          let l = (replicate_value n i false false e).0 in
          (get_elem?-replicate n i 0 l, get_elem?-replicate n i 0 l);
    }

pub set_cases {ℓ} :
    {A : Type ℓ} (xs : List A) (i j : ℕ) (v x : A)
    → get_elem? (set xs i v) j ≡ some x
    → (i ≡ j) × (x ≡ v) ⊎ (i ≢ j) × (get_elem? xs j ≡ some x)
set_cases [] i j v x e = ground arith
set_cases (y ∷ xs) zero zero v x e = inl (refl, ground arith)
set_cases (y ∷ xs) zero (suc j) v x e = inr (ground arith, e)
set_cases (y ∷ xs) (suc i) zero v x e = inr (ground arith, e)
set_cases (y ∷ xs) (suc i) (suc j) v x e = elim (set_cases xs i j v x e) [
  | inl (p, q) ↦ inl (ap suc p, q)
  | inr (p, q) ↦ inr (ground arith, q)
]

pub has_inode-false :
    (inodes : List ℕ) (inode i : ℕ)
    → has_inode inodes inode ≡ false
    → get_elem? inodes i ≢ some inode
unfolding has_inode
has_inode-false [] inode i h e = cc
has_inode-false (x ∷ inodes) inode zero h e = ground arith
has_inode-false (x ∷ inodes) inode (suc i) h e = has_inode-false inodes inode i (ground arith) e

pub has_inode-true :
    (inodes : List ℕ) (inode i : ℕ)
    → get_elem? inodes i ≡ some inode
    → has_inode inodes inode ≡ true
unfolding has_inode
has_inode-true [] inode i e = cc
has_inode-true (x ∷ inodes) inode zero e = ground arith
has_inode-true (x ∷ inodes) inode (suc i) e = ground (arith, has_inode-true inodes inode i e)

-- When reserve_descriptor returns a descriptor.
pub record Reserved (table : DescriptorsTable) (inode fd : ℕ) (table' : DescriptorsTable)
    : Type 0 where
  pub fresh : has_inode table.fd_to_inode inode ≡ false
  pub first : IsFirstFree table.reserved_fd fd
  pub result : table' ≡ occupy table fd inode

pub reserve_descriptor-Reserved :
    (table : DescriptorsTable) (inode fd : ℕ) (table' : DescriptorsTable)
    → reserve_descriptor table inode ≡ some (fd, table')
    → Reserved table inode fd table'
unfolding reserve_descriptor
reserve_descriptor-Reserved table inode fd table' e =
    elim (Bool-cases (has_inode table.fd_to_inode inode)) [
      | inl b ↦ ground arith
      | inr b ↦ elim (Option-cases (first_free table.reserved_fd)) [
        | inl n ↦ ground arith
        | inr (i, n) ↦
            let p : i ≡ fd = ground arith in
            record {
              fresh = b;
              first =
                  subst (IsFirstFree table.reserved_fd) p
                    (first_free-IsFirstFree table.reserved_fd i n);
              result = ground arith;
            }
      ]
    ]

pub release-occupy :
    (table : DescriptorsTable) (fd inode : ℕ)
    → get_elem? table.reserved_fd fd ≡ some false
    → get_elem? table.fd_to_inode fd ≡ some 0
    → get_elem? table.fd_to_position fd ≡ some 0
    → release (occupy table fd inode) fd ≡ table
release-occupy table fd inode a b c = λ j. record {
  reserved_fd =
      (set-set table.reserved_fd fd true false ∙ set-get_elem? table.reserved_fd fd false a) j;
  fd_to_inode = (set-set table.fd_to_inode fd inode 0 ∙ set-get_elem? table.fd_to_inode fd 0 b) j;
  fd_to_position =
      (set-set table.fd_to_position fd 0 0 ∙ set-get_elem? table.fd_to_position fd 0 c) j;
}

occupy-once :
    (table : DescriptorsTable) (fd inode : ℕ)
    → IsConsistent table
    → has_inode table.fd_to_inode inode ≡ false
    → (i j n : ℕ) → Opens (occupy table fd inode) i n
    → Opens (occupy table fd inode) j n
    → i ≡ j
occupy-once table fd inode c fresh i j n (a, b) (a', b') =
    let never = has_inode-false table.fd_to_inode inode in
    elim (set_cases table.fd_to_inode fd i inode n b) [
      | inl (p, q) ↦ elim (set_cases table.fd_to_inode fd j inode n b') [
        | inl (p', q') ↦ sym p ∙ p'
        | inr (p', q') ↦ absurd (never j fresh (q' ∙ ap (λ x. some x) q))
      ]
      | inr (p, q) ↦ elim (set_cases table.fd_to_inode fd j inode n b') [
        | inl (p', q') ↦ absurd (never i fresh (q ∙ ap (λ x. some x) q'))
        | inr (p', q') ↦
            c.once i j n (sym (get_elem?-set_ne table.reserved_fd fd i true p) ∙ a, q)
              (sym (get_elem?-set_ne table.reserved_fd fd j true p') ∙ a', q')
      ]
    ]

occupy-clean :
    (table : DescriptorsTable) (fd inode : ℕ)
    → IsConsistent table
    → (i : ℕ) → get_elem? (set table.reserved_fd fd true) i ≡ some false
    → (get_elem? (set table.fd_to_inode fd inode) i ≡ some 0)
      × (get_elem? (set table.fd_to_position fd 0) i ≡ some 0)
occupy-clean table fd inode c i e = elim (set_cases table.reserved_fd fd i true false e) [
  | inl (p, q) ↦ cc
  | inr (p, q) ↦
      let (a, b) = c.clean i q in
      (
        get_elem?-set_ne table.fd_to_inode fd i inode p ∙ a,
        get_elem?-set_ne table.fd_to_position fd i 0 p ∙ b,
      )
]

-- For a valid and consistent table (no inode open twice, closed entries zero): a descriptor that
-- reserve_descriptor returns was free, is below descriptors_count, and is then open on the inode,
-- at position 0; the table stays valid and consistent.
pub reserve_descriptor-IsConsistent :
    (s : Superblock) (table : DescriptorsTable) (inode fd : ℕ) (table' : DescriptorsTable)
    → IsValid s table
    → IsU16 inode
    → IsConsistent table
    → reserve_descriptor table inode ≡ some (fd, table')
    → IsValid s table'
      × IsConsistent table'
      × (get_elem? table.reserved_fd fd ≡ some false)
      × (fd < s.fs_info.descriptors_count)
      × Opens table' fd inode
      × (get_elem? table'.fd_to_position fd ≡ some 0)
reserve_descriptor-IsConsistent s table inode fd table' v u c e =
    let r = reserve_descriptor-Reserved table inode fd table' e in
    let l = get_elem?-lt table.reserved_fd fd false r.first.free in
    let lr = v.reserved in
    let li = v.inodes in
    let lp = v.positions in
    subst
      (λ t.
        IsValid s t
        × IsConsistent t
        × (get_elem? table.reserved_fd fd ≡ some false)
        × (fd < s.fs_info.descriptors_count)
        × Opens t fd inode
        × (get_elem? t.fd_to_position fd ≡ some 0))
      (sym r.result)
      (
        occupy-IsValid s table fd inode v u,
        record {
          once = occupy-once table fd inode c r.fresh;
          clean = occupy-clean table fd inode c;
        },
        r.first.free,
        omega arith,
        (
          get_elem?-set_self table.reserved_fd fd true l,
          get_elem?-set_self table.fd_to_inode fd inode (omega arith),
        ),
        get_elem?-set_self table.fd_to_position fd 0 (omega arith),
      )

-- While some entry of a consistent table is free, inode 0 (the root directory) cannot be opened:
-- the entry holds inode 0, and reserve_descriptor looks at free entries too.
pub reserve_descriptor-root :
    (table : DescriptorsTable) (i : ℕ)
    → IsConsistent table
    → get_elem? table.reserved_fd i ≡ some false
    → reserve_descriptor table 0 ≡ none
unfolding reserve_descriptor
reserve_descriptor-root table i c e = rw (has_inode-true table.fd_to_inode 0 i (c.clean i e).0)
