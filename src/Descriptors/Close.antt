-- ===== src/Descriptors/Close.antt =====
-- What free_descriptor does to the table: a consistent table stays consistent.
use ext.Base.{
  ℕ, zero, suc, ◌<◌, ◌≤◌, ◌≡◌, ◌≢◌, refl, sym, ◌∙◌, ap, List, [], ◌∷◌, length, set, arith, subst,
  Option, Bool, none, some, inl, inr, true, false, get_elem?, get_elem?-set_self, get_elem?-set_ne,
  get_elem?-lt, length-set,
}
use ext.Os.{Host, World, ok, failed, faulted, element, ◌>>=◌}
use ext.Superblock.{Superblock}
use ext.Descriptors.Bounds.{IsValid, release-IsValid}
use ext.Descriptors.{DescriptorsTable, occupy, release, reserve_descriptor, free_descriptor}
use ext.Descriptors.Open.{
  Opens, IsConsistent, set_cases, reserve_descriptor-Reserved, release-occupy,
}

get_elem?_past {ℓ} : {A : Type ℓ} (xs : List A) (i : ℕ) → length xs ≤ i → get_elem? xs i ≡ none
get_elem?_past [] i h = refl
get_elem?_past (x ∷ xs) zero h = absurd (omega arith)
get_elem?_past (x ∷ xs) (suc i) h = get_elem?_past xs i (omega arith)

-- free_descriptor releases an open descriptor; it returns -1 on a closed one, and changes nothing;
-- a number beyond the table is an access outside an array.
pub free_descriptor_lem :
    (table : DescriptorsTable) (fd : ℕ) (h : Host) (w : World)
    → (length table.reserved_fd ≤ fd → free_descriptor table fd h w ≡ (faulted, w))
      × (get_elem? table.reserved_fd fd ≡ some false → free_descriptor table fd h w ≡ (failed, w))
      × (get_elem? table.reserved_fd fd ≡ some true
          → free_descriptor table fd h w ≡ (ok (fd, release table fd), w))
unfolding free_descriptor ◌>>=◌ element
free_descriptor_lem table fd h w =
    (λ l. rw (get_elem?_past table.reserved_fd fd l), λ e. rw e, λ e. rw e)

release-once :
    (table : DescriptorsTable) (fd : ℕ)
    → IsConsistent table
    → (i j n : ℕ) → Opens (release table fd) i n
    → Opens (release table fd) j n
    → i ≡ j
release-once table fd c i j n (a, b) (a', b') =
    elim (set_cases table.reserved_fd fd i false true a) [
      | inl (p, q) ↦ cc
      | inr (p, q) ↦ elim (set_cases table.reserved_fd fd j false true a') [
        | inl (p', q') ↦ cc
        | inr (p', q') ↦
            c.once i j n (q, sym (get_elem?-set_ne table.fd_to_inode fd i 0 p) ∙ b)
              (q', sym (get_elem?-set_ne table.fd_to_inode fd j 0 p') ∙ b')
      ]
    ]

release-clean :
    (s : Superblock) (table : DescriptorsTable) (fd : ℕ)
    → IsValid s table
    → IsConsistent table
    → (i : ℕ) → get_elem? (set table.reserved_fd fd false) i ≡ some false
    → (get_elem? (set table.fd_to_inode fd 0) i ≡ some 0)
      × (get_elem? (set table.fd_to_position fd 0) i ≡ some 0)
release-clean s table fd v c i e =
    let l = get_elem?-lt (set table.reserved_fd fd false) i false e in
    let size = length-set table.reserved_fd fd false in
    let lr = v.reserved in
    let li = v.inodes in
    let lp = v.positions in
    elim (set_cases table.reserved_fd fd i false false e) [
      | inl (p, q) ↦
          let t : fd < length table.fd_to_inode = omega arith in
          let u : fd < length table.fd_to_position = omega arith in
          (
            subst (λ k. get_elem? (set table.fd_to_inode fd 0) k ≡ some 0) p
                (get_elem?-set_self table.fd_to_inode fd 0 t),
            subst (λ k. get_elem? (set table.fd_to_position fd 0) k ≡ some 0) p
                (get_elem?-set_self table.fd_to_position fd 0 u),
          )
      | inr (p, q) ↦
          let (a, b) = c.clean i q in
          (
            get_elem?-set_ne table.fd_to_inode fd i 0 p ∙ a,
            get_elem?-set_ne table.fd_to_position fd i 0 p ∙ b,
          )
    ]

-- What a table is after a descriptor of another was closed: the descriptor is free, no other entry
-- has changed, and the inode it was open on is open no more.
pub record Closed (s : Superblock) (table : DescriptorsTable) (fd : ℕ) (table' : DescriptorsTable)
    : Type 0 where
  pub valid : IsValid s table'
  pub consistent : IsConsistent table'
  pub free : get_elem? table'.reserved_fd fd ≡ some false
  pub others :
      (i : ℕ)
      → fd ≢ i
      → (get_elem? table'.reserved_fd i ≡ get_elem? table.reserved_fd i)
        × (get_elem? table'.fd_to_inode i ≡ get_elem? table.fd_to_inode i)
        × (get_elem? table'.fd_to_position i ≡ get_elem? table.fd_to_position i)
  pub shut : (i inode : ℕ) → Opens table fd inode → ¬ Opens table' i inode

release-shut :
    (table : DescriptorsTable) (fd : ℕ)
    → IsConsistent table
    → (i inode : ℕ) → Opens table fd inode
    → ¬ Opens (release table fd) i inode
release-shut table fd c i inode a (b, d) = elim (set_cases table.reserved_fd fd i false true b) [
  | inl (p, q) ↦ cc
  | inr (p, q) ↦ p (c.once fd i inode a (q, sym (get_elem?-set_ne table.fd_to_inode fd i 0 p) ∙ d))
]

pub release-IsConsistent :
    (s : Superblock) (table : DescriptorsTable) (fd : ℕ)
    → IsValid s table
    → IsConsistent table
    → IsValid s (release table fd) × IsConsistent (release table fd)
release-IsConsistent s table fd v c = (
  release-IsValid s table fd v,
  record { once = release-once table fd c; clean = release-clean s table fd v c },
)

release-Closed :
    (s : Superblock) (table : DescriptorsTable) (fd : ℕ)
    → IsValid s table
    → IsConsistent table
    → get_elem? table.reserved_fd fd ≡ some true
    → Closed s table fd (release table fd)
release-Closed s table fd v c e = record {
  valid = (release-IsConsistent s table fd v c).0;
  consistent = (release-IsConsistent s table fd v c).1;
  free = get_elem?-set_self table.reserved_fd fd false (get_elem?-lt table.reserved_fd fd true e);
  others = λ i n. (
    get_elem?-set_ne table.reserved_fd fd i false n,
    get_elem?-set_ne table.fd_to_inode fd i 0 n,
    get_elem?-set_ne table.fd_to_position fd i 0 n,
  );
  shut = release-shut table fd c;
}

-- What free_descriptor does, by the entry of the descriptor in reserved_fd.
abbrev pub Frees : Superblock → DescriptorsTable → ℕ → Host → World → Option Bool → Type 0
Frees s table fd h w none = free_descriptor table fd h w ≡ (faulted, w)
Frees s table fd h w (some false) = free_descriptor table fd h w ≡ (failed, w)
Frees s table fd h w (some true) =
    (table' : DescriptorsTable) × (free_descriptor table fd h w ≡ (ok (fd, table'), w))
    × Closed s table fd table'

free_descriptor_entry :
    (s : Superblock) (table : DescriptorsTable) (fd : ℕ) (h : Host) (w : World)
    (entry : Option Bool)
    → IsValid s table
    → IsConsistent table
    → get_elem? table.reserved_fd fd ≡ entry
    → Frees s table fd h w entry
unfolding free_descriptor ◌>>=◌ element
free_descriptor_entry s table fd h w none v c e = rw (e, free_descriptor)
free_descriptor_entry s table fd h w (some false) v c e = (free_descriptor_lem table fd h w).1 e
free_descriptor_entry s table fd h w (some true) v c e =
    (release table fd, (free_descriptor_lem table fd h w).2 e, release-Closed s table fd v c e)

-- From a valid and consistent table and whatever the host does, free_descriptor of a number beyond
-- the table is an access outside an array, that of a closed descriptor returns -1, and that of an
-- open one returns the descriptor with a table that is valid and consistent again, in which the
-- descriptor is free, the other entries are as they were, and no descriptor is open on the inode
-- that it was open on; the file is not touched.
pub free_descriptor-Closed :
    (s : Superblock) (table : DescriptorsTable) (fd : ℕ) (h : Host) (w : World)
    → IsValid s table
    → IsConsistent table
    → Frees s table fd h w (get_elem? table.reserved_fd fd)
free_descriptor-Closed s table fd h w v c =
    free_descriptor_entry s table fd h w (get_elem? table.reserved_fd fd) v c refl

-- Closing the descriptor that was just opened in a consistent table gives the table back.
pub free_descriptor-reserve_descriptor :
    (table : DescriptorsTable) (inode fd : ℕ) (table' : DescriptorsTable) (h : Host) (w : World)
    → IsConsistent table
    → reserve_descriptor table inode ≡ some (fd, table')
    → free_descriptor table' fd h w ≡ (ok (fd, table), w)
free_descriptor-reserve_descriptor table inode fd table' h w c e =
    let r = reserve_descriptor-Reserved table inode fd table' e in
    let free = r.first.free in
    let (a, b) = c.clean fd free in
    let on =
      get_elem?-set_self table.reserved_fd fd true (get_elem?-lt table.reserved_fd fd false free) in
    subst (λ t. free_descriptor t fd h w ≡ (ok (fd, table), w)) (sym r.result)
      ((free_descriptor_lem (occupy table fd inode) fd h w).2 on
        ∙ ap (λ t. (ok (fd, t), w)) (release-occupy table fd inode free a b))
