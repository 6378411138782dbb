-- ===== src/Superblock/Masks.antt =====
-- What the reservation functions do to the masks.
use ext.Base.{
  ℕ, zero, suc, ◌<◌, ◌≡◌, refl, ap, ◌≢◌, Bool, true, false, List, [], ◌∷◌, none, some, get_elem?,
  set, arith, subst, ◌⊎◌, sym, ◌∙◌, Option-cases, set-set, set-get_elem?, get_elem?-set_self,
  get_elem?-lt, inl, inr,
}
use ext.Os.{Host, File, pure, element}
use ext.Os.Ends.{Ends, Ends-pure, Ends-bind, Ends-element}
use ext.Superblock.Bounds.{IsValid}
use ext.Superblock.{Superblock, first_free, reserve_inode, free_inode, reserve_block}

-- How many entries are not reserved.
pub free_count : List Bool → ℕ
free_count [] = 0
free_count (true ∷ mask) = free_count mask
free_count (false ∷ mask) = suc (free_count mask)

-- `id` is the first entry that is not reserved.
pub record IsFirstFree (mask : List Bool) (id : ℕ) : Type 0 where
  pub free : get_elem? mask id ≡ some false
  pub first : (i : ℕ) → i < id → get_elem? mask i ≡ some true

IsFirstFree-cons :
    (mask : List Bool) (j : ℕ) → IsFirstFree mask j → IsFirstFree (true ∷ mask) (suc j)
IsFirstFree-cons mask j h = record { free = h.free; first = before }
  where
    before : (i : ℕ) → i < suc j → get_elem? (true ∷ mask) i ≡ some true
    before zero l = refl
    before (suc i) l = h.first i (omega arith)

pub first_free-IsFirstFree :
    (mask : List Bool) (id : ℕ) → first_free mask ≡ some id → IsFirstFree mask id
unfolding first_free
first_free-IsFirstFree [] id e = cc
first_free-IsFirstFree (false ∷ mask) id e =
    let z : 0 ≡ id = ground arith in
    subst (IsFirstFree (false ∷ mask)) z
      (record { free = refl; first = λ i h. absurd (omega arith) })
first_free-IsFirstFree (true ∷ mask) id e = elim (Option-cases (first_free mask)) [
  | inl n ↦ ground arith
  | inr (j, d) ↦
      let z : suc j ≡ id = ground arith in
      subst (IsFirstFree (true ∷ mask)) z
        (IsFirstFree-cons mask j (first_free-IsFirstFree mask j d))
]

-- It fails exactly if everything is reserved.
pub first_free-none : (mask : List Bool) → first_free mask ≡ none → free_count mask ≡ 0
unfolding first_free free_count
first_free-none [] e = refl
first_free-none (false ∷ mask) e = cc
first_free-none (true ∷ mask) e = elim (Option-cases (first_free mask)) [
  | inl n ↦ first_free-none mask n
  | inr (j, d) ↦ ground arith
]

pub free_count-set :
    (mask : List Bool) (id : ℕ)
    → get_elem? mask id ≡ some false
    → free_count mask ≡ suc (free_count (set mask id true))
unfolding free_count
free_count-set [] id e = cc
free_count-set (b ∷ mask) zero e = ground arith
free_count-set (true ∷ mask) (suc id) e = free_count-set mask id e
free_count-set (false ∷ mask) (suc id) e = ap suc (free_count-set mask id e)

-- The two ends of a reservation in a mask with `count` entries: every entry was reserved, and
-- nothing changes; or the first free entry is reserved, and no other changes.
abbrev pub Reserves : List Bool → ℕ → ℕ → List Bool → Type 0
Reserves mask count id mask' =
    (free_count mask ≡ 0) × (id ≡ count) × (mask' ≡ mask)
    ⊎ IsFirstFree mask id
      × (id < count)
      × (mask' ≡ set mask id true)
      × (free_count mask ≡ suc (free_count mask'))

-- On a valid superblock, reserve_inode returns inodes_count and changes nothing if no inode is
-- free; otherwise it returns the first free inode, which is below inodes_count, and reserves that
-- one only.
pub reserve_inode_lem :
    (s : Superblock)
    → IsValid s
    → let (id, s') = reserve_inode s in
      Reserves s.reserved_inodes_mask s.fs_info.inodes_count id s'.reserved_inodes_mask
      × (s' ≡ record s { reserved_inodes_mask = s'.reserved_inodes_mask })
unfolding reserve_inode
reserve_inode_lem s v = elim (Option-cases (first_free s.reserved_inodes_mask)) [
  | inl e ↦ rw (e, reserve_inode) (inl (first_free-none s.reserved_inodes_mask e, refl, refl), refl)
  | inr (id, e) ↦
      let h = first_free-IsFirstFree s.reserved_inodes_mask id e in
      let l = get_elem?-lt s.reserved_inodes_mask id false h.free in
      let n : id < s.fs_info.inodes_count = omega (arith, l, v.inodes) in
      rw (e, reserve_inode)
        (inr (h, n, refl, free_count-set s.reserved_inodes_mask id h.free), refl)
]

-- On a valid superblock, reserve_block returns blocks_count and changes nothing if no block is
-- free; otherwise it returns the first free block, which is below blocks_count, and reserves that
-- one only.
pub reserve_block_lem :
    (s : Superblock)
    → IsValid s
    → let (id, s') = reserve_block s in
      Reserves s.reserved_blocks_mask s.fs_info.blocks_count id s'.reserved_blocks_mask
      × (s' ≡ record s { reserved_blocks_mask = s'.reserved_blocks_mask })
unfolding reserve_block
reserve_block_lem s v = elim (Option-cases (first_free s.reserved_blocks_mask)) [
  | inl e ↦ rw (e, reserve_block) (inl (first_free-none s.reserved_blocks_mask e, refl, refl), refl)
  | inr (id, e) ↦
      let h = first_free-IsFirstFree s.reserved_blocks_mask id e in
      let l = get_elem?-lt s.reserved_blocks_mask id false h.free in
      let n : id < s.fs_info.blocks_count = omega (arith, l, v.blocks) in
      rw (e, reserve_block)
        (inr (h, n, refl, free_count-set s.reserved_blocks_mask id h.free), refl)
]

-- Releasing the inode that was just reserved in a valid superblock gives the superblock back.
pub free_inode-reserve_inode :
    (h : Host) (f : File) (s : Superblock)
    → IsValid s
    → (reserve_inode s).0 ≢ s.fs_info.inodes_count
    → Ends h (free_inode (reserve_inode s).1 (reserve_inode s).0) f ((reserve_inode s).0, s) f
unfolding reserve_inode free_inode
free_inode-reserve_inode h f s v ne = elim (Option-cases (first_free s.reserved_inodes_mask)) [
  | inl e ↦ absurd (ne (rw (e, reserve_inode)))
  | inr (id, e) ↦
      let mask = s.reserved_inodes_mask in
      let k = (first_free-IsFirstFree mask id e).free in
      let back : set (set mask id true) id false ≡ mask =
        set-set mask id true false ∙ set-get_elem? mask id false k in
      let on = get_elem?-set_self mask id true (get_elem?-lt mask id false k) in
      rw (e, reserve_inode)
        (Ends-bind (element (get_elem? (set mask id true) id)) _ (Ends-element _ true f on) (
          subst
            (λ m.
              Ends {A = ℕ × Superblock} h
                (pure {A = ℕ × Superblock} (id, record s { reserved_inodes_mask = m })) f
                (id, record s { reserved_inodes_mask = mask }) f)
            (sym back) (Ends-pure (id, s) f)))
]
