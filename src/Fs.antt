-- ===== src/Fs.antt =====
-- The file system as the commands of FileSystem/interface see it: directories with their entries,
-- files with their data, and the open descriptors; and the walk along the names of a path.
pub mod Represents
pub mod Path
pub mod Step
pub mod Kept
pub mod Table
pub mod Reach
pub mod Opening
pub mod Nodes
pub mod Data
pub mod Transfer
pub mod Taken
pub mod Writes
pub mod Grown
pub mod Placed
pub mod Made
pub mod Linked
pub mod Making
pub mod Listing
pub mod Full
pub mod Overfull
pub mod Sizes
pub mod Run
pub mod Fresh
use ext.Base.{
  ◌≡◌, ◌≢◌, ap, ℕ, zero, suc, ◌+◌, Bool, true, false, List, [], ◌∷◌, All, refl, text_eq, Bool-cases,
  inl, inr, if◌then◌else◌, subst, Option, none, some,
}
use ext.Base.Image.{Bytes}
use ext.Superblock.{Superblock}
use ext.Descriptors.{DescriptorsTable}
use ext.Methods.Names.{Entries, lookup}

-- A directory: its block and its entries; a file: its block, the size of its data, and the array
-- that they begin.
pub data Node : Type 0 where
  folder : ℕ → ℕ × Bytes → Entries → Node
  regular : ℕ → ℕ → Bytes → Node

abbrev pub block_of : Node → ℕ
block_of (folder b first others) = b
block_of (regular b n contents) = b

abbrev pub is_regular : Node → Bool
is_regular (folder b first others) = false
is_regular (regular b n contents) = true

-- The nodes by their inodes.
abbrev pub Nodes : Type 0
Nodes = ℕ → Option Node

pub record Fs : Type 0 where
  pub super : Superblock
  pub table : DescriptorsTable
  pub nodes : Nodes

-- The inode of a name in a directory.
abbrev pub entered : Option Node → Bytes → Option ℕ
entered (some (folder b first others)) name = lookup (first ∷ others) name
entered _ name = none

-- The entries of a directory; anything else has none.
abbrev pub entries_of : Option Node → Entries
entries_of (some (folder b first others)) = first ∷ others
entries_of _ = []

abbrev pub IsThere : Nodes → ℕ → Type 0
IsThere nodes i = (nd : Node) × (nodes i ≡ some nd)

-- The inode of every entry is a node.
abbrev pub Closed : Nodes → Type 0
Closed nodes = (i : ℕ) → All (λ e. IsThere nodes e.0) (entries_of (nodes i))

-- A path ends at a directory.
abbrev pub arrived : Option Node → ℕ → Option ℕ
arrived (some (folder b first others)) i = some i
arrived _ i = none

-- The directory that the names lead to.
unfoldable pub walk : Nodes → ℕ → List Bytes → Option ℕ
walk nodes i [] = arrived (nodes i) i
walk nodes i (name ∷ names) = elim (entered (nodes i) name) [
  | none ↦ none
  | some next ↦ walk nodes next names
]

pub walk-none :
    (nodes : Nodes) (i : ℕ) (name : Bytes) (names : List Bytes)
    → entered (nodes i) name ≡ none
    → walk nodes i (name ∷ names) ≡ none
unfolding walk
walk-none nodes i name names e =
    ap (λ o. elim o [ none ↦ none | some next ↦ walk nodes next names ]) e

pub walk-some :
    (nodes : Nodes) (i next : ℕ) (name : Bytes) (names : List Bytes)
    → entered (nodes i) name ≡ some next
    → walk nodes i (name ∷ names) ≡ walk nodes next names
unfolding walk
walk-some nodes i next name names e =
    ap (λ o. elim o [ none ↦ none | some j ↦ walk nodes j names ]) e

pub walk-arrived :
    (nodes : Nodes) (i : ℕ) (o : Option Node) → nodes i ≡ o → walk nodes i [] ≡ arrived o i
unfolding walk
walk-arrived nodes i o e = ap (λ p. arrived p i) e

pub none_is_not_some : {A : Type 0} (a : A) → none ≢ some a
none_is_not_some a e = cc

pub some_inj : {A : Type 0} (a b : A) → some a ≡ some b → a ≡ b
some_inj a b e = cc

-- What holds of the inodes of all entries holds of the one that is found.
lookup-All :
    (P : ℕ → Type 0) (entries : Entries) (name : Bytes) (next : ℕ)
    → All (λ e. P e.0) entries
    → lookup entries name ≡ some next
    → P next
unfolding lookup
lookup-All P [] name next a e = absurd (none_is_not_some next e)
lookup-All P (x ∷ entries) name next a e = elim (Bool-cases (text_eq x.1 name)) [
  | inl p ↦ subst P (some_inj x.0 next (rw p at e)) a.0
  | inr p ↦ lookup-All P entries name next a.1 (rw p at e)
]

entered-All :
    (P : ℕ → Type 0) (o : Option Node) (name : Bytes) (next : ℕ)
    → All (λ e. P e.0) (entries_of o)
    → entered o name ≡ some next
    → P next
entered-All P none name next a e = absurd (none_is_not_some next e)
entered-All P (some (regular b n contents)) name next a e = absurd (none_is_not_some next e)
entered-All P (some (folder b first others)) name next a e =
    lookup-All P (first ∷ others) name next a e

pub entered-IsThere :
    (nodes : Nodes) (i next : ℕ) (name : Bytes)
    → Closed nodes
    → entered (nodes i) name ≡ some next
    → IsThere nodes next
entered-IsThere nodes i next name closed e =
    entered-All (IsThere nodes) (nodes i) name next (closed i) e
