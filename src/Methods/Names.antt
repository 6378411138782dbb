-- ===== src/Methods/Names.antt =====
-- Names in directories: what the search of methods.c finds in the records of a block.
use ext.Base.{
  ℕ, zero, suc, ◌-◌, ◌<◌, ◌≡◌, ◌≢◌, refl, sym, ap, ◌∙◌, List, [], ◌∷◌, ◌++◌, Option, some, none,
  length, map, length-map, replicate, drop, arith, All, ◌==◌, ne→==, Bool-cases, inl, inr, text_eq,
  if◌then◌else◌,
}
use ext.Base.Image.{Bytes}
use ext.Os.{Host, File}
use ext.Os.Ends.{Ends, Ends-pure, Ends-bind, Ends-element}
use ext.Superblock.{Superblock}
use ext.Block.{BlockRecord}
use ext.Block.Store.{directory}
use ext.Paths.{strcmp_eq}
use ext.Methods.{find_record, find_in_block}
use ext.Methods.Create.{entry}

-- A text without a NUL.
abbrev pub IsText : Bytes → Type 0
IsText name = All (λ x. x ≢ 0) name

-- strcmp of a name with a NUL behind it is equality.
pub strcmp_eq-text_eq :
    (name zeros text : Bytes)
    → IsText name
    → IsText text
    → strcmp_eq (name ++ 0 ∷ zeros) text ≡ some (text_eq name text)
unfolding strcmp_eq
strcmp_eq-text_eq [] zeros [] a b = refl
strcmp_eq-text_eq [] zeros (c ∷ text) a b = let e : 0 ≢ c = λ p. b.0 (sym p) in rw (ne→== 0 c e)
strcmp_eq-text_eq (x ∷ name) zeros [] a b = rw (ne→== x 0 a.0)
strcmp_eq-text_eq (x ∷ name) zeros (c ∷ text) a b = elim (Bool-cases (x == c)) [
  | inl e ↦ rw e (strcmp_eq-text_eq name zeros text a.1 b.1)
  | inr e ↦ rw e
]

pub drop-replicate :
    (k n : ℕ) → k < n → drop k (replicate {A = ℕ} n 0) ≡ 0 ∷ replicate {A = ℕ} (n - k - 1) 0
drop-replicate k zero l = absurd (omega arith)
drop-replicate zero (suc n) l = let e : suc n - 0 - 1 ≡ n = omega arith in rw e
drop-replicate (suc k) (suc n) l =
    let e : suc n - suc k - 1 ≡ n - k - 1 = omega arith in rw e (drop-replicate k n (omega arith))

-- The entries of a directory: an inode and a name each.
abbrev pub Entries : Type 0
Entries = List (ℕ × Bytes)

abbrev pub records : Superblock → Entries → List BlockRecord
records s entries = map (λ e. entry s e.0 e.1) entries

-- The inode of the first entry with the name.
unfoldable pub lookup : Entries → Bytes → Option ℕ
lookup [] name = none
lookup (e ∷ entries) name =
    let rest = lookup entries name in if text_eq e.1 name then some e.0 else rest

-- A name that fits a record.
abbrev pub Fits : Superblock → Bytes → Type 0
Fits s name = IsText name × (length name < s.fs_info.max_path_len)

pub find_record-Ends :
    {h : Host} (s : Superblock) (entries : Entries) (name : Bytes) (f : File)
    → All (λ e. Fits s e.1) entries
    → IsText name
    → Ends h (find_record (length entries) (records s entries) name) f (lookup entries name) f
unfolding find_record lookup
find_record-Ends s [] name f a b = Ends-pure none f
find_record-Ends s (e ∷ entries) name f a b =
    let n = s.fs_info.max_path_len in
    let same : strcmp_eq (e.1 ++ drop (length e.1) (replicate {A = ℕ} n 0)) name
        ≡ some (text_eq e.1 name) =
      ap (λ l. strcmp_eq (e.1 ++ l) name) (drop-replicate (length e.1) n a.0.1)
      ∙ strcmp_eq-text_eq e.1 (replicate {A = ℕ} (n - length e.1 - 1) 0) name a.0.0 b in
    Ends-bind _ _ (Ends-element _ (text_eq e.1 name) f same) (elim (Bool-cases (text_eq e.1 name)) [
      | inl p ↦ rw p (Ends-pure (some e.0) f)
      | inr p ↦ rw p (find_record-Ends s entries name f a.1 b)
    ])

pub find_in_block-Ends :
    {h : Host} (s : Superblock) (b id : ℕ) (entries : Entries) (name : Bytes) (f : File)
    → All (λ e. Fits s e.1) entries
    → IsText name
    → Ends h (find_in_block (directory s b id (records s entries)) name) f (lookup entries name) f
unfolding find_in_block
find_in_block-Ends s b id entries name f a t =
    rw (length-map (λ e. entry s e.0 e.1) entries) (find_record-Ends s entries name f a t)
