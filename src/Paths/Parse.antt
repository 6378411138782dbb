-- ===== src/Paths/Parse.antt =====
-- parse_path: the first name of a path, and the path from the second slash on.
use ext.Base.{
  ℕ, ◌+◌, ◌^◌, ◌<◌, ◌≡◌, ◌≢◌, refl, [], ◌∷◌, ◌++◌, none, some, length, take-all, take-length-append,
  drop-length-append, arith, All, ne→==, lt→ltb,
}
use ext.Base.Image.{Bytes}
use ext.Os.{pure}
use ext.Paths.{slash, strchr, name_length, parse_path}

-- A text without a slash.
abbrev pub IsName : Bytes → Type 0
IsName name = All (λ x. x ≢ slash) name

pub strchr-IsName : (name : Bytes) → IsName name → strchr name slash ≡ none
unfolding strchr
strchr-IsName [] h = refl
strchr-IsName (x ∷ name) h = rw (ne→== x slash h.0, strchr-IsName name h.1)

pub strchr-append :
    (name rest : Bytes) → IsName name → strchr (name ++ slash ∷ rest) slash ≡ some (length name)
unfolding strchr
strchr-append [] rest h = refl
strchr-append (x ∷ name) rest h = rw (ne→== x slash h.0, strchr-append name rest h.1)

-- parse_path of a path of one name.
pub parse_path-last :
    (c : ℕ) (cs : Bytes) (room : ℕ)
    → IsName (c ∷ cs)
    → length (c ∷ cs) + 1 < room
    → room < 2 ^ 16
    → parse_path (slash ∷ c ∷ cs) room ≡ pure (c ∷ cs, none)
unfolding parse_path strchr
parse_path-last c cs room h l m =
    let n : name_length (slash ∷ c ∷ cs) none ≡ length (c ∷ cs) = omega arith in
    rw (
      strchr-IsName (c ∷ cs) h,
      n,
      ne→== (length (c ∷ cs)) 0 (omega arith),
      lt→ltb _ room l,
      take-all (length (c ∷ cs)) (c ∷ cs) (omega arith),
    )

-- parse_path of a longer path.
pub parse_path-first :
    (c : ℕ) (cs rest : Bytes) (room : ℕ)
    → IsName (c ∷ cs)
    → length (c ∷ cs) + 1 < room
    → room < 2 ^ 16
    → parse_path (slash ∷ (c ∷ cs) ++ slash ∷ rest) room ≡ pure (c ∷ cs, some (slash ∷ rest))
unfolding parse_path strchr
parse_path-first c cs rest room h l m =
    let n : name_length (slash ∷ (c ∷ cs) ++ slash ∷ rest) (some (length (c ∷ cs)))
        ≡ length (c ∷ cs) =
      omega arith in
    rw (
      strchr-append (c ∷ cs) rest h,
      n,
      ne→== (length (c ∷ cs)) 0 (omega arith),
      lt→ltb _ room l,
      take-length-append (c ∷ cs) (slash ∷ rest),
      drop-length-append (c ∷ cs) (slash ∷ rest),
    )

-- For a name that has a byte and no slash, and leaves two bytes of the array for it (smaller than
-- 2^16), parse_path returns the name and null if nothing follows it, and the name and the rest
-- from the next slash on if a slash follows.
pub parse_path_lem :
    (c : ℕ) (cs rest : Bytes) (room : ℕ)
    → IsName (c ∷ cs)
    → length (c ∷ cs) + 1 < room
    → room < 2 ^ 16
    → (parse_path (slash ∷ c ∷ cs) room ≡ pure (c ∷ cs, none))
      × (parse_path (slash ∷ (c ∷ cs) ++ slash ∷ rest) room ≡ pure (c ∷ cs, some (slash ∷ rest)))
parse_path_lem c cs rest room h l m =
    (parse_path-last c cs room h l m, parse_path-first c cs rest room h l m)
