-- ===== src/Paths/Split.antt =====
-- split_path: the directory of a path and the name in it.
use ext.Base.{
  ℕ, suc, ◌+◌, ◌-◌, ◌<◌, ◌≡◌, ◌≢◌, refl, sym, ap, ◌∙◌, [], ◌∷◌, ◌++◌, some, length, length-append,
  take, drop, arith, ◌==◌, ne→==, lt→ltb, get_or, append_assoc, take-length-append, if◌then◌else◌,
}
use ext.Base.Image.{Bytes}
use ext.Os.{pure}
use ext.Paths.{slash, last_slash, cut_slash, buffer_length, split_path}
use ext.Paths.Parse.{IsName}

last_slash-IsName : (name : Bytes) (best pos : ℕ) → IsName name → last_slash best pos name ≡ best
unfolding last_slash
last_slash-IsName [] best pos h = refl
last_slash-IsName (x ∷ name) best pos h =
    rw (ne→== x slash h.0) (last_slash-IsName name best (pos + 1) h.1)

last_slash-append :
    (parent name : Bytes) (best pos : ℕ)
    → IsName name
    → last_slash best pos (parent ++ slash ∷ name) ≡ pos + length parent
unfolding last_slash
last_slash-append [] name best pos h = last_slash-IsName name pos (pos + 1) h ∙ omega arith
last_slash-append (x ∷ parent) name best pos h =
    last_slash-append parent name (if x == slash then pos else best) (pos + 1) h ∙ omega arith

-- The last byte of a text that ends in `c`.
get_or-last : (text : Bytes) (c : ℕ) → get_or (text ++ c ∷ []) (length (text ++ c ∷ []) - 1) 0 ≡ c
get_or-last [] c = refl
get_or-last (x ∷ text) c =
    let n = length-append text (c ∷ []) in
    let e : length (x ∷ text ++ c ∷ []) - 1 ≡ suc (length (text ++ c ∷ []) - 1) = omega arith in
    rw e (get_or-last text c)

cut_slash-slash : (text : Bytes) → cut_slash (text ++ slash ∷ []) ≡ text
unfolding cut_slash
cut_slash-slash text =
    let n = length-append text (slash ∷ []) in
    let e : length (text ++ slash ∷ []) - 1 ≡ length text = omega arith in
    rw (get_or-last text slash, e, take-length-append text (slash ∷ []))

last-IsName :
    (text : Bytes) (c : ℕ) (cs : Bytes)
    → IsName (c ∷ cs)
    → get_or (text ++ c ∷ cs) (length (text ++ c ∷ cs) - 1) 0 ≢ slash
last-IsName [] c [] h = h.0
last-IsName [] c (x ∷ cs) h =
    let e : length (c ∷ x ∷ cs) - 1 ≡ suc (length (x ∷ cs) - 1) = omega arith in
    rw e (last-IsName [] x cs h.1)
last-IsName (x ∷ text) c cs h =
    let n = length-append text (c ∷ cs) in
    let e : length (x ∷ text ++ c ∷ cs) - 1 ≡ suc (length (text ++ c ∷ cs) - 1) = omega arith in
    rw e (last-IsName text c cs h)

cut_slash-IsName :
    (text : Bytes) (c : ℕ) (cs : Bytes)
    → IsName (c ∷ cs)
    → cut_slash (text ++ c ∷ cs) ≡ text ++ c ∷ cs
unfolding cut_slash
cut_slash-IsName text c cs h = rw (ne→== _ slash (last-IsName text c cs h))

first_byte :
    (d name : Bytes) → get_or (d ++ slash ∷ []) 0 0 ≡ slash → get_or (d ++ slash ∷ name) 0 0 ≡ slash
first_byte [] name e = e
first_byte (x ∷ d) name e = e

drop-parent : (d name : Bytes) → drop (length d + 1) (d ++ slash ∷ name) ≡ name
drop-parent [] name = refl
drop-parent (x ∷ d) name =
    let e : length (x ∷ d) + 1 ≡ suc (length d + 1) = omega arith in rw e (drop-parent d name)

take-parent : (d name : Bytes) → take (length d + 1) (d ++ slash ∷ name) ≡ d ++ slash ∷ []
take-parent [] name = refl
take-parent (x ∷ d) name =
    let e : length (x ∷ d) + 1 ≡ suc (length d + 1) = omega arith in
    rw e (ap (λ l. x ∷ l) (take-parent d name))

-- The directory and the name that are left when the last slash is cut off.
split_cut :
    (path d : Bytes) (c : ℕ) (cs : Bytes)
    → IsName (c ∷ cs)
    → get_or (d ++ slash ∷ []) 0 0 ≡ slash
    → 0 < length path
    → length (d ++ slash ∷ c ∷ cs) < buffer_length
    → cut_slash path ≡ d ++ slash ∷ c ∷ cs
    → split_path path ≡ pure (some (d ++ slash ∷ [], c ∷ cs))
unfolding split_path
split_cut path d c cs h s p l e =
    let n = length-append d (slash ∷ c ∷ cs) in
    let last = last_slash-append d (c ∷ cs) 0 0 h in
    let z : 0 + length d ≡ length d = omega arith in
    rw (
      ne→== (length path) 0 (omega arith),
      e,
      lt→ltb _ _ l,
      first_byte d (c ∷ cs) s,
      ne→== (length (d ++ slash ∷ c ∷ cs)) 0 (omega arith),
      last,
      z,
      drop-parent d (c ∷ cs),
      ne→== (length (c ∷ cs)) 0 (omega arith),
      take-parent d (c ∷ cs),
    )

-- A path is a directory that begins and ends with a slash (or is one slash) and a name that has a
-- byte and no slash.
module _ (d : Bytes) (c : ℕ) (cs : Bytes) (named : IsName (c ∷ cs))
    (starts : get_or (d ++ slash ∷ []) 0 0 ≡ slash) where
  split_path-name :
      length (d ++ slash ∷ c ∷ cs) < buffer_length
      → split_path (d ++ slash ∷ c ∷ cs) ≡ pure (some (d ++ slash ∷ [], c ∷ cs))
  split_path-name l =
      let n = length-append d (slash ∷ c ∷ cs) in
      let whole = append_assoc d (slash ∷ []) (c ∷ cs) in
      split_cut (d ++ slash ∷ c ∷ cs) d c cs named starts (omega arith) l
        (ap cut_slash (sym whole) ∙ cut_slash-IsName (d ++ slash ∷ []) c cs named ∙ whole)

  split_path-name_slash :
      length (d ++ slash ∷ c ∷ cs) + 1 < buffer_length
      → split_path ((d ++ slash ∷ c ∷ cs) ++ slash ∷ []) ≡ pure (some (d ++ slash ∷ [], c ∷ cs))
  split_path-name_slash l =
      let n = length-append (d ++ slash ∷ c ∷ cs) (slash ∷ []) in
      split_cut ((d ++ slash ∷ c ∷ cs) ++ slash ∷ []) d c cs named starts (omega arith)
        (omega arith) (cut_slash-slash (d ++ slash ∷ c ∷ cs))

  -- For a directory text that begins and ends with a slash and a name that has a byte and no
  -- slash, shorter than the buffer together, split_path of the two joined returns the two, also if
  -- a slash follows.
  pub split_path_lem :
      length (d ++ slash ∷ c ∷ cs) + 1 < buffer_length
      → (split_path (d ++ slash ∷ c ∷ cs) ≡ pure (some (d ++ slash ∷ [], c ∷ cs)))
        × (split_path ((d ++ slash ∷ c ∷ cs) ++ slash ∷ []) ≡ pure (some (d ++ slash ∷ [], c ∷ cs)))
  split_path_lem l = (split_path-name (omega arith), split_path-name_slash l)
