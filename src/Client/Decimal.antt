-- ===== src/Client/Decimal.antt =====
-- Numbers as they are typed, and strtol on them.
use ext.Base.{
  ℕ, zero, suc, ◌+◌, ◌*◌, ◌/◌, ◌%◌, ◌^◌, ◌<◌, ◌≡◌, ◌≢◌, refl, [], ◌∷◌, arith, All, ltb, ltb→lt,
  Bool-cases, inl, inr, length, if◌then◌else◌,
}
use ext.Base.Image.{Bytes}
use ext.Client.Input.{strtol, digits, skip_spaces, signed}

-- A byte of a word: no space, no newline, no NUL.
pub record IsPlain (x : ℕ) : Type 0 where
  pub no_space : x ≢ b' '
  pub no_newline : x ≢ 10
  pub no_nul : x ≢ 0

-- A word has a byte.
abbrev pub IsWord : Bytes → Type 0
IsWord text = (0 < length text) × All IsPlain text

-- The decimal digits of a number below the fuel, in front of `out`.
unfoldable pub put_digits : ℕ → ℕ → Bytes → Bytes
put_digits zero n out = out
put_digits (suc fuel) n out =
    let more = put_digits fuel (n / 10) ((b'0' + n % 10) ∷ out) in
    if ltb n 10 then (b'0' + n) ∷ out else more

unfoldable pub decimal : ℕ → Bytes
unfolding put_digits
decimal n = put_digits (suc n) n []

digits_digit :
    (a d : ℕ) (out : Bytes) → d < 10 → digits a ((b'0' + d) ∷ out) ≡ digits (a * 10 + d) out
unfolding digits
digits_digit a d out l = ground arith

digits-put_digits :
    (fuel n : ℕ) (out : Bytes) → n < fuel → digits 0 (put_digits fuel n out) ≡ digits n out
unfolding put_digits
digits-put_digits zero n out l = absurd (omega arith)
digits-put_digits (suc fuel) n out l =
    let small = digits_digit 0 n out in
    let last = digits_digit (n / 10) (n % 10) out (omega arith) in
    let e : n / 10 * 10 + n % 10 ≡ n = omega arith in
    grind (arith, small, last, e, digits-put_digits fuel (n / 10) ((b'0' + n % 10) ∷ out))

digit-IsPlain : (d : ℕ) → IsPlain (b'0' + d)
digit-IsPlain d = record {
  no_space = λ e. omega arith;
  no_newline = λ e. omega arith;
  no_nul = λ e. omega arith;
}

-- The first byte is a digit, and the others are no spaces.
put_digits_lem :
    (fuel n : ℕ) (out : Bytes)
    → n < fuel
    → All IsPlain out
    → (d : ℕ) × (rest : Bytes) × (put_digits fuel n out ≡ (b'0' + d) ∷ rest)
      × (d < 10)
      × All IsPlain rest
unfolding put_digits
put_digits_lem zero n out l a = absurd (omega arith)
put_digits_lem (suc fuel) n out l a = elim (Bool-cases (ltb n 10)) [
  | inl e ↦ rw e (n, out, refl, ltb→lt n 10 e, a)
  | inr e ↦ rw e (
      put_digits_lem fuel (n / 10) ((b'0' + n % 10) ∷ out) (ground arith)
        (digit-IsPlain (n % 10), a))
]

pub decimal-IsWord : (n : ℕ) → IsWord (decimal n)
unfolding decimal
decimal-IsWord n =
    let (d, rest, e, l, a) = put_digits_lem (suc n) n [] (omega arith) tt in
    rw e (omega arith, (digit-IsPlain d, a))

-- strtol reads back what was typed.
pub strtol-decimal : (n : ℕ) → n < 2 ^ 63 → strtol (decimal n) ≡ n
unfolding decimal strtol skip_spaces signed
strtol-decimal n l =
    let (d, rest, e, m, a) = put_digits_lem (suc n) n [] (omega arith) tt in
    let value = digits-put_digits (suc n) n [] (omega arith) in
    let all : digits 0 ((b'0' + d) ∷ rest) ≡ digits n [] = rw e at value in
    rw e (ground (arith, all))
