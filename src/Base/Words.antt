-- ===== src/Base/Words.antt =====
-- The memory image of the program's integers and booleans: little-endian, as on the machines that
-- the program is built for, with sizeof(bool) = 1.
use Prim.Native.Nat.{ℕ, ◌+◌, ◌*◌, ◌/◌, ◌%◌, ◌^◌, ◌<◌}
use mathlib.Core.Path.{◌≡◌, refl, ap₂}
use mathlib.Core.Bool.{Bool, true, false, not}
use mathlib.Core.List.{List, [], ◌∷◌, map}
use native.Mathlib.Omega.{arith}
use ext.Base.Tests.{◌==◌}
use ext.Base.Lists.{get_or, All, length}
use ext.Base.Image.{Bytes}

abbrev pub IsU8 : ℕ → Type 0
IsU8 n = n < 2 ^ 8

abbrev pub IsU16 : ℕ → Type 0
IsU16 n = n < 2 ^ 16

abbrev pub IsU32 : ℕ → Type 0
IsU32 n = n < 2 ^ 32

-- Byte number `i` of an integer in memory.
abbrev pub byte : ℕ → ℕ → ℕ
byte i n = n / 256 ^ i % 256

-- The uint16_t and the uint32_t at index `i`.
abbrev pub u16_at : ℕ → Bytes → ℕ
u16_at i bs = get_or bs i 0 + 256 * get_or bs (i + 1) 0

abbrev pub u32_at : ℕ → Bytes → ℕ
u32_at i bs =
    get_or bs i 0
    + 256 * get_or bs (i + 1) 0
    + 65536 * get_or bs (i + 2) 0
    + 16777216 * get_or bs (i + 3) 0

unfoldable pub byte_of_bool : Bool → ℕ
byte_of_bool true = 1
byte_of_bool false = 0

unfoldable pub bool_of_byte : ℕ → Bool
bool_of_byte b = not (b == 0)

-- An array of booleans is its bytes.
unfoldable pub bytes_of_bools : List Bool → Bytes
unfolding byte_of_bool
bytes_of_bools = map byte_of_bool

unfoldable pub bools_of_bytes : Bytes → List Bool
unfolding bool_of_byte
bools_of_bytes = map bool_of_byte

pub bools_of_bytes-bytes_of_bools : (m : List Bool) → bools_of_bytes (bytes_of_bools m) ≡ m
unfolding bools_of_bytes bytes_of_bools
bools_of_bytes-bytes_of_bools [] = refl
bools_of_bytes-bytes_of_bools (true ∷ m) =
    ap₂ ◌∷◌ refl (unfold bools_of_bytes bytes_of_bools in bools_of_bytes-bytes_of_bools m)
bools_of_bytes-bytes_of_bools (false ∷ m) = ap₂ ◌∷◌ refl (bools_of_bytes-bytes_of_bools m)

pub length-bytes_of_bools : (m : List Bool) → length (bytes_of_bools m) ≡ length m
unfolding bytes_of_bools
length-bytes_of_bools [] = refl
length-bytes_of_bools (b ∷ m) = omega (arith, length-bytes_of_bools m)

-- Arrays of uint16_t and of uint32_t.
unfoldable pub bytes_of_u16s : List ℕ → Bytes
bytes_of_u16s [] = []
bytes_of_u16s (n ∷ ns) = byte 0 n ∷ byte 1 n ∷ bytes_of_u16s ns

unfoldable pub u16s_of_bytes : Bytes → List ℕ
u16s_of_bytes (a ∷ b ∷ bs) = (a + 256 * b) ∷ u16s_of_bytes bs
u16s_of_bytes _ = []

unfoldable pub bytes_of_u32s : List ℕ → Bytes
bytes_of_u32s [] = []
bytes_of_u32s (n ∷ ns) = byte 0 n ∷ byte 1 n ∷ byte 2 n ∷ byte 3 n ∷ bytes_of_u32s ns

unfoldable pub u32s_of_bytes : Bytes → List ℕ
u32s_of_bytes (a ∷ b ∷ c ∷ d ∷ bs) = (a + 256 * b + 65536 * c + 16777216 * d) ∷ u32s_of_bytes bs
u32s_of_bytes _ = []

pub u16s_of_bytes-bytes_of_u16s :
    (ns : List ℕ) → All IsU16 ns → u16s_of_bytes (bytes_of_u16s ns) ≡ ns
unfolding u16s_of_bytes bytes_of_u16s
u16s_of_bytes-bytes_of_u16s [] h = refl
u16s_of_bytes-bytes_of_u16s (n ∷ ns) h = ap₂ ◌∷◌ (omega arith) (u16s_of_bytes-bytes_of_u16s ns h.1)

pub length-bytes_of_u16s : (ns : List ℕ) → length (bytes_of_u16s ns) ≡ 2 * length ns
unfolding bytes_of_u16s
length-bytes_of_u16s [] = refl
length-bytes_of_u16s (n ∷ ns) = omega (arith, length-bytes_of_u16s ns)

pub u32s_of_bytes-bytes_of_u32s :
    (ns : List ℕ) → All IsU32 ns → u32s_of_bytes (bytes_of_u32s ns) ≡ ns
unfolding u32s_of_bytes bytes_of_u32s
u32s_of_bytes-bytes_of_u32s [] h = refl
u32s_of_bytes-bytes_of_u32s (n ∷ ns) h = ap₂ ◌∷◌ (omega arith) (u32s_of_bytes-bytes_of_u32s ns h.1)

pub length-bytes_of_u32s : (ns : List ℕ) → length (bytes_of_u32s ns) ≡ 4 * length ns
unfolding bytes_of_u32s
length-bytes_of_u32s [] = refl
length-bytes_of_u32s (n ∷ ns) = omega (arith, length-bytes_of_u32s ns)
