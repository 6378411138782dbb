-- ===== src/Client/Words.antt =====
-- The words and numbers of a command as parse_command and strtol read them.
use ext.Base.{
  ℕ, suc, ◌+◌, ◌%◌, ◌^◌, ◌<◌, ◌≡◌, refl, ap, ◌∙◌, [], ◌∷◌, ◌++◌, none, some, length, All, arith,
  ne→==, drop, take-length-append,
}
use ext.Base.Image.{Bytes}
use ext.Paths.{strchr, parse_command}
use ext.Session.{S}
use ext.Client.Input.{strtol}
use ext.Client.Dispatch.{with_arg, with_two, descriptor_of, size_of}
use ext.Client.Decimal.{decimal, IsPlain, IsWord, decimal-IsWord, strtol-decimal}
use ext.Client.Typed.{then_text}

strchr-IsPlain :
    (text rest : Bytes) → All IsPlain text → strchr (text ++ b' ' ∷ rest) b' ' ≡ some (length text)
unfolding strchr
strchr-IsPlain [] rest a = refl
strchr-IsPlain (x ∷ text) rest a = rw (ne→== x b' ' a.0.no_space, strchr-IsPlain text rest a.1)

strchr-none : (text : Bytes) → All IsPlain text → strchr text b' ' ≡ none
unfolding strchr
strchr-none [] a = refl
strchr-none (x ∷ text) a = rw (ne→== x b' ' a.0.no_space, strchr-none text a.1)

drop-word : (text rest : Bytes) → drop (length text + 1) (text ++ b' ' ∷ rest) ≡ rest
drop-word [] rest = refl
drop-word (x ∷ text) rest =
    let e : length (x ∷ text) + 1 ≡ suc (length text + 1) = omega arith in
    rw e (drop-word text rest)

-- The first word, with something behind it or nothing.
pub parse_command-word :
    (text rest : Bytes) → All IsPlain text → parse_command (then_text text rest) ≡ (text, some rest)
unfolding parse_command
parse_command-word text rest a = rw (
  parse_command,
  strchr-IsPlain text rest a,
  take-length-append text (b' ' ∷ rest),
  drop-word text rest,
)

pub parse_command-alone : (text : Bytes) → All IsPlain text → parse_command text ≡ (text, none)
unfolding parse_command
parse_command-alone text a = rw (parse_command, strchr-none text a)

pub with_arg-IsWord :
    (command text : Bytes) (act : Bytes → S (Unit {0}))
    → 0 < length text
    → with_arg command (some text) act ≡ act text
unfolding with_arg
with_arg-IsWord command [] act l = absurd (omega arith)
with_arg-IsWord command (x ∷ text) act l = refl

-- A number in front of something, and alone.
pub first_number :
    (n : ℕ) (rest : Bytes) → parse_command (then_text (decimal n) rest) ≡ (decimal n, some rest)
first_number n rest = parse_command-word (decimal n) rest (decimal-IsWord n).1

only_number : (n : ℕ) → parse_command (decimal n) ≡ (decimal n, none)
only_number n = parse_command-alone (decimal n) (decimal-IsWord n).1

fd_value : (n : ℕ) → n < 2 ^ 16 → strtol (decimal n) % 2 ^ 16 ≡ n
fd_value n l = rw (strtol-decimal n (omega arith)) (omega arith)

size_value : (n : ℕ) → n < 2 ^ 32 → strtol (decimal n) % 2 ^ 32 ≡ n
size_value n l = rw (strtol-decimal n (omega arith)) (omega arith)

pub word-alone : (text : Bytes) → IsWord text → (parse_command text).0 ≡ text
word-alone text w = ap (λ r. r.0) (parse_command-alone text w.1)

pub descriptor_of-decimal : (fd : ℕ) → fd < 2 ^ 16 → descriptor_of (decimal fd) ≡ fd
descriptor_of-decimal fd l =
    ap (λ t. strtol t % 2 ^ 16) (word-alone (decimal fd) (decimal-IsWord fd)) ∙ fd_value fd l

pub descriptor_of-first :
    (fd : ℕ) (rest : Bytes) → fd < 2 ^ 16 → descriptor_of (then_text (decimal fd) rest) ≡ fd
descriptor_of-first fd rest l = ap (λ r. strtol r.0 % 2 ^ 16) (first_number fd rest) ∙ fd_value fd l

pub size_of-decimal : (n : ℕ) → n < 2 ^ 32 → size_of (decimal n) ≡ n
size_of-decimal n l =
    ap (λ t. strtol t % 2 ^ 32) (word-alone (decimal n) (decimal-IsWord n)) ∙ size_value n l

pub length-then_text : (text rest : Bytes) → 0 < length (then_text text rest)
length-then_text [] rest = omega arith
length-then_text (x ∷ text) rest = omega arith

-- A descriptor, and a word or a number behind it.
pub with_two-decimal :
    (command rest : Bytes) (fd : ℕ) (act : ℕ → Bytes → S (Unit {0}))
    → fd < 2 ^ 16
    → 0 < length rest
    → with_two command (some (then_text (decimal fd) rest)) act ≡ act fd rest
unfolding with_two
with_two-decimal command rest fd act l m =
    with_arg-IsWord command (then_text (decimal fd) rest) _ (length-then_text (decimal fd) rest)
    ∙ ap (λ r. with_arg command r (λ t. act (descriptor_of (then_text (decimal fd) rest)) t))
        (ap (λ r. r.1) (first_number fd rest))
    ∙ with_arg-IsWord command rest _ m
    ∙ ap (λ n. act n rest) (descriptor_of-first fd rest l)
