-- ===== src/Prelude/Text.antt =====
-- Go's `strings.TrimSpace` and membership of texts in lists of texts.
use Prim.Native.Nat.{ℕ, Ordering, compare as compare_ℕ}
use Prim.Native.Char.{Char, code}
use Prim.Native.String.{String, compare, then as lex}
use Prim.Native.String.compare
use mathlib.Core.Path.{◌≡◌, refl, sym, ap, ap₂, ◌∙◌}
use native.Mathlib.Omega.{arith}
use mathlib.Core.Bool.{Bool, true, false, ◌&&◌, ◌||◌}
use mathlib.Core.List.{List}
use text.Mathlib.Text.{◌==◌}
use package.semantic_framework.Prelude.Tests.{leb, eqb, if◌then◌else◌}
use package.semantic_framework.Prelude.Lists.{any}

-- `unicode.IsSpace`
is_space : ℕ → Bool
is_space c =
    (leb 9 c && leb c 13)
    || eqb c 32
    || eqb c 0x85
    || eqb c 0xa0
    || eqb c 0x1680
    || (leb 0x2000 c && leb c 0x200a)
    || eqb c 0x2028
    || eqb c 0x2029
    || eqb c 0x202f
    || eqb c 0x205f
    || eqb c 0x3000

trim_left : String → String
trim_left String.[] = ""
trim_left (String.◌∷◌ c s) =
    let rest = trim_left s in if is_space (code c) then rest else String.◌∷◌ c s

-- A space is dropped when nothing but spaces follows it.
keep_before : Char → String → String
keep_before c String.[] = if is_space (code c) then "" else String.◌∷◌ c ""
keep_before c (String.◌∷◌ d s) = String.◌∷◌ c (String.◌∷◌ d s)

trim_right : String → String
trim_right String.[] = ""
trim_right (String.◌∷◌ c s) = keep_before c (trim_right s)

unfoldable pub trim_space : String → String
unfolding is_space trim_left keep_before trim_right
trim_space s = trim_right (trim_left s)

-- `strings.TrimSpace(s) == ""`
abbrev pub is_blank : String → Bool
is_blank s = trim_space s == ""

-- The order of texts in SQLite, byte by byte.
abbrev pub text_lt : String → String → Bool
text_lt s t = elim (compare s t) [ Ordering.lt ↦ true | _ ↦ false ]

abbrev pub mem_text : String → List String → Bool
mem_text s texts = any (λ t. s == t) texts

trim_space_runs : trim_space " a b " ≡ "a b"
unfolding trim_space
trim_space_runs = refl

-- The order is asymmetric.
swap : Ordering → Ordering
swap Ordering.lt = Ordering.gt
swap Ordering.eq = Ordering.eq
swap Ordering.gt = Ordering.lt

compare_ℕ-swap : (m n : ℕ) → compare_ℕ n m ≡ swap (compare_ℕ m n)
unfolding swap
compare_ℕ-swap m n = ground arith

lex-swap : (a b : Ordering) → lex (swap a) (swap b) ≡ swap (lex a b)
unfolding swap
lex-swap Ordering.lt b = refl
lex-swap Ordering.eq b = refl
lex-swap Ordering.gt b = refl

compare-swap : (s t : String) → compare t s ≡ swap (compare s t)
unfolding swap
compare-swap String.[] String.[] = refl
compare-swap String.[] (String.◌∷◌ d t) =
    compare.cons-nil d t ∙ ap swap (sym (compare.nil-cons d t))
compare-swap (String.◌∷◌ c s) String.[] =
    compare.nil-cons c s ∙ ap swap (sym (compare.cons-nil c s))
compare-swap (String.◌∷◌ c s) (String.◌∷◌ d t) =
    compare.cons-cons d c t s
    ∙ ap₂ lex (compare_ℕ-swap (code c) (code d)) (compare-swap s t)
    ∙ lex-swap (compare_ℕ (code c) (code d)) (compare s t)
    ∙ ap swap (sym (compare.cons-cons c d s t))

pub text_lt-asymmetric : (s t : String) → text_lt s t ≡ true → text_lt t s ≡ false
unfolding swap
text_lt-asymmetric s t h = go (compare s t) (compare t s) (compare-swap s t) h
  where
    go :
        (a b : Ordering)
        → b ≡ swap a
        → (elim a [ Ordering.lt ↦ true | _ ↦ false ]) ≡ true
        → (elim b [ Ordering.lt ↦ true | _ ↦ false ]) ≡ false
    go Ordering.lt b e k = rw e refl
    go Ordering.eq b e k = cc
    go Ordering.gt b e k = cc
