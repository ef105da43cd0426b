-- ===== src/Prelude/Lists.antt =====
-- Lists over the native numbers, and Boolean tests on their members.
use Prim.Native.Nat.{ℕ, zero, suc, ◌+◌, ◌-◌, ◌≤◌, ◌<◌}
use mathlib.Core.Path.{◌≡◌, refl, ap}
use mathlib.Core.Bool.{Bool, true, false, ◌&&◌, ◌||◌}
use mathlib.Core.Option.{Option, none, some}
use mathlib.Core.List.{List, [], ◌∷◌, ◌++◌, map}
use native.Mathlib.Omega.{arith}
use package.semantic_framework.Prelude.Tests.{if◌then◌else◌, or-eq-false}

module _ {ℓ} {A : Type ℓ} where
  abbrev pub length : List A → ℕ
  length [] = 0
  length (x ∷ xs) = suc (length xs)

  pub length-append : (xs ys : List A) → length (xs ++ ys) ≡ length xs + length ys
  length-append [] ys = omega arith
  length-append (x ∷ xs) ys = omega (arith, length-append xs ys)

  -- The rows of a `SELECT … WHERE test`.
  abbrev pub select : (A → Bool) → List A → List A
  select test [] = []
  select test (x ∷ xs) = let rest = select test xs in if test x then x ∷ rest else rest

  abbrev pub any : (A → Bool) → List A → Bool
  any test [] = false
  any test (x ∷ xs) = test x || any test xs

  abbrev pub all : (A → Bool) → List A → Bool
  all test [] = true
  all test (x ∷ xs) = test x && all test xs

module _ {ℓ κ} {A : Type ℓ} where
  abbrev pub All : (A → Type κ) → List A → Type κ
  All P [] = Unit
  All P (x ∷ xs) = P x × All P xs

  pub All-append : (P : A → Type κ) (xs ys : List A) → All P xs → All P ys → All P (xs ++ ys)
  All-append P [] ys hx hy = hy
  All-append P (x ∷ xs) ys hx hy = (hx.0, All-append P xs ys hx.1 hy)

module _ {ℓ} {A : Type ℓ} where
  abbrev pub drop : ℕ → List A → List A
  drop zero xs = xs
  drop (suc n) [] = []
  drop (suc n) (x ∷ xs) = drop n xs

  abbrev pub get_elem? : List A → ℕ → Option A
  get_elem? [] i = none
  get_elem? (x ∷ xs) zero = some x
  get_elem? (x ∷ xs) (suc i) = get_elem? xs i

  pub length-drop : (n : ℕ) (xs : List A) → length (drop n xs) ≡ length xs - n
  length-drop zero xs = omega arith
  length-drop (suc n) [] = omega arith
  length-drop (suc n) (x ∷ xs) = omega (arith, length-drop n xs)

  pub drop-eq-nil : (n : ℕ) (xs : List A) → length xs ≤ n → drop n xs ≡ []
  drop-eq-nil zero [] h = refl
  drop-eq-nil zero (x ∷ xs) h = absurd (omega arith)
  drop-eq-nil (suc n) [] h = refl
  drop-eq-nil (suc n) (x ∷ xs) h = drop-eq-nil n xs (omega arith)

  pub drop-get_elem? :
      (n : ℕ) (xs : List A) (x : A) → get_elem? xs n ≡ some x → drop n xs ≡ x ∷ drop (suc n) xs
  drop-get_elem? n [] x h = cc
  drop-get_elem? zero (y ∷ xs) x h = cc
  drop-get_elem? (suc n) (y ∷ xs) x h = drop-get_elem? n xs x h

  pub get_elem?-IsSome : (n : ℕ) (xs : List A) → n < length xs → (x : A) × (get_elem? xs n ≡ some x)
  get_elem?-IsSome n [] h = absurd (omega arith)
  get_elem?-IsSome zero (x ∷ xs) h = (x, refl)
  get_elem?-IsSome (suc n) (x ∷ xs) h = get_elem?-IsSome n xs (omega arith)

  pub drop-append : (n : ℕ) (xs ys : List A) → n ≤ length xs → drop n (xs ++ ys) ≡ drop n xs ++ ys
  drop-append zero xs ys h = refl
  drop-append (suc n) [] ys h = absurd (omega arith)
  drop-append (suc n) (x ∷ xs) ys h = drop-append n xs ys (omega arith)

module _ {ℓ} {A : Type ℓ} where
  pub select-append :
      (test : A → Bool) (xs ys : List A) → select test (xs ++ ys) ≡ select test xs ++ select test ys
  select-append test [] ys = refl
  select-append test (x ∷ xs) ys = ground (arith, select-append test xs ys)

  -- A narrower selection of a selection.
  pub select-select :
      (test narrow : A → Bool) (xs : List A)
      → select narrow (select test xs) ≡ select (λ x. test x && narrow x) xs
  select-select test narrow [] = refl
  select-select test narrow (x ∷ xs) = ground (arith, select-select test narrow xs)

  pub append_nil : (xs : List A) → xs ++ [] ≡ xs
  append_nil [] = refl
  append_nil (x ∷ xs) = ap (λ ys. x ∷ ys) (append_nil xs)

  pub select-same :
      (test other : A → Bool) (xs : List A)
      → ((x : A) → test x ≡ other x)
      → select test xs ≡ select other xs
  select-same test other [] h = refl
  select-same test other (x ∷ xs) h = rw (h x, select-same test other xs h)

  pub append_assoc : (xs ys zs : List A) → (xs ++ ys) ++ zs ≡ xs ++ (ys ++ zs)
  append_assoc [] ys zs = refl
  append_assoc (x ∷ xs) ys zs = ap (λ t. x ∷ t) (append_assoc xs ys zs)

module _ {ℓ κ} {A : Type ℓ} {B : Type κ} where
  pub map-append : (f : A → B) (xs ys : List A) → map f (xs ++ ys) ≡ map f xs ++ map f ys
  map-append f [] ys = refl
  map-append f (x ∷ xs) ys = ap (λ t. f x ∷ t) (map-append f xs ys)

module _ {A : Type 0} where
  pub All-map : (P Q : A → Type 0) (xs : List A) → All P xs → ((x : A) → P x → Q x) → All Q xs
  All-map P Q [] h f = h
  All-map P Q (x ∷ xs) h f = (f x h.0, All-map P Q xs h.1 f)

  -- The rows of a selection pass its test.
  pub All-select :
      (P : A → Type 0) (test : A → Bool) (xs : List A)
      → All P xs
      → All (λ x. P x × (test x ≡ true)) (select test xs)
  All-select P test [] h = h
  All-select P test (x ∷ xs) h = go (test x) refl (All-select P test xs h.1)
    where
      go :
          (b : Bool)
          → test x ≡ b
          → All (λ y. P y × (test y ≡ true)) (select test xs)
          → All (λ y. P y × (test y ≡ true)) (if b then x ∷ select test xs else select test xs)
      go true e rest = ((h.0, e), rest)
      go false e rest = rest

  pub any-eq-false :
      (test : A → Bool) (xs : List A) → any test xs ≡ false → All (λ x. test x ≡ false) xs
  any-eq-false test [] h = tt
  any-eq-false test (x ∷ xs) h =
      let (a, b) = or-eq-false (test x) (any test xs) h in (a, any-eq-false test xs b)
