-- ===== src/Prelude/Sort.antt =====
-- `ORDER BY` and `LIMIT` of the statements of internal/store.
use Prim.Native.Nat.{ℕ, zero, suc}
use Prim.Native.String.{String}
use mathlib.Core.Path.{◌≡◌, refl, sym, ◌∙◌, subst}
use native.Mathlib.Omega.{arith}
use mathlib.Core.Bool.{Bool, true, false, ◌&&◌, ◌||◌}
use mathlib.Core.List.{List, [], ◌∷◌}
use mathlib.Core.Logic.{inl, inr}
use package.semantic_framework.Prelude.Tests.{ltb, eqb, if◌then◌else◌, Bool-cases}
use package.semantic_framework.Prelude.Lists.{All, length, select}
use package.semantic_framework.Prelude.Text.{text_lt}

-- `ORDER BY`: `before` is the strict order of the clause.
module _ {A : Type 0} (before : A → A → Bool) where
  insert_ordered : A → List A → List A
  insert_ordered x [] = x ∷ []
  insert_ordered x (y ∷ ys) =
      let rest = insert_ordered x ys in if before y x then y ∷ rest else x ∷ y ∷ ys

  unfoldable pub order_by : List A → List A
  unfolding insert_ordered
  order_by [] = []
  order_by (x ∷ xs) = insert_ordered x (order_by xs)

-- The order of two columns, a number and then a text.
abbrev pub column_order : ℕ → String → ℕ → String → Bool
column_order m s n t = ltb m n || eqb m n && text_lt s t

module _ {ℓ} {A : Type ℓ} where
  abbrev pub take : ℕ → List A → List A
  take zero xs = []
  take (suc n) [] = []
  take (suc n) (x ∷ xs) = x ∷ take n xs

  -- `if limit > 0 { query += " LIMIT ?" }`
  abbrev pub limited : ℕ → List A → List A
  limited zero rows = rows
  limited (suc n) rows = take (suc n) rows

module _ {A : Type 0} (before : A → A → Bool) where
  -- A row that does not come after the first row of the sorted ones stays in front.
  pub order_by-cons :
      (x y : A) (ys : List A)
      → before y x ≡ false
      → order_by before (y ∷ ys) ≡ y ∷ ys
      → order_by before (x ∷ y ∷ ys) ≡ x ∷ y ∷ ys
  unfolding order_by insert_ordered
  order_by-cons x y ys h sorted =
      subst (λ rows. insert_ordered before x rows ≡ x ∷ y ∷ ys) (sym sorted) (rw h)

module _ {A : Type 0} (before : A → A → Bool) (P : A → Type 0) where
  All-insert_ordered : (x : A) (ys : List A) → P x → All P ys → All P (insert_ordered before x ys)
  unfolding insert_ordered
  All-insert_ordered x [] h hs = (h, hs)
  All-insert_ordered x (y ∷ ys) h hs = elim (Bool-cases (before y x)) [
    | inl t ↦ rw t (hs.0, All-insert_ordered x ys h hs.1)
    | inr t ↦ rw t (h, hs)
  ]

  pub All-order_by : (xs : List A) → All P xs → All P (order_by before xs)
  unfolding order_by
  All-order_by [] h = h
  All-order_by (x ∷ xs) h = All-insert_ordered x (order_by before xs) h.0 (All-order_by xs h.1)

module _ {A : Type 0} (before : A → A → Bool) where
  -- No row comes before the one in front of it.
  abbrev pub IsOrdered : List A → Type 0
  IsOrdered [] = Unit
  IsOrdered (x ∷ []) = Unit
  IsOrdered (x ∷ y ∷ ys) = (before y x ≡ false) × IsOrdered (y ∷ ys)

  module _ (asymmetric : (x y : A) → before x y ≡ true → before y x ≡ false) where
    insert_ordered-IsOrdered :
        (x : A) (ys : List A) → IsOrdered ys → IsOrdered (insert_ordered before x ys)
    unfolding insert_ordered
    insert_ordered-IsOrdered x [] h = tt
    insert_ordered-IsOrdered x (y ∷ []) h = elim (Bool-cases (before y x)) [
      | inl t ↦ rw t (asymmetric y x t, tt)
      | inr t ↦ rw t (t, tt)
    ]
    insert_ordered-IsOrdered x (y ∷ z ∷ zs) h = elim (Bool-cases (before y x)) [
      | inl t ↦ rw t (below (before z x) refl t (insert_ordered-IsOrdered x (z ∷ zs) h.1))
      | inr t ↦ rw t (t, h)
    ]
      where
        below :
            (b : Bool)
            → before z x ≡ b
            → before y x ≡ true
            → IsOrdered (if b then z ∷ insert_ordered before x zs else x ∷ z ∷ zs)
            → IsOrdered (y ∷ (if b then z ∷ insert_ordered before x zs else x ∷ z ∷ zs))
        below true e t r = (h.0, r)
        below false e t r = (asymmetric y x t, r)

    pub order_by-IsOrdered : (xs : List A) → IsOrdered (order_by before xs)
    unfolding order_by
    order_by-IsOrdered [] = tt
    order_by-IsOrdered (x ∷ xs) =
        insert_ordered-IsOrdered x (order_by before xs) (order_by-IsOrdered xs)

  -- Rows in order stay as they are.
  pub order_by-same : (xs : List A) → IsOrdered xs → order_by before xs ≡ xs
  unfolding order_by insert_ordered
  order_by-same [] h = refl
  order_by-same (x ∷ []) h = refl
  order_by-same (x ∷ y ∷ ys) h = order_by-cons before x y ys h.0 (order_by-same (y ∷ ys) h.1)

-- Sorting keeps how many rows pass a test.
module _ {A : Type 0} (before : A → A → Bool) (test : A → Bool) where
  length-select-insert_ordered :
      (x : A) (ys : List A)
      → length (select test (insert_ordered before x ys)) ≡ length (select test (x ∷ ys))
  unfolding insert_ordered
  length-select-insert_ordered x [] = refl
  length-select-insert_ordered x (y ∷ ys) = ground (arith, length-select-insert_ordered x ys)

  pub length-select-order_by :
      (xs : List A) → length (select test (order_by before xs)) ≡ length (select test xs)
  unfolding order_by
  length-select-order_by [] = refl
  length-select-order_by (x ∷ xs) =
      length-select-insert_ordered x (order_by before xs)
      ∙ ground (arith, length-select-order_by xs)
