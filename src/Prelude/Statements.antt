-- ===== src/Prelude/Statements.antt =====
-- What a statement makes of the rows of a table.
use mathlib.Core.Path.{◌≡◌, refl, ap}
use mathlib.Core.Logic.{◌⊎◌, inl, inr}
use mathlib.Core.Bool.{Bool, true, false}
use mathlib.Core.Option.{some}
use mathlib.Core.List.{List, [], ◌∷◌}
use Prim.Native.String.{String}
use text.Mathlib.Text.{◌==◌}
use package.semantic_framework.Prelude.Tests.{if◌then◌else◌, Bool-cases}
use package.semantic_framework.Prelude.Table.{find, update, update_all}

module _ {A : Type 0} (key : A → String) where
  -- A row after a statement on some key, and after one on the rows that pass a test: it is the row
  -- as it was, or it passed the test and is the row that the statement makes of it.
  pub find-update_any :
      (k : String) (test : A → Bool) (change : A → A) (xs : List A) (j : String) (x : A)
      → ((y : A) → key (change y) ≡ key y)
      → find key j xs ≡ some x
      → (y : A) × (find key j (update key k test change xs) ≡ some y)
        × ((y ≡ x) ⊎ ((test x ≡ true) × (y ≡ change x)))
  unfolding find update
  find-update_any k test change [] j x same h = cc
  find-update_any k test change (z ∷ xs) j x same h = elim (Bool-cases (key z == k)) [
    | inl e ↦ rw e (head (test z) refl (key z == j) refl h)
    | inr e ↦ rw e (tail (key z == j) refl h (find-update_any k test change xs j x same))
  ]
    where
      head :
          (t : Bool)
          → test z ≡ t
          → (b : Bool) → (key z == j) ≡ b
          → find key j (z ∷ xs) ≡ some x
          → (y : A) × (find key j ((if t then change z else z) ∷ xs) ≡ some y)
            × ((y ≡ x) ⊎ ((test x ≡ true) × (y ≡ change x)))
      head t p true q h =
          let e : some z ≡ some x = rw q at h in
          let r : z ≡ x = cc in
          elim (Bool-cases t) [
            | inl v ↦ (
              change x,
              rw (v, same z, q) (ap (λ w. some (change w)) r),
              inr (rw (← r, p) v, refl),
            )
            | inr v ↦ (x, rw (v, q) e, inl refl)
          ]
      head t p false q h = elim (Bool-cases t) [
        | inl v ↦ (x, rw (v, same z, q) (rw q at h), inl refl)
        | inr v ↦ (x, rw (v, q) (rw q at h), inl refl)
      ]

      tail :
          (b : Bool)
          → (key z == j) ≡ b
          → find key j (z ∷ xs) ≡ some x
          → (find key j xs ≡ some x
              → (y : A) × (find key j (update key k test change xs) ≡ some y)
                × ((y ≡ x) ⊎ ((test x ≡ true) × (y ≡ change x))))
          → (y : A) × (find key j (z ∷ update key k test change xs) ≡ some y)
            × ((y ≡ x) ⊎ ((test x ≡ true) × (y ≡ change x)))
      tail true q h ih = (x, rw q (rw q at h), inl refl)
      tail false q h ih = rw q (ih (rw q at h))

  pub find-update_all :
      (test : A → Bool) (change : A → A) (xs : List A) (j : String) (x : A)
      → ((y : A) → key (change y) ≡ key y)
      → find key j xs ≡ some x
      → (y : A) × (find key j (update_all test change xs) ≡ some y)
        × ((y ≡ x) ⊎ ((test x ≡ true) × (y ≡ change x)))
  unfolding find update_all
  find-update_all test change [] j x same h = cc
  find-update_all test change (z ∷ xs) j x same h =
      head (test z) refl (key z == j) refl h (find-update_all test change xs j x same)
    where
      head :
          (t : Bool)
          → test z ≡ t
          → (b : Bool) → (key z == j) ≡ b
          → find key j (z ∷ xs) ≡ some x
          → (find key j xs ≡ some x
              → (y : A) × (find key j (update_all test change xs) ≡ some y)
                × ((y ≡ x) ⊎ ((test x ≡ true) × (y ≡ change x))))
          → (y : A) × (find key j ((if t then change z else z) ∷ update_all test change xs)
              ≡ some y)
            × ((y ≡ x) ⊎ ((test x ≡ true) × (y ≡ change x)))
      head true p true q h ih =
          let e : some z ≡ some x = rw q at h in
          let r : z ≡ x = cc in
          (change x, rw (same z, q) (ap (λ w. some (change w)) r), inr (rw (← r) p, refl))
      head false p true q h ih = (x, rw q (rw q at h), inl refl)
      head true p false q h ih = rw (same z, q) (ih (rw q at h))
      head false p false q h ih = rw q (ih (rw q at h))
