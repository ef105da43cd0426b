-- ===== src/Prelude/Table.antt =====
-- Tables of the database as lists of rows in order of insertion: the forms of SQL that the store
-- uses. A table has a primary key, so a statement that names a key meets at most one row.
use mathlib.Core.Path.{◌≡◌, refl, sym, ap, ◌∙◌}
use mathlib.Core.Logic.{inl, inr}
use native.Mathlib.Omega.{arith}
use mathlib.Core.Bool.{Bool, true, false}
use mathlib.Core.Option.{Option, none, some}
use mathlib.Core.List.{List, [], ◌∷◌, ◌++◌}
use Prim.Native.String.{String}
use text.Mathlib.TextEquality.{eq_iff}
use text.Mathlib.Text.{◌==◌}
use package.semantic_framework.Prelude.Tests.{if◌then◌else◌, Bool-cases}

module _ {ℓ} {A : Type ℓ} (key : A → String) where
  -- `SELECT … WHERE id=?`
  unfoldable pub find : String → List A → Option A
  find k [] = none
  find k (x ∷ xs) = if key x == k then some x else find k xs

  -- `UPDATE … SET change WHERE id=? AND test`: the rows and whether one was affected.
  unfoldable pub update : String → (A → Bool) → (A → A) → List A → List A
  update k test change [] = []
  update k test change (x ∷ xs) =
      if key x == k then (if test x then change x else x) ∷ xs else x ∷ update k test change xs

  unfoldable pub affected : String → (A → Bool) → List A → Bool
  affected k test [] = false
  affected k test (x ∷ xs) = if key x == k then test x else affected k test xs

module _ {ℓ} {A : Type ℓ} where
  -- `UPDATE … SET change WHERE test`
  unfoldable pub update_all : (A → Bool) → (A → A) → List A → List A
  update_all test change [] = []
  update_all test change (x ∷ xs) = (if test x then change x else x) ∷ update_all test change xs

module _ {A : Type 0} (key : A → String) where
  -- A statement affects a row when the row of its key is there and passes the test.
  pub affected-find :
      (k : String) (test : A → Bool) (xs : List A)
      → affected key k test xs ≡ true
      → (x : A) × (find key k xs ≡ some x) × (test x ≡ true)
  unfolding affected find
  affected-find k test [] h = cc
  affected-find k test (x ∷ xs) h = elim (Bool-cases (key x == k)) [
    | inl e ↦ (x, rw e, rw e at h)
    | inr e ↦ rw e (affected-find k test xs (rw e at h))
  ]

  pub find-affected :
      (k : String) (test : A → Bool) (xs : List A) (x : A)
      → find key k xs ≡ some x
      → affected key k test xs ≡ test x
  unfolding affected find
  find-affected k test [] x h = cc
  find-affected k test (y ∷ xs) x h = elim (Bool-cases (key y == k)) [
    | inl e ↦ rw e (ground arith)
    | inr e ↦ rw e (find-affected k test xs x (rw e at h))
  ]

  -- What is found under the key after the statement.
  pub find-update :
      (k : String) (test : A → Bool) (change : A → A) (xs : List A) (x : A)
      → find key k xs ≡ some x
      → test x ≡ true
      → key (change x) ≡ key x
      → find key k (update key k test change xs) ≡ some (change x)
  unfolding find update
  find-update k test change [] x h t same = cc
  find-update k test change (y ∷ xs) x h t same = elim (Bool-cases (key y == k)) [
    | inl e ↦ rw e (found y e (rw e at h))
    | inr e ↦ rw (e, e) (find-update k test change xs x (rw e at h) t same)
  ]
    where
      found :
          (y : A)
          → (key y == k) ≡ true
          → some y ≡ some x
          → find key k ((if test y then change y else y) ∷ xs) ≡ some (change x)
      found y e p = let q : y ≡ x = cc in rw (q, t) (rw (same, ← q, e) (rw q))

  -- A row is found under its own key.
  pub find-key : (k : String) (xs : List A) (x : A) → find key k xs ≡ some x → key x ≡ k
  unfolding find
  find-key k [] x h = cc
  find-key k (y ∷ xs) x h = elim (Bool-cases (key y == k)) [
    | inl e ↦ let same : y ≡ x = some-inj (rw e at h) in ap key (sym same) ∙ (eq_iff (key y) k).0 e
    | inr e ↦ find-key k xs x (rw e at h)
  ]
    where
      some-inj : {y x : A} → some y ≡ some x → y ≡ x
      some-inj e = cc

  -- Rows are found in the first part of a table, or else in the second.
  pub find-append_some :
      (k : String) (xs ys : List A) (x : A)
      → find key k xs ≡ some x
      → find key k (xs ++ ys) ≡ some x
  unfolding find
  find-append_some k [] ys x h = cc
  find-append_some k (y ∷ xs) ys x h = elim (Bool-cases (key y == k)) [
    | inl e ↦ rw e (rw e at h)
    | inr e ↦ rw e (find-append_some k xs ys x (rw e at h))
  ]

  pub find-append_none :
      (k : String) (xs ys : List A) → find key k xs ≡ none → find key k (xs ++ ys) ≡ find key k ys
  unfolding find
  find-append_none k [] ys h = refl
  find-append_none k (y ∷ xs) ys h = elim (Bool-cases (key y == k)) [
    | inl e ↦ let n : some y ≡ none = rw e at h in cc
    | inr e ↦ rw e (find-append_none k xs ys (rw e at h))
  ]

  pub find-append_other :
      (k : String) (xs : List A) (y : A)
      → (key y == k) ≡ false
      → find key k (xs ++ y ∷ []) ≡ find key k xs
  unfolding find
  find-append_other k [] y h = rw h
  find-append_other k (x ∷ xs) y h = elim (Bool-cases (key x == k)) [
    | inl e ↦ rw e
    | inr e ↦ rw e (find-append_other k xs y h)
  ]

  -- A statement on one key leaves the rows of the others.
  pub find-update_other :
      (k j : String) (change : A → A) (xs : List A)
      → (k == j) ≡ false
      → ((x : A) → key (change x) ≡ key x)
      → find key j (update key k (λ x. true) change xs) ≡ find key j xs
  unfolding find update
  find-update_other k j change [] h same = refl
  find-update_other k j change (x ∷ xs) h same = elim (Bool-cases (key x == k)) [
    | inl e ↦ rw e (missed (key x == j) refl e)
    | inr e ↦
        rw e (ap (λ o. if key x == j then some x else o) (find-update_other k j change xs h same))
  ]
    where
      missed :
          (b : Bool)
          → (key x == j) ≡ b
          → (key x == k) ≡ true
          → find key j (change x ∷ xs) ≡ (if b then some x else find key j xs)
      missed b e hit =
          let q : key x ≡ k = (eq_iff (key x) k).0 hit in
          let f : (key x == j) ≡ false = rw q h in let g : b ≡ false = cc in rw (same x, f, g)

  pub find-append_new :
      (k : String) (xs : List A) (y : A)
      → find key k xs ≡ none
      → (key y == k) ≡ true
      → find key k (xs ++ y ∷ []) ≡ some y
  unfolding find
  find-append_new k xs y h mine = find-append_none k xs (y ∷ []) h ∙ rw mine
