-- ===== src/Projects/Counting.antt =====
-- How many projects are active, and what the statements of internal/store/project.go make of that number.
use semantic_framework.Prelude.{
  ℕ, ◌+◌, ◌≤◌, String, Bool, true, false, not, ◌&&◌, ◌||◌, List, [], ◌∷◌, ◌++◌, some, ◌==◌, is_some,
  any, All, ◌≡◌, refl, ap, ◌∙◌, if◌then◌else◌, Bool-cases, inl, inr, arith,
}
use semantic_framework.Prelude.Table.{find, update, update_all}
use semantic_framework.Projects.Rows.{Project, project_key, is_open}

abbrev pub flag : Bool → ℕ
flag true = 1
flag false = 0

abbrev pub active_count : List Project → ℕ
active_count [] = 0
active_count (p ∷ ps) = flag p.is_active + active_count ps

-- An active project is not in the archive.
abbrev pub IsShown : Project → Type 0
IsShown p = (p.is_active && is_some p.archived_at) ≡ false

flag_le : (b : Bool) → flag b ≤ 1
flag_le true = omega arith
flag_le false = omega arith

module _ (k : String) (test : Project → Bool) (change : Project → Project) where
  pub active_count-update_same :
      (xs : List Project)
      → ((x : Project) → (change x).is_active ≡ x.is_active)
      → active_count (update project_key k test change xs) ≡ active_count xs
  unfolding update
  active_count-update_same [] s = refl
  active_count-update_same (x ∷ xs) s = elim (Bool-cases (x.id == k)) [
    | inl f ↦ elim (Bool-cases (test x)) [ inl t ↦ rw (f, t, s x) refl | inr t ↦ rw (f, t) refl ]
    | inr f ↦ rw f (ap (λ n. flag x.is_active + n) (active_count-update_same xs s))
  ]

  -- One row more at most, whatever the statement writes.
  pub active_count-update_le :
      (xs : List Project) → active_count (update project_key k test change xs) ≤ active_count xs + 1
  unfolding update
  active_count-update_le [] = omega arith
  active_count-update_le (x ∷ xs) = elim (Bool-cases (x.id == k)) [
    | inl f ↦ elim (Bool-cases (test x)) [
      | inl t ↦ rw (f, t) (omega (arith, flag_le (change x).is_active))
      | inr t ↦ rw (f, t) (omega arith)
    ]
    | inr f ↦ rw f (omega (arith, active_count-update_le xs))
  ]

  pub active_count-update_off :
      (xs : List Project)
      → ((x : Project) → (change x).is_active ≡ false)
      → active_count (update project_key k test change xs) ≤ active_count xs
  unfolding update
  active_count-update_off [] s = omega arith
  active_count-update_off (x ∷ xs) s = elim (Bool-cases (x.id == k)) [
    | inl f ↦ elim (Bool-cases (test x)) [
      | inl t ↦ rw (f, t, s x) (omega arith)
      | inr t ↦ rw (f, t) (omega arith)
    ]
    | inr f ↦ rw f (omega (arith, active_count-update_off xs s))
  ]

  -- One row less when the row that is met was active.
  pub active_count-update_found :
      (xs : List Project) (p : Project)
      → find project_key k xs ≡ some p
      → p.is_active ≡ true
      → test p ≡ true
      → ((x : Project) → (change x).is_active ≡ false)
      → active_count (update project_key k test change xs) + 1 ≡ active_count xs
  unfolding find update
  active_count-update_found [] p h a t s = cc
  active_count-update_found (x ∷ xs) p h a t s = elim (Bool-cases (x.id == k)) [
    | inl f ↦
        let e : some x ≡ some p = rw f at h in
        let r : x ≡ p = cc in rw (f, r, t, s p, a) (omega arith)
    | inr f ↦ rw f (omega (arith, active_count-update_found xs p (rw f at h) a t s))
  ]

zero_plus : {n : ℕ} → n ≡ 0 → 0 + n ≡ 0
zero_plus h = omega arith

pub active_count-deactivated :
    (change : Project → Project) (xs : List Project)
    → ((x : Project) → (change x).is_active ≡ false)
    → active_count (update_all (λ p. p.is_active) change xs) ≡ 0
unfolding update_all
active_count-deactivated change [] s = refl
active_count-deactivated change (x ∷ xs) s =
    go x.is_active refl (active_count-deactivated change xs s)
  where
    go :
        (b : Bool)
        → x.is_active ≡ b
        → active_count (update_all (λ p. p.is_active) change xs) ≡ 0
        → flag (if b then change x else x).is_active
            + active_count (update_all (λ p. p.is_active) change xs)
          ≡ 0
    go true e ih =
        ap (λ b. flag b + active_count (update_all (λ p. p.is_active) change xs)) (s x)
        ∙ zero_plus ih
    go false e ih =
        ap (λ b. flag b + active_count (update_all (λ p. p.is_active) change xs)) e ∙ zero_plus ih

pub active_count-append :
    (xs : List Project) (p : Project)
    → p.is_active ≡ false
    → active_count (xs ++ p ∷ []) ≡ active_count xs
active_count-append [] p h = rw h refl
active_count-append (x ∷ xs) p h = omega (arith, active_count-append xs p h)

-- None is active when none is active outside the archive.
pub active_count-none :
    (xs : List Project) → All IsShown xs → any is_open xs ≡ false → active_count xs ≡ 0
active_count-none [] h n = refl
active_count-none (x ∷ xs) h n =
    go x.is_active (is_some x.archived_at) (any is_open xs) h.0 n (active_count-none xs h.1)
  where
    go :
        (a b c : Bool)
        → (a && b) ≡ false
        → ((a && not b) || c) ≡ false
        → (c ≡ false → active_count xs ≡ 0)
        → flag a + active_count xs ≡ 0
    go true true c s t r = cc
    go true false c s t r = cc
    go false b c s t r = omega (arith, r t)
