-- ===== src/Store/Moves.antt =====
-- The life of a row of `tasks` or `subtasks` (internal/store/workflow.go): arrows of the status diagram
-- and revisions, and the same for a table to which rows may be appended.
use semantic_framework.Prelude.{
  ℕ, ◌<◌, String, ◌≡◌, refl, sym, ◌∙◌, ◌⊎◌, inl, inr, Bool, true, false, some, List, [], ◌∷◌, ◌++◌,
  ◌==◌, arith, if◌then◌else◌, Bool-cases,
}
use mathlib.Core.Path.{subst}
use semantic_framework.Prelude.Table.{find, update, update_all}
use semantic_framework.Store.Status.{
  Status, pending, paused, allowed_task_transitions, terminal_work_status,
}

-- One arrow: an allowed transition, or the return of a paused row to `pending`.
pub data Move : Status → Status → Type 0 where
  allowed : (s t : Status) → allowed_task_transitions s t ≡ true → Move s t
  requeue : Move paused pending

pub data Moves : Status → Status → Type 0 where
  stay : {s : Status} → Moves s s
  more : {s t u : Status} → Moves s t → Move t u → Moves s u

pub Moves-trans : {s t u : Status} → Moves s t → Moves t u → Moves s u
Moves-trans p stay = p
Moves-trans p (more q m) = more (Moves-trans p q) m

pub Moves-one : {s t : Status} → Move s t → Moves s t
Moves-one m = more stay m

module _ {A : Type 0} (key : A → String) (revision : A → ℕ) (status : A → Status) where
  pub record Later (x y : A) : Type 0 where
    pub same_key : key y ≡ key x
    pub grows : (y ≡ x) ⊎ (revision x < revision y)
    pub follows : Moves (status x) (status y)
    pub frozen : terminal_work_status (status x) ≡ true → y ≡ x

  pub Later-refl : (x : A) → Later x x
  Later-refl x = record { same_key = refl; grows = inl refl; follows = stay; frozen = λ _. refl }

  grows_trans :
      (x y z : A)
      → (y ≡ x) ⊎ (revision x < revision y)
      → (z ≡ y) ⊎ (revision y < revision z)
      → (z ≡ x) ⊎ (revision x < revision z)
  grows_trans x y z (inl p) (inl q) = inl (q ∙ p)
  grows_trans x y z (inl p) (inr q) = inr (subst (λ w. revision w < revision z) p q)
  grows_trans x y z (inr p) (inl q) = inr (subst (λ w. revision x < revision w) (sym q) p)
  grows_trans x y z (inr p) (inr q) = inr (omega arith)

  pub Later-trans : (x y z : A) → Later x y → Later y z → Later x z
  Later-trans x y z p q = record {
    same_key = q.same_key ∙ p.same_key;
    grows = grows_trans x y z p.grows q.grows;
    follows = Moves-trans p.follows q.follows;
    frozen = λ t.
        q.frozen (subst (λ w. terminal_work_status (status w) ≡ true) (sym (p.frozen t)) t)
        ∙ p.frozen t;
  }

  -- Equal revisions mean that nothing was written in between.
  pub Later-same : (x y : A) → Later x y → revision y ≡ revision x → y ≡ x
  Later-same x y p e = elim p.grows [ inl q ↦ q | inr q ↦ absurd (omega arith) ]

  abbrev pub Evolves : List A → List A → Type 0
  Evolves [] ys = Unit
  Evolves (x ∷ xs) [] = ⊥
  Evolves (x ∷ xs) (y ∷ ys) = Later x y × Evolves xs ys

  pub Evolves-refl : (xs : List A) → Evolves xs xs
  Evolves-refl [] = tt
  Evolves-refl (x ∷ xs) = (Later-refl x, Evolves-refl xs)

  pub Evolves-trans : (xs ys zs : List A) → Evolves xs ys → Evolves ys zs → Evolves xs zs
  Evolves-trans [] ys zs p q = tt
  Evolves-trans (x ∷ xs) [] zs p q = absurd p
  Evolves-trans (x ∷ xs) (y ∷ ys) [] p q = absurd q
  Evolves-trans (x ∷ xs) (y ∷ ys) (z ∷ zs) p q =
      (Later-trans x y z p.0 q.0, Evolves-trans xs ys zs p.1 q.1)

  pub Evolves-append : (xs ys : List A) → Evolves xs (xs ++ ys)
  Evolves-append [] ys = tt
  Evolves-append (x ∷ xs) ys = (Later-refl x, Evolves-append xs ys)

  changed : (b : Bool) (x y : A) → (b ≡ true → Later x y) → Later x (if b then y else x)
  changed true x y h = h refl
  changed false x y h = Later-refl x

  -- An `UPDATE` of one row whose change is a step of the row that the key finds.
  pub update-Evolves :
      (k : String) (test : A → Bool) (change : A → A) (xs : List A)
      → ((x : A) → find key k xs ≡ some x → test x ≡ true → Later x (change x))
      → Evolves xs (update key k test change xs)
  unfolding find update
  update-Evolves k test change [] h = tt
  update-Evolves k test change (x ∷ xs) h = elim (Bool-cases (key x == k)) [
    | inl e ↦ rw e (changed (test x) x (change x) (λ t. h x (rw e refl) t), Evolves-refl xs)
    | inr e ↦ rw e (Later-refl x, update-Evolves k test change xs (λ y found t. h y (rw e found) t))
  ]

  pub update_all-Evolves :
      (test : A → Bool) (change : A → A) (xs : List A)
      → ((x : A) → test x ≡ true → Later x (change x))
      → Evolves xs (update_all test change xs)
  unfolding update_all
  update_all-Evolves test change [] h = tt
  update_all-Evolves test change (x ∷ xs) h =
      (changed (test x) x (change x) (h x), update_all-Evolves test change xs h)

  -- A row that was found is found again, at a later stage of its life.
  pub find-Evolves :
      (k : String) (xs ys : List A) (x : A)
      → Evolves xs ys
      → find key k xs ≡ some x
      → (y : A) × (find key k ys ≡ some y) × Later x y
  unfolding find
  find-Evolves k [] ys x p h = cc
  find-Evolves k (w ∷ xs) [] x p h = absurd p
  find-Evolves k (w ∷ xs) (y ∷ ys) x p h = elim (Bool-cases (key w == k)) [
    | inl e ↦ (y, rw (p.0.same_key, e) refl, subst (λ v. Later v y) (ground arith) p.0)
    | inr e ↦ rw (p.0.same_key, e) (find-Evolves k xs ys x p.1 (rw e at h))
  ]
