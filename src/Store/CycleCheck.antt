-- ===== src/Store/CycleCheck.antt =====
-- The cycle check of `validateSubTaskDrafts` in internal/store/workflow.go against what a cycle is.
use semantic_framework.Prelude.{
  ℕ, suc, ◌+◌, ◌≤◌, String, ◌≡◌, refl, ap, sym, ◌∙◌, Bool, true, false, ◌&&◌, List, [], ◌∷◌, ◌==◌,
  eqb, if◌then◌else◌, arith, All, eq_iff, inl, inr, ◌⊎◌,
}
use semantic_framework.Store.Graph.{Edge, count_target, degrees, sources}
use semantic_framework.Store.GraphBounds.{first_visit}
use semantic_framework.Store.Kahn.{times, degree_of, unmet}
use semantic_framework.Store.Rounds.{names, IsCounted}

names-degrees : (ids : List String) (es : List Edge) → names (degrees ids es) ≡ ids
names-degrees [] es = refl
names-degrees (id ∷ ids) es = ap (λ t. id ∷ t) (names-degrees ids es)

unmet-count : (x : String) (es : List Edge) → unmet x [] es ≡ count_target x es
unmet-count x [] = refl
unmet-count x (e ∷ es) = go (e.target == x) (unmet-count x es)
  where
    go :
        (b : Bool)
        → unmet x [] es ≡ count_target x es
        → (if b && eqb 0 0 then suc (unmet x [] es) else unmet x [] es)
          ≡ (if b then suc (count_target x es) else count_target x es)
    go true h = ap suc h
    go false h = h

degree_of-degrees :
    (x : String) (ids : List String) (es : List Edge)
    → (1 ≤ times x ids) ⊎ (count_target x es ≡ 0)
    → degree_of x (degrees ids es) ≡ count_target x es
degree_of-degrees x [] es (inl h) = absurd (omega arith)
degree_of-degrees x [] es (inr h) = sym h
degree_of-degrees x (id ∷ ids) es h = go (degree_of-degrees x ids es) (id == x) refl h
  where
    go :
        ((1 ≤ times x ids) ⊎ (count_target x es ≡ 0)
          → degree_of x (degrees ids es) ≡ count_target x es)
        → (b : Bool) → (id == x) ≡ b
        → (1 ≤ (if b then suc (times x ids) else times x ids)) ⊎ (count_target x es ≡ 0)
        → (if b then count_target id es else degree_of x (degrees ids es)) ≡ count_target x es
    go later true e h = ap (λ k. count_target k es) ((eq_iff id x).0 e)
    go later false e h = later h

times-sources :
    (x : String) (ids : List String) (es : List Edge)
    → times x (sources (degrees ids es)) ≡ (if eqb (count_target x es) 0 then times x ids else 0)
times-sources x [] es = go (eqb (count_target x es) 0)
  where
    go : (b : Bool) → ◌≡◌ {A = ℕ} 0 (if b then 0 else 0)
    go true = refl
    go false = refl
times-sources x (id ∷ ids) es =
    go (eqb (count_target id es) 0) refl (id == x) refl (times-sources x ids es)
  where
    rest : ℕ
    rest = times x (sources (degrees ids es))

    go :
        (z : Bool)
        → eqb (count_target id es) 0 ≡ z
        → (b : Bool) → (id == x) ≡ b
        → rest ≡ (if eqb (count_target x es) 0 then times x ids else 0)
        → times x (if z then id ∷ sources (degrees ids es) else sources (degrees ids es)) ≡ (
            if eqb (count_target x es) 0 then (if b then suc (times x ids) else times x ids) else 0)
    go true p true q h =
        let own : id ≡ x = (eq_iff id x).0 q in
        let p' : eqb (count_target x es) 0 ≡ true = rw (← own) p in
        rw q (rw p' (ap suc (rw p' at h)))
    go false p true q h =
        let own : id ≡ x = (eq_iff id x).0 q in
        let p' : eqb (count_target x es) 0 ≡ false = rw (← own) p in rw p' (rw p' at h)
    go true p false q h = rw q h
    go false p false q h = h

module _ (ids : List String) (es : List Edge) where
  -- The ids are different, and the edges are among them.
  pub record IsGraph : Type 0 where
    pub distinct : (x : String) → times x ids ≤ 1
    pub targets_known : (x : String) → (1 ≤ times x ids) ⊎ (count_target x es ≡ 0)
    pub sources_known : All (λ e. 1 ≤ times e.source ids) es

  pub first-IsCounted : IsGraph → IsCounted ids es [] [] (first_visit ids es)
  first-IsCounted g = record {
    same_names = names-degrees ids es;
    degree =
        λ x. degree_of-degrees x ids es (g.targets_known x) ∙ sym (unmet-count x es) ∙ omega arith;
    once = λ x. (parts x (eqb (count_target x es) 0) refl).0;
    zero_degree = λ x. (parts x (eqb (count_target x es) 0) refl).1;
    seen = λ x. (parts x (eqb (count_target x es) 0) refl).2;
  }
    where
      parts :
          (x : String) (b : Bool)
          → eqb (count_target x es) 0 ≡ b
          → (times x (sources (degrees ids es)) + 0 ≤ 1)
            × (1 ≤ times x (sources (degrees ids es)) + 0 → degree_of x (degrees ids es) ≡ 0)
            × (1 ≤ times x ids
                → degree_of x (degrees ids es) ≡ 0
                → 1 ≤ times x (sources (degrees ids es)) + 0)
      parts x b e =
          split b e (times-sources x ids es ∙ ap (λ c. if c then times x ids else 0) e)
            (degree_of-degrees x ids es (g.targets_known x)) (g.distinct x)
        where
          split :
              (b : Bool)
              → eqb (count_target x es) 0 ≡ b
              → times x (sources (degrees ids es)) ≡ (if b then times x ids else 0)
              → degree_of x (degrees ids es) ≡ count_target x es
              → times x ids ≤ 1
              → (times x (sources (degrees ids es)) + 0 ≤ 1)
                × (1 ≤ times x (sources (degrees ids es)) + 0 → degree_of x (degrees ids es) ≡ 0)
                × (1 ≤ times x ids
                    → degree_of x (degrees ids es) ≡ 0
                    → 1 ≤ times x (sources (degrees ids es)) + 0)
          split true e t d o =
              let z : count_target x es ≡ 0 = ground arith in
              (omega arith, λ h. omega arith, λ i k. omega arith)
          split false e t d o = (
            omega arith,
            λ h. absurd (omega arith),
            λ i k. let z : count_target x es ≡ 0 = sym d ∙ k in absurd (ground arith),
          )
