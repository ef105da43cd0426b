-- ===== src/Store/Cycles.antt =====
-- The cycle check of `validateSubTaskDrafts` in internal/store/workflow.go, in both directions.
use semantic_framework.Prelude.{
  ℕ, zero, suc, ◌≤◌, ◌<◌, String, ◌≡◌, refl, ap, sym, ◌∙◌, Bool, true, false, ◌&&◌, List, [], ◌∷◌,
  ◌==◌, eqb, length, if◌then◌else◌, arith, All, eq_iff, inl, inr, ◌⊎◌,
}
use semantic_framework.Store.Graph.{Edge, Degree}
use semantic_framework.Store.GraphBounds.{blocked}
use semantic_framework.Store.Kahn.{times, degree_of, unmet}
use semantic_framework.Store.Acyclic.{IsOrdered}

pub degree_of-blocked : (x : String) (ds : List Degree) → blocked ds ≡ 0 → degree_of x ds ≡ 0
degree_of-blocked x [] h = refl
degree_of-blocked x (d ∷ ds) h = go (degree_of-blocked x ds) (d.id == x) (eqb d.degree 0) refl h
  where
    go :
        (blocked ds ≡ 0 → degree_of x ds ≡ 0)
        → (b c : Bool) → eqb d.degree 0 ≡ c
        → (if c then blocked ds else suc (blocked ds)) ≡ 0
        → (if b then d.degree else degree_of x ds) ≡ 0
    go later b false e h = absurd (omega (arith, h))
    go later true true e h = ground arith
    go later false true e h = later h

-- How many ids were taken before the first time that an id was.
abbrev pub rank : List String → String → ℕ
rank [] x = 0
rank (y ∷ taken) x =
    let rest = rank taken x in
    if eqb (times x taken) 0 then (if y == x then length taken else suc (length taken)) else rest

rank-bound :
    (taken : List String) (x : String)
    → (rank taken x ≤ length taken)
      × ((1 ≤ times x taken) ⊎ (rank taken x ≡ length taken))
      × ((times x taken ≡ 0) ⊎ (rank taken x < length taken))
rank-bound [] x = (omega arith, inr refl, inl refl)
rank-bound (y ∷ taken) x = go (times x taken) (y == x) (rank-bound taken x)
  where
    go :
        (n : ℕ) (b : Bool)
        → (rank taken x ≤ length taken)
          × ((1 ≤ n) ⊎ (rank taken x ≡ length taken))
          × ((n ≡ 0) ⊎ (rank taken x < length taken))
        → ((if eqb n 0 then (if b then length taken else suc (length taken)) else rank taken x)
            ≤ suc (length taken))
          × ((1 ≤ (if b then suc n else n))
              ⊎ ((if eqb n 0
                    then (if b then length taken else suc (length taken))
                    else rank taken x)
                  ≡ suc (length taken)))
          × (((if b then suc n else n) ≡ 0)
              ⊎ ((if eqb n 0
                    then (if b then length taken else suc (length taken))
                    else rank taken x)
                  < suc (length taken)))
    go zero true h = (omega arith, inl (omega arith), inr (omega arith))
    go zero false h = (omega arith, inr refl, inl refl)
    go (suc n) b h = (ground (arith, h.0), inl (ground arith), inr (ground (arith, h.0, h.2)))

-- An id that was taken has a smaller number than those that were not.
pub rank-taken :
    (taken : List String) (x : String) → 1 ≤ times x taken → rank taken x < length taken
rank-taken taken x h = elim (rank-bound taken x).2 [
  | inl z ↦ absurd (omega (arith, z, h))
  | inr l ↦ l
]

rank-waiting : (taken : List String) (x : String) → times x taken ≡ 0 → rank taken x ≡ length taken
rank-waiting taken x h = elim (rank-bound taken x).1 [
  | inl l ↦ absurd (omega (arith, h, l))
  | inr e ↦ e
]

module _ (es : List Edge) (source target : String)
    (met : (taken : List String) → unmet target taken es ≡ 0 → 1 ≤ times source taken) where
  -- In the order in which the ids were taken, the source of an edge comes before its target.
  rank-edge_taken :
      (taken : List String)
      → IsOrdered es taken
      → 1 ≤ times target taken
      → rank taken source < rank taken target
  rank-edge_taken [] o h = absurd (omega arith)
  rank-edge_taken (y ∷ taken) o h =
      go (times target taken) refl (y == target) refl h (rank-edge_taken taken o.1)
    where
      source_taken : 1 ≤ times source taken → rank (y ∷ taken) source ≡ rank taken source
      source_taken l = let z : eqb (times source taken) 0 ≡ false = ground (arith, l) in rw z

      go :
          (n : ℕ)
          → times target taken ≡ n
          → (b : Bool) → (y == target) ≡ b
          → 1 ≤ (if b then suc n else n)
          → (1 ≤ n → rank taken source < rank taken target)
          → rank (y ∷ taken) source < (
              if eqb n 0
              then (if b then length taken else suc (length taken))
              else rank taken target)
      go zero e false p l later = absurd (omega arith)
      go zero e true p l later =
          let q : y ≡ target = (eq_iff y target).0 p in
          let s : 1 ≤ times source taken = met taken (ap (λ x. unmet x taken es) (sym q) ∙ o.0) in
          rw (source_taken s) (rank-taken taken source s)
      go (suc n) e b p l later =
          let less : rank taken source < rank taken target = later (omega arith) in
          let s : 1 ≤ times source taken = known (times source taken) refl less in
          rw (source_taken s) (kept n b less)
        where
          known : (k : ℕ) → times source taken ≡ k → rank taken source < rank taken target → 1 ≤ k
          known zero z less =
              absurd (omega (arith, rank-waiting taken source z, (rank-bound taken target).0, less))
          known (suc k) z less = omega arith

          kept :
              (n : ℕ) (b : Bool)
              → rank taken source < rank taken target
              → rank taken source < (
                  if eqb (suc n) 0
                  then (if b then length taken else suc (length taken))
                  else rank taken target)
          kept n b less = ground arith

  pub rank-edge :
      (taken : List String)
      → IsOrdered es taken
      → unmet target taken es ≡ 0
      → rank taken source < rank taken target
  rank-edge taken o z = go (times target taken) refl
    where
      go : (n : ℕ) → times target taken ≡ n → rank taken source < rank taken target
      go zero e = rw (rank-waiting taken target e) (rank-taken taken source (met taken z))
      go (suc n) e = rank-edge_taken taken o (omega (arith, e))

-- An edge whose target has no unmet edge left has a source that was taken.
pub unmet-met :
    (x : String) (taken : List String) (es : List Edge)
    → unmet x taken es ≡ 0
    → All (λ e. (x == e.target) ≡ true → 1 ≤ times e.source taken) es
unmet-met x taken [] h = tt
unmet-met x taken (e ∷ es) h =
    go (e.target == x) refl (times e.source taken) refl h (unmet-met x taken es)
  where
    go :
        (b : Bool)
        → (e.target == x) ≡ b
        → (n : ℕ) → times e.source taken ≡ n
        → (if b && eqb n 0 then suc (unmet x taken es) else unmet x taken es) ≡ 0
        → (unmet x taken es ≡ 0 → All (λ e. (x == e.target) ≡ true → 1 ≤ times e.source taken) es)
        → ((x == e.target) ≡ true → 1 ≤ times e.source taken)
          × All (λ e. (x == e.target) ≡ true → 1 ≤ times e.source taken) es
    go true p zero q h later = absurd (omega (arith, h))
    go true p (suc n) q h later = (λ t. omega (arith, q), later (kept h))
      where
        kept :
            (if eqb (suc n) 0 then suc (unmet x taken es) else unmet x taken es) ≡ 0
            → unmet x taken es ≡ 0
        kept h = ground arith
    go false p n q h later = (λ t. absurd (apart t), later h)
      where
        apart : (x == e.target) ≡ true → ⊥
        apart t =
            let s : x ≡ e.target = (eq_iff x e.target).0 t in
            let r : (e.target == x) ≡ true = (eq_iff e.target x).1 (sym s) in cc
