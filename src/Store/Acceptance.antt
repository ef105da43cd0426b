-- ===== src/Store/Acceptance.antt =====
-- The cycle check of `validateSubTaskDrafts` in internal/store/workflow.go, in both directions.
use semantic_framework.Prelude.{
  ℕ, zero, suc, ◌+◌, ◌≤◌, ◌<◌, String, ◌≡◌, ◌↔◌, refl, ap, sym, ◌∙◌, Bool, true, false, ◌&&◌, none,
  some, List, [], ◌∷◌, ◌==◌, eqb, length, if◌then◌else◌, arith, All, eq_iff, subst,
}
use semantic_framework.Store.Graph.{Edge, Degree, is_acyclic}
use semantic_framework.Store.GraphBounds.{
  blocked, potential, first_visit, blocked-sources, length-degrees, visit-drain_terminate,
}
use semantic_framework.Store.Kahn.{times, degree_of, unmet}
use semantic_framework.Store.Rounds.{names}
use semantic_framework.Store.Acyclic.{IsOrdered, IsEnd, visit-IsEnd}
use semantic_framework.Store.CycleCheck.{IsGraph, first-IsCounted}
use semantic_framework.Store.Cycles.{degree_of-blocked, rank, rank-edge, unmet-met}

All-ranked :
    (es fs : List Edge) (taken : List String)
    → ((x : String) (p : List String)
        → unmet x p es ≡ 0
        → All (λ e. (x == e.target) ≡ true → 1 ≤ times e.source p) fs)
    → IsOrdered es taken
    → ((x : String) → unmet x taken es ≡ 0)
    → All (λ e. rank taken e.source < rank taken e.target) fs
All-ranked es [] taken met o z = tt
All-ranked es (e ∷ fs) taken met o z = (
  rank-edge es e.source e.target (λ p h. (met e.target p h).0 ((eq_iff e.target e.target).1 refl))
      taken o (z e.target),
  All-ranked es fs taken (λ x p h. (met x p h).1) o z,
)

blocked-zero :
    (ds : List Degree)
    → ((x : String) → times x (names ds) ≤ 1)
    → ((x : String) → 1 ≤ times x (names ds) → degree_of x ds ≡ 0)
    → blocked ds ≡ 0
blocked-zero [] once zero_at = refl
blocked-zero (d ∷ ds) once zero_at =
    let self : (d.id == d.id) ≡ true = (eq_iff d.id d.id).1 refl in
    let here : d.degree ≡ 0 =
      ap (λ b. if b then d.degree else degree_of d.id ds) (sym self)
      ∙ zero_at d.id (
          subst (λ b. 1 ≤ (if b then suc (times d.id (names ds)) else times d.id (names ds)))
            (sym self) (omega arith)) in
    let rest : blocked ds ≡ 0 =
      blocked-zero ds (λ x. fewer x (d.id == x) (once x))
        (λ x h. later x (d.id == x) refl h (zero_at x)) in
    rw here rest
  where
    fewer :
        (x : String) (b : Bool)
        → (if b then suc (times x (names ds)) else times x (names ds)) ≤ 1
        → times x (names ds) ≤ 1
    fewer x true h = omega (arith, h)
    fewer x false h = h

    later :
        (x : String) (b : Bool)
        → (d.id == x) ≡ b
        → 1 ≤ times x (names ds)
        → (1 ≤ (if d.id == x then suc (times x (names ds)) else times x (names ds))
            → (if d.id == x then d.degree else degree_of x ds) ≡ 0)
        → degree_of x ds ≡ 0
    later x true e h z =
        let two : suc (times x (names ds)) ≤ 1 =
          subst (λ b. (if b then suc (times x (names ds)) else times x (names ds)) ≤ 1) e
            (once x) in
        absurd (omega (arith, two, h))
    later x false e h z =
        subst (λ b. (if b then d.degree else degree_of x ds) ≡ 0) e
          (z (
            subst (λ b. 1 ≤ (if b then suc (times x (names ds)) else times x (names ds))) (sym e)
              h))

-- An id whose edges all come from ids that were taken has none unmet.
unmet-none :
    (r : String → ℕ) (ids taken : List String) (x : String) (fs : List Edge)
    → All (λ e. r e.source < r e.target) fs
    → All (λ e. 1 ≤ times e.source ids) fs
    → ((s : String) → r s < r x → 1 ≤ times s ids → 1 ≤ times s taken)
    → unmet x taken fs ≡ 0
unmet-none r ids taken x [] less known below = refl
unmet-none r ids taken x (e ∷ fs) less known below =
    go (e.target == x) refl (times e.source taken) refl
      (unmet-none r ids taken x fs less.1 known.1 below)
  where
    go :
        (b : Bool)
        → (e.target == x) ≡ b
        → (n : ℕ) → times e.source taken ≡ n
        → unmet x taken fs ≡ 0
        → (if b && eqb n 0 then suc (unmet x taken fs) else unmet x taken fs) ≡ 0
    go false p n q h = h
    go true p (suc n) q h = ground (arith, h)
    go true p zero q h =
        let own : e.target ≡ x = (eq_iff e.target x).0 p in
        let met : 1 ≤ times e.source taken =
          below e.source (subst (λ t. r e.source < r t) own less.0) known.0 in
        absurd (omega (arith, q, met))

module _ (ids : List String) (es : List Edge) (g : IsGraph ids es) where
  module _ (r : String → ℕ) (less : All (λ e. r e.source < r e.target) es) (n total : ℕ)
      (end : IsEnd ids es n total) where
    -- In a ranked graph nothing is left when the queue is empty.
    zero_below :
        (k : ℕ) (x : String) → r x < k → 1 ≤ times x ids → degree_of x end.final.indegree ≡ 0
    zero_below zero x h i = absurd (omega arith)
    zero_below (suc k) x h i =
        let none : unmet x end.taken es ≡ 0 =
          unmet-none r ids end.taken x es less g.sources_known
            (λ s l m. waited s (end.counted.seen s m (zero_below k s (omega (arith, l, h)) m))) in
        end.counted.degree x ∙ omega (arith, none)
      where
        waited :
            (s : String) → 1 ≤ times s end.final.queue + times s end.taken → 1 ≤ times s end.taken
        waited s h =
            let none : times s end.final.queue ≡ 0 = ap (times s) end.empty in
            omega (arith, none, h)

    nothing_left : blocked end.final.indegree ≡ 0
    nothing_left =
        blocked-zero end.final.indegree
          (λ x. subst (λ l. times x l ≤ 1) (sym end.counted.same_names) (g.distinct x))
          (λ x h.
            zero_below (suc (r x)) x (omega arith)
              (subst (λ l. 1 ≤ times x l) end.counted.same_names h))

  -- Over different ids and edges among them, Kahn's algorithm accepts exactly the graphs without a
  -- cycle: those whose ids can be numbered so that every edge goes from a smaller number to a
  -- larger one. A plan that is accepted can be carried out in the order of the numbers, and no plan
  -- that could be is rejected for its dependencies.
  pub is_acyclic_iff :
      (is_acyclic ids es ≡ true) ↔ ((r : String → ℕ) × All (λ e. r e.source < r e.target) es)
  unfolding is_acyclic
  is_acyclic_iff =
      let (n, found, bound) = (visit-drain_terminate ids es).0 in
      let end =
        visit-IsEnd ids es (suc (length ids)) 0 n (first_visit ids es) [] (first-IsCounted ids es g)
          tt found in
      let size : potential (first_visit ids es) ≡ length ids =
        blocked-sources _ ∙ length-degrees ids es in
      let answer : is_acyclic ids es ≡ eqb n (length ids) =
        ap (λ o. elim o [ none ↦ false | some visited ↦ eqb visited (length ids) ]) found in
      (
        λ h.
            let clear : blocked end.final.indegree ≡ 0 = all_taken n end (sym answer ∙ h) size in
            (
              rank end.taken,
              All-ranked es es end.taken (λ x p. unmet-met x p es) end.ordered
                  (λ x. met_all n end x (degree_of-blocked x end.final.indegree clear)),
            ),
        λ p. answer ∙ counted n end (nothing_left p.0 p.1 n _ end) size,
      )
    where
      all_taken :
          (n : ℕ) (end : IsEnd ids es n (0 + potential (first_visit ids es)))
          → eqb n (length ids) ≡ true
          → potential (first_visit ids es) ≡ length ids
          → blocked end.final.indegree ≡ 0
      all_taken n end h size =
          let e : n ≡ length ids = ground arith in omega (arith, e, size, end.size)

      met_all :
          (n : ℕ) (end : IsEnd ids es n (0 + potential (first_visit ids es))) (x : String)
          → degree_of x end.final.indegree ≡ 0
          → unmet x end.taken es ≡ 0
      met_all n end x z = omega (arith, z, end.counted.degree x)

      counted :
          (n : ℕ) (end : IsEnd ids es n (0 + potential (first_visit ids es)))
          → blocked end.final.indegree ≡ 0
          → potential (first_visit ids es) ≡ length ids
          → eqb n (length ids) ≡ true
      counted n end z size =
          let e : n ≡ length ids = omega (arith, z, size, end.size) in rw e (ground arith)
