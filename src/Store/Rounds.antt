-- ===== src/Store/Rounds.antt =====
-- The rounds of `validateSubTaskDrafts` in internal/store/workflow.go: what holds before each.
use semantic_framework.Prelude.{
  ℕ, zero, suc, ◌+◌, ◌-◌, ◌≤◌, String, ◌≡◌, refl, ap, sym, ◌∙◌, Bool, true, false, List, [], ◌∷◌,
  ◌++◌, ◌==◌, eqb, if◌then◌else◌, arith, eq_iff, Bool-cases, inl, inr, subst,
}
use semantic_framework.Store.Graph.{Edge, Degree, lower, released, Visit}
use semantic_framework.Store.GraphBounds.{one_if}
use semantic_framework.Store.Kahn.{
  times, times-append, degree_of, unmet, degree_of-lower, degree_of-lower_other, released-degree,
}

abbrev pub names : List Degree → List String
names [] = []
names (d ∷ ds) = d.id ∷ names ds

pub names-lower : (x : String) (ds : List Degree) → names (lower x ds) ≡ names ds
unfolding lower
names-lower x [] = refl
names-lower x (d ∷ ds) = elim (Bool-cases (d.id == x)) [
  | inl e ↦ rw e
  | inr e ↦ rw e (ap (λ t. d.id ∷ t) (names-lower x ds))
]

-- With `left` still to be lowered: the degrees count the edges from ids that were not taken, an
-- id of degree 0 waits in the queue or was taken, and nothing does so twice.
pub record IsCounted (ids : List String) (es : List Edge) (left taken : List String) (v : Visit)
    : Type 0 where
  pub same_names : names v.indegree ≡ ids
  pub degree : (x : String) → degree_of x v.indegree ≡ unmet x taken es + times x left
  pub once : (x : String) → times x v.queue + times x taken ≤ 1
  pub zero_degree : (x : String) → 1 ≤ times x v.queue + times x taken → degree_of x v.indegree ≡ 0
  pub seen :
      (x : String)
      → 1 ≤ times x ids
      → degree_of x v.indegree ≡ 0
      → 1 ≤ times x v.queue + times x taken

-- One decrement of `indegree`, and the queue after it.
abbrev pub lowered : String → Visit → Visit
lowered n v = record v {
  queue = if released n v.indegree then v.queue ++ n ∷ [] else v.queue;
  indegree = lower n v.indegree;
}

times-grown :
    (x n : String) (b : Bool) (q : List String)
    → times x (if b then q ++ n ∷ [] else q) ≡ times x q + (if n == x then one_if b else 0)
times-grown x n true q = times-append x q (n ∷ []) ∙ ap (λ k. times x q + k) (one (n == x))
  where
    one : (c : Bool) → (if c then 1 else 0) ≡ (if c then one_if true else 0)
    one true = refl
    one false = refl
times-grown x n false q = go (n == x)
  where
    go : (c : Bool) → times x q ≡ times x q + (if c then one_if false else 0)
    go true = omega arith
    go false = omega arith

module _ (ids : List String) (es : List Edge) where
  pub lowered-IsCounted :
      (n : String) (ns taken : List String) (v : Visit)
      → IsCounted ids es (n ∷ ns) taken v
      → IsCounted ids es ns taken (lowered n v)
  lowered-IsCounted n ns taken v c = record {
    same_names = names-lower n v.indegree ∙ c.same_names;
    degree = λ x. (parts x (n == x) refl).0;
    once = λ x. (parts x (n == x) refl).1;
    zero_degree = λ x. (parts x (n == x) refl).2;
    seen = λ x. (parts x (n == x) refl).3;
  }
    where
      b : Bool
      b = released n v.indegree

      parts :
          (x : String) (m : Bool)
          → (n == x) ≡ m
          → (degree_of x (lower n v.indegree) ≡ unmet x taken es + times x ns)
            × (times x (lowered n v).queue + times x taken ≤ 1)
            × (1 ≤ times x (lowered n v).queue + times x taken
                → degree_of x (lower n v.indegree) ≡ 0)
            × (1 ≤ times x ids
                → degree_of x (lower n v.indegree) ≡ 0
                → 1 ≤ times x (lowered n v).queue + times x taken)
      parts x false e =
          let same : degree_of x (lower n v.indegree) ≡ degree_of x v.indegree =
            degree_of-lower_other n x v.indegree e in
          let q : times x (lowered n v).queue ≡ times x v.queue =
            times-grown x n b v.queue
            ∙ ap (λ m. times x v.queue + (if m then one_if b else 0)) e
            ∙ omega arith in
          let d : degree_of x v.indegree ≡ unmet x taken es + times x ns =
            c.degree x
            ∙ ap (λ m. unmet x taken es + (if m then suc (times x ns) else times x ns)) e in
          (
            same ∙ d,
            subst (λ k. k + times x taken ≤ 1) (sym q) (c.once x),
            λ h. same ∙ c.zero_degree x (subst (λ k. 1 ≤ k + times x taken) q h),
            λ i z. subst (λ k. 1 ≤ k + times x taken) (sym q) (c.seen x i (sym same ∙ z)),
          )
      parts x true e =
          let own : n ≡ x = (eq_iff n x).0 e in
          let less : degree_of x (lower n v.indegree) ≡ degree_of x v.indegree - 1 =
            ap (λ k. degree_of x (lower k v.indegree)) own ∙ degree_of-lower x v.indegree in
          let d : degree_of x v.indegree ≡ unmet x taken es + suc (times x ns) =
            c.degree x
            ∙ ap (λ m. unmet x taken es + (if m then suc (times x ns) else times x ns)) e in
          let r : b ≡ eqb (degree_of x v.indegree) 1 =
            released-degree n v.indegree ∙ ap (λ k. eqb (degree_of k v.indegree) 1) own in
          let q : times x (lowered n v).queue ≡ times x v.queue + one_if b =
            times-grown x n b v.queue ∙ ap (λ m. times x v.queue + (if m then one_if b else 0)) e in
          own_parts x (degree_of x v.indegree) (times x v.queue) (times x taken) b
            (unmet x taken es) (times x ns) (degree_of x (lower n v.indegree))
            (times x (lowered n v).queue) less d r q (c.once x) (c.zero_degree x)
        where
          own_parts :
              (x : String) (deg queue took : ℕ) (b : Bool) (u t deg' queue' : ℕ)
              → deg' ≡ deg - 1
              → deg ≡ u + suc t
              → b ≡ eqb deg 1
              → queue' ≡ queue + one_if b
              → queue + took ≤ 1
              → (1 ≤ queue + took → deg ≡ 0)
              → (deg' ≡ u + t)
                × (queue' + took ≤ 1)
                × (1 ≤ queue' + took → deg' ≡ 0)
                × (1 ≤ times x ids → deg' ≡ 0 → 1 ≤ queue' + took)
          own_parts x deg queue took b u t deg' queue' less d r q once z =
              let none : queue + took ≡ 0 = empty (queue + took) once z in split b none q r
            where
              empty : (k : ℕ) → k ≤ 1 → (1 ≤ k → deg ≡ 0) → k ≡ 0
              empty zero h z = refl
              empty (suc k) h z =
                  let zz : deg ≡ 0 = z (omega arith) in absurd (omega (arith, zz, d))

              split :
                  (b : Bool)
                  → queue + took ≡ 0
                  → queue' ≡ queue + one_if b
                  → b ≡ eqb deg 1
                  → (deg' ≡ u + t)
                    × (queue' + took ≤ 1)
                    × (1 ≤ queue' + took → deg' ≡ 0)
                    × (1 ≤ times x ids → deg' ≡ 0 → 1 ≤ queue' + took)
              split true none q r =
                  let one : deg ≡ 1 = ground arith in
                  (omega arith, omega arith, λ h. omega arith, λ i h. omega arith)
              split false none q r =
                  (omega arith, omega arith, λ h. absurd (omega arith), λ i h. ground arith)
