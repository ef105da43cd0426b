-- ===== src/Store/Acyclic.antt =====
-- What the cycle check of `validateSubTaskDrafts` in internal/store/workflow.go accepts.
use semantic_framework.Prelude.{
  ℕ, zero, suc, ◌+◌, ◌≤◌, String, ◌≡◌, refl, ap, sym, ◌∙◌, Bool, true, false, some, List, [], ◌∷◌,
  ◌++◌, ◌==◌, length, length-append, if◌then◌else◌, arith, eq_iff, subst,
}
use semantic_framework.Store.Graph.{Edge, targets, lower, released, Visit, relax, visit}
use semantic_framework.Store.GraphBounds.{blocked, one_if, potential}
use semantic_framework.Store.Kahn.{times, unmet, blocked-lower_eq, unmet-take}
use semantic_framework.Store.Rounds.{IsCounted, lowered, lowered-IsCounted}

-- Each id was taken after the sources of all edges into it.
abbrev pub IsOrdered : List Edge → List String → Type 0
IsOrdered es [] = Unit
IsOrdered es (x ∷ taken) = (unmet x taken es ≡ 0) × IsOrdered es taken

potential-lowered : (n : String) (v : Visit) → potential (lowered n v) ≡ potential v
potential-lowered n v = go (released n v.indegree) (blocked-lower_eq n v.indegree)
  where
    go :
        (b : Bool)
        → blocked (lower n v.indegree) + one_if b ≡ blocked v.indegree
        → length (if b then v.queue ++ n ∷ [] else v.queue) + blocked (lower n v.indegree)
          ≡ potential v
    go true h = omega (arith, h, length-append v.queue (n ∷ []))
    go false h = omega (arith, h)

module _ (ids : List String) (es : List Edge) where
  relax-IsCounted :
      (ns taken : List String) (v : Visit)
      → IsCounted ids es ns taken v
      → IsCounted ids es [] taken (relax ns v) × (potential (relax ns v) ≡ potential v)
  unfolding relax
  relax-IsCounted [] taken v c = (c, refl)
  relax-IsCounted (n ∷ ns) taken v c =
      let (d, p) =
        relax-IsCounted ns taken (lowered n v) (lowered-IsCounted ids es n ns taken v c) in
      (d, p ∙ potential-lowered n v)

  -- Taking the first id of the queue.
  take-IsCounted :
      (id : String) (queue taken : List String) (v : Visit)
      → v.queue ≡ id ∷ queue
      → IsCounted ids es [] taken v
      → IsCounted ids es (targets id es) (id ∷ taken) (record v { queue = queue })
        × (unmet id taken es ≡ 0)
  take-IsCounted id queue taken v e c = (
    record {
      same_names = c.same_names;
      degree = λ x. c.degree x ∙ omega arith ∙ unmet-take x id taken es fresh;
      once = λ x. subst (λ k. k ≤ 1) (moved x) (c.once x);
      zero_degree = λ x h. c.zero_degree x (subst (λ k. 1 ≤ k) (sym (moved x)) h);
      seen = λ x i z. subst (λ k. 1 ≤ k) (moved x) (c.seen x i z);
    },
    clear,
  )
    where
      self : (id == id) ≡ true
      self = (eq_iff id id).1 refl

      in_queue : times id v.queue ≡ suc (times id queue)
      in_queue = ap (times id) e ∙ ap (λ b. if b then suc (times id queue) else times id queue) self

      fresh : times id taken ≡ 0
      fresh = omega (arith, in_queue, c.once id)

      clear : unmet id taken es ≡ 0
      clear = omega (arith, c.degree id, c.zero_degree id (omega (arith, in_queue)))

      moved : (x : String) → times x v.queue + times x taken ≡ times x queue + times x (id ∷ taken)
      moved x = ap (λ q. times x q + times x taken) e ∙ across (id == x)
        where
          across :
              (b : Bool)
              → (if b then suc (times x queue) else times x queue) + times x taken
                ≡ times x queue + (if b then suc (times x taken) else times x taken)
          across true = omega arith
          across false = omega arith

  -- What is left when the loop ends.
  pub record IsEnd (n total : ℕ) : Type 0 where
    pub taken : List String
    pub final : Visit
    pub counted : IsCounted ids es [] taken final
    pub empty : final.queue ≡ []
    pub ordered : IsOrdered es taken
    pub size : n + blocked final.indegree ≡ total

  pub visit-IsEnd :
      (fuel visited n : ℕ) (v : Visit) (taken : List String)
      → IsCounted ids es [] taken v
      → IsOrdered es taken
      → visit es fuel visited v ≡ some n
      → IsEnd n (visited + potential v)
  unfolding visit
  visit-IsEnd zero visited n v taken c o h = cc
  visit-IsEnd (suc fuel) visited n v taken c o h =
      go (λ w t d p k. visit-IsEnd fuel (visited + 1) n w t d p k) v.queue refl h
    where
      go :
          ((w : Visit) (t : List String)
            → IsCounted ids es [] t w
            → IsOrdered es t
            → visit es fuel (visited + 1) w ≡ some n
            → IsEnd n (visited + 1 + potential w))
          → (q : List String) → v.queue ≡ q
          → elim q [
            | [] ↦ some visited
            | id ∷ queue ↦
                visit es fuel (visited + 1) (relax (targets id es) (record v { queue = queue }))
          ]
            ≡ some n
          → IsEnd n (visited + potential v)
      go later [] e k = record {
        taken = taken;
        final = v;
        counted = c;
        empty = e;
        ordered = o;
        size =
            let q : length v.queue ≡ 0 = ap length e in
            let m : visited ≡ n = number k in omega (arith, q, m);
      }
        where
          number : some visited ≡ some n → visited ≡ n
          number k = cc
      go later (id ∷ queue) e k =
          let (d, clear) = take-IsCounted id queue taken v e c in
          let (r, p) =
            relax-IsCounted (targets id es) (id ∷ taken) (record v { queue = queue }) d in
          let q : length v.queue ≡ suc (length queue) = ap length e in
          let end =
            later (relax (targets id es) (record v { queue = queue })) (id ∷ taken) r (clear, o)
              k in
          subst (IsEnd n) (omega (arith, p, q)) end
