-- ===== src/Store/GraphBounds.antt =====
-- The rounds of Kahn's algorithm in `validateSubTaskDrafts` and `validateDraft` of
-- internal/store/workflow.go.
use semantic_framework.Prelude.{
  ℕ, zero, suc, ◌+◌, ◌-◌, ◌≤◌, ◌<◌, String, ◌≡◌, refl, ap, ◌∙◌, Bool, true, false, some, List, [],
  ◌∷◌, ◌++◌, ◌==◌, eqb, length, length-append, if◌then◌else◌, arith,
}
use semantic_framework.Store.Graph.{
  Edge, Degree, targets, degrees, sources, lower, released, Visit, relax, visit, delete, drain,
}

-- How many ids still have a dependency that has not been visited.
abbrev pub blocked : List Degree → ℕ
blocked [] = 0
blocked (d ∷ ds) = let rest = blocked ds in if eqb d.degree 0 then rest else suc rest

abbrev pub potential : Visit → ℕ
potential v = length v.queue + blocked v.indegree

abbrev pub one_if : Bool → ℕ
one_if true = 1
one_if false = 0

blocked-lower :
    (id : String) (ds : List Degree) → blocked (lower id ds) + one_if (released id ds) ≤ blocked ds
unfolding lower released
blocked-lower id [] = omega arith
blocked-lower id (d ∷ ds) = go (blocked-lower id ds) (d.id == id)
  where
    here :
        (n r : ℕ)
        → (if eqb (n - 1) 0 then r else suc r) + one_if (eqb n 1) ≤ (if eqb n 0 then r else suc r)
    here n r = ground arith

    go :
        blocked (lower id ds) + one_if (released id ds) ≤ blocked ds
        → (b : Bool)
        → blocked (if b then record d { degree = d.degree - 1 } ∷ ds else d ∷ lower id ds)
            + one_if (if b then eqb d.degree 1 else released id ds)
          ≤ (if eqb d.degree 0 then blocked ds else suc (blocked ds))
    go h true = here d.degree (blocked ds)
    go h false = later (eqb d.degree 0) h
      where
        later :
            (c : Bool)
            → blocked (lower id ds) + one_if (released id ds) ≤ blocked ds
            → (if c then blocked (lower id ds) else suc (blocked (lower id ds)))
                + one_if (released id ds)
              ≤ (if c then blocked ds else suc (blocked ds))
        later true h = h
        later false h = omega (arith, h)

relax-potential : (ns : List String) (v : Visit) → potential (relax ns v) ≤ potential v
unfolding relax
relax-potential [] v = omega arith
relax-potential (n ∷ ns) v = omega (
  arith,
  relax-potential ns (record v {
    queue = if released n v.indegree then v.queue ++ n ∷ [] else v.queue;
    indegree = lower n v.indegree;
  }),
  grown (released n v.indegree),
  blocked-lower n v.indegree,
)
  where
    grown :
        (b : Bool) → length (if b then v.queue ++ n ∷ [] else v.queue) ≡ length v.queue + one_if b
    grown true = length-append v.queue (n ∷ [])
    grown false = omega arith

blocked-delete : (id : String) (ds : List Degree) → blocked (delete id ds) ≤ blocked ds
unfolding delete
blocked-delete id [] = omega arith
blocked-delete id (d ∷ ds) = go (blocked-delete id ds) (d.id == id)
  where
    skipped : (c : Bool) (r : ℕ) → r ≤ (if c then r else suc r)
    skipped true r = omega arith
    skipped false r = omega arith

    kept : (c : Bool) (q r : ℕ) → q ≤ r → (if c then q else suc q) ≤ (if c then r else suc r)
    kept true q r h = h
    kept false q r h = omega (arith, h)

    go :
        blocked (delete id ds) ≤ blocked ds
        → (b : Bool)
        → blocked (if b then ds else d ∷ delete id ds)
          ≤ (if eqb d.degree 0 then blocked ds else suc (blocked ds))
    go h true = skipped (eqb d.degree 0) (blocked ds)
    go h false = kept (eqb d.degree 0) (blocked (delete id ds)) (blocked ds) h

pub blocked-sources : (ds : List Degree) → length (sources ds) + blocked ds ≡ length ds
blocked-sources [] = refl
blocked-sources (d ∷ ds) = go (eqb d.degree 0) (blocked-sources ds)
  where
    go :
        (b : Bool)
        → length (sources ds) + blocked ds ≡ length ds
        → length (if b then d.id ∷ sources ds else sources ds)
            + (if b then blocked ds else suc (blocked ds))
          ≡ suc (length ds)
    go true h = omega (arith, h)
    go false h = omega (arith, h)

pub length-degrees : (ids : List String) (es : List Edge) → length (degrees ids es) ≡ length ids
length-degrees [] es = refl
length-degrees (id ∷ ids) es = ap suc (length-degrees ids es)

-- The state before the first round.
abbrev pub first_visit : List String → List Edge → Visit
first_visit ids es = record { queue = sources (degrees ids es); indegree = degrees ids es }

visit-ends :
    (es : List Edge) (fuel visited : ℕ) (v : Visit)
    → potential v < fuel
    → (n : ℕ) × (visit es fuel visited v ≡ some n) × (n ≤ visited + potential v)
unfolding visit
visit-ends es zero visited v h = absurd (omega (arith, h))
visit-ends es (suc fuel) visited v h = go (λ w k. visit-ends es fuel (visited + 1) w k) v.queue refl
  where
    go :
        ((w : Visit)
          → potential w < fuel
          → (n : ℕ) × (visit es fuel (visited + 1) w ≡ some n) × (n ≤ visited + 1 + potential w))
        → (q : List String) → v.queue ≡ q
        → (n : ℕ) × (elim q [
          | [] ↦ some visited
          | id ∷ queue ↦
              visit es fuel (visited + 1) (relax (targets id es) (record v { queue = queue }))
        ]
            ≡ some n)
          × (n ≤ visited + potential v)
    go later [] e = (visited, refl, omega arith)
    go later (id ∷ queue) e =
        let w : Visit = record v { queue = queue } in
        let shrinks : potential (relax (targets id es) w) ≤ potential w =
          relax-potential (targets id es) w in
        let taken : length v.queue ≡ suc (length queue) = ap length e in
        let (n, found, bound) =
          later (relax (targets id es) w) (omega (arith, h, shrinks, taken)) in
        (n, found, omega (arith, bound, shrinks, taken))

drain-ends :
    (es : List Edge) (fuel : ℕ) (v : Visit)
    → potential v < fuel
    → (ds : List Degree) × (drain es fuel v ≡ some ds)
unfolding drain
drain-ends es zero v h = absurd (omega (arith, h))
drain-ends es (suc fuel) v h = go (λ w k. drain-ends es fuel w k) v.queue refl
  where
    go :
        ((w : Visit) → potential w < fuel → (ds : List Degree) × (drain es fuel w ≡ some ds))
        → (q : List String) → v.queue ≡ q
        → (ds : List Degree) × (elim q [
          | [] ↦ some v.indegree
          | id ∷ queue ↦
              drain es fuel
                (relax (targets id es) (record { queue = queue; indegree = delete id v.indegree }))
        ]
            ≡ some ds)
    go later [] e = (v.indegree, refl)
    go later (id ∷ queue) e =
        let w : Visit = record { queue = queue; indegree = delete id v.indegree } in
        let shrinks : potential (relax (targets id es) w) ≤ potential w =
          relax-potential (targets id es) w in
        let fewer : blocked (delete id v.indegree) ≤ blocked v.indegree =
          blocked-delete id v.indegree in
        let taken : length v.queue ≡ suc (length queue) = ap length e in
        later (relax (targets id es) w) (omega (arith, h, shrinks, fewer, taken))

-- Both loops of the graph check end: over any ids and edges, cyclic or not, the loop over the queue
-- makes at most one round for each id, so that the loop that counts the visited ids ends with
-- a count of at most the number of ids, and the loop that deletes them ends as well.
pub visit-drain_terminate :
    (ids : List String) (es : List Edge)
    → ((n : ℕ) × (visit es (suc (length ids)) 0 (first_visit ids es) ≡ some n) × (n ≤ length ids))
      × ((ds : List Degree) × (drain es (suc (length ids)) (first_visit ids es) ≡ some ds))
visit-drain_terminate ids es =
    let size : potential (first_visit ids es) ≡ length ids =
      blocked-sources (degrees ids es) ∙ length-degrees ids es in
    let (n, found, bound) =
      visit-ends es (suc (length ids)) 0 (first_visit ids es) (omega (arith, size)) in
    (
      (n, found, omega (arith, bound, size)),
      drain-ends es (suc (length ids)) (first_visit ids es) (omega (arith, size)),
    )
