-- ===== src/Store/Graph.antt =====
-- The graph check of the drafts (`validateDraft`, `validateSubTaskDrafts` in
-- internal/store/workflow.go): Kahn's algorithm over the edges (dependency, dependent).
-- `adjacency[id]` is the list of the targets of the edges that leave `id`, in the order in which
-- they were appended; `indegree` is an association list. Go ranges over its maps in any order; the
-- model goes in the order of the draft.
use semantic_framework.Prelude.{
  ℕ, zero, suc, ◌+◌, ◌-◌, String, Bool, true, false, Option, none, some, List, [], ◌∷◌, ◌++◌, ◌==◌,
  eqb, length, if◌then◌else◌,
}

pub record Edge : Type 0 where
  pub source : String
  pub target : String

pub record Degree : Type 0 where
  pub id : String
  pub degree : ℕ

-- `adjacency[id]`
abbrev pub targets : String → List Edge → List String
targets id [] = []
targets id (e ∷ es) = let rest = targets id es in if e.source == id then e.target ∷ rest else rest

abbrev pub count_target : String → List Edge → ℕ
count_target id [] = 0
count_target id (e ∷ es) =
    let rest = count_target id es in if e.target == id then suc rest else rest

-- `indegree` after all its increments.
abbrev pub degrees : List String → List Edge → List Degree
degrees [] es = []
degrees (id ∷ ids) es = record { id = id; degree = count_target id es } ∷ degrees ids es

-- The first queue: the ids of degree 0.
abbrev pub sources : List Degree → List String
sources [] = []
sources (d ∷ ds) = let rest = sources ds in if eqb d.degree 0 then d.id ∷ rest else rest

-- `indegree[id]--`. A degree of 0 would go below 0 in Go, which no later test takes for 0; it stays
-- at 0 here, and `released` is false.
unfoldable pub lower : String → List Degree → List Degree
lower id [] = []
lower id (d ∷ ds) = if d.id == id then record d { degree = d.degree - 1 } ∷ ds else d ∷ lower id ds

-- `indegree[id] == 0` after the decrement.
unfoldable pub released : String → List Degree → Bool
released id [] = false
released id (d ∷ ds) = if d.id == id then eqb d.degree 1 else released id ds

pub record Visit : Type 0 where
  pub queue : List String
  pub indegree : List Degree

-- `for _, next := range adjacency[id]`
unfoldable pub relax : List String → Visit → Visit
unfolding lower released
relax [] v = v
relax (next ∷ rest) v = relax rest (record v {
  queue = if released next v.indegree then v.queue ++ next ∷ [] else v.queue;
  indegree = lower next v.indegree;
})

-- `for len(queue) > 0`, with fuel. The result is `visited`.
unfoldable pub visit : List Edge → ℕ → ℕ → Visit → Option ℕ
unfolding relax
visit es zero visited v = none
visit es (suc fuel) visited v = elim v.queue [
  | [] ↦ some visited
  | id ∷ queue ↦ visit es fuel (visited + 1) (relax (targets id es) (record v { queue = queue }))
]

-- `visited == len(ids)`. One round more than there are ids is enough.
unfoldable pub is_acyclic : List String → List Edge → Bool
unfolding visit
is_acyclic ids es =
    let start = degrees ids es in
    elim (visit es (suc (length ids)) 0 (record { queue = sources start; indegree = start })) [
      | none ↦ false
      | some visited ↦ eqb visited (length ids)
    ]

-- `delete(indegree, id)`
unfoldable pub delete : String → List Degree → List Degree
delete id [] = []
delete id (d ∷ ds) = if d.id == id then ds else d ∷ delete id ds

-- The loop of `validateDraft`, which deletes each id that it takes from the queue and counts
-- nothing. A decrement meets no deleted id: an id is taken when its last edge has been lowered.
unfoldable pub drain : List Edge → ℕ → Visit → Option (List Degree)
unfolding relax delete
drain es zero v = none
drain es (suc fuel) v = elim v.queue [
  | [] ↦ some v.indegree
  | id ∷ queue ↦
      drain es fuel
        (relax (targets id es) (record { queue = queue; indegree = delete id v.indegree }))
]

abbrev none_left : List Degree → Bool
none_left [] = true
none_left (d ∷ ds) = false

-- `len(indegree) == 0` at the end.
unfoldable pub is_drained : List String → List Edge → Bool
unfolding drain
is_drained ids es =
    let start = degrees ids es in
    elim (drain es (suc (length ids)) (record { queue = sources start; indegree = start })) [
      | none ↦ false
      | some rest ↦ none_left rest
    ]
