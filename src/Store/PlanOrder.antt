-- ===== src/Store/PlanOrder.antt =====
-- The order in which the steps of an accepted plan of internal/store/workflow.go can be done.
use semantic_framework.Prelude.{
  >>-ok, guard-ok, ℕ, zero, suc, ◌≤◌, ◌<◌, String, ◌≡◌, ◌↔◌, refl, ap, sym, ◌∙◌, Bool, true, false,
  List, [], ◌∷◌, ◌++◌, ◌==◌, if◌then◌else◌, arith, All, All-append, inl, inr, ◌⊎◌, Result, ok,
  guard, ◌>>=◌, ◌>>◌, invalid_state,
}
use semantic_framework.Store.Rows.{SubTaskDraft}
use semantic_framework.Store.Graph.{Edge, count_target, is_acyclic}
use semantic_framework.Store.Draft.{
  sub_draft_ids, edges_to, sub_edges, check_dependencies, check_all_dependencies, fill_sub_drafts,
  not_empty, validate_sub_task_drafts,
}
use semantic_framework.Store.Kahn.{times}
use semantic_framework.Store.CycleCheck.{IsGraph}
use semantic_framework.Store.Acceptance.{is_acyclic_iff}
use semantic_framework.Store.Accepted.{mem_text-times, fill_sub_drafts-distinct}

check_dependencies-known :
    (id : String) (known deps : List String)
    → check_dependencies id known deps ≡ ok tt
    → All (λ e. 1 ≤ times e.source known) (edges_to id deps)
unfolding check_dependencies
check_dependencies-known id known [] h = tt
check_dependencies-known id known (d ∷ ds) h =
    let (a, h1) = >>-ok _ _ tt h in
    let (b, h2) = >>-ok _ _ tt h1 in
    (mem_text-times d known (guard-ok _ _ b), check_dependencies-known id known ds h2)

check_all_dependencies-known :
    (known : List String) (ss : List SubTaskDraft)
    → check_all_dependencies known ss ≡ ok tt
    → All (λ e. 1 ≤ times e.source known) (sub_edges ss)
unfolding check_all_dependencies
check_all_dependencies-known known [] h = tt
check_all_dependencies-known known (s ∷ ss) h =
    let (a, h1) =
      >>-ok (check_dependencies s.id known s.depends_on) (check_all_dependencies known ss) tt h in
    All-append (λ e. 1 ≤ times e.source known) (edges_to s.id s.depends_on) (sub_edges ss)
      (check_dependencies-known s.id known s.depends_on a)
      (check_all_dependencies-known known ss h1)

count_target-append :
    (x : String) (es fs : List Edge)
    → count_target x es ≡ 0
    → count_target x fs ≡ 0
    → count_target x (es ++ fs) ≡ 0
count_target-append x [] fs h k = k
count_target-append x (e ∷ es) fs h k = go (e.target == x) h (λ l. count_target-append x es fs l k)
  where
    go :
        (b : Bool)
        → (if b then suc (count_target x es) else count_target x es) ≡ 0
        → (count_target x es ≡ 0 → count_target x (es ++ fs) ≡ 0)
        → (if b then suc (count_target x (es ++ fs)) else count_target x (es ++ fs)) ≡ 0
    go true h later = absurd (omega (arith, h))
    go false h later = later h

edges_to-others :
    (x id : String) (deps : List String) → (id == x) ≡ false → count_target x (edges_to id deps) ≡ 0
edges_to-others x id [] h = refl
edges_to-others x id (d ∷ ds) h = rw h (edges_to-others x id ds h)

-- An id that is no step's has no edge into it.
sub_edges-others :
    (x : String) (ss : List SubTaskDraft)
    → times x (sub_draft_ids ss) ≡ 0
    → count_target x (sub_edges ss) ≡ 0
sub_edges-others x [] h = refl
sub_edges-others x (s ∷ ss) h = go (s.id == x) refl h (sub_edges-others x ss)
  where
    go :
        (b : Bool)
        → (s.id == x) ≡ b
        → (if b then suc (times x (sub_draft_ids ss)) else times x (sub_draft_ids ss)) ≡ 0
        → (times x (sub_draft_ids ss) ≡ 0 → count_target x (sub_edges ss) ≡ 0)
        → count_target x (edges_to s.id s.depends_on ++ sub_edges ss) ≡ 0
    go true e h later = absurd (omega (arith, h))
    go false e h later =
        count_target-append x (edges_to s.id s.depends_on) (sub_edges ss)
          (edges_to-others x s.id s.depends_on e) (later h)

-- The numbers of the steps go up along the dependencies.
abbrev pub IsLayered : (String → ℕ) → List SubTaskDraft → Type 0
IsLayered r ss = All (λ s. All (λ d. r d < r s.id) s.depends_on) ss

module _ (r : String → ℕ) where
  edges-IsLayered :
      (id : String) (deps : List String)
      → All (λ d. r d < r id) deps ↔ All (λ e. r e.source < r e.target) (edges_to id deps)
  edges-IsLayered id [] = (λ h. tt, λ h. tt)
  edges-IsLayered id (d ∷ ds) =
      (λ h. (h.0, (edges-IsLayered id ds).0 h.1), λ h. (h.0, (edges-IsLayered id ds).1 h.1))

  All-parts :
      (es fs : List Edge)
      → All (λ e. r e.source < r e.target) (es ++ fs)
      → All (λ e. r e.source < r e.target) es × All (λ e. r e.source < r e.target) fs
  All-parts [] fs h = (tt, h)
  All-parts (e ∷ es) fs h = let (a, b) = All-parts es fs h.1 in ((h.0, a), b)

  sub_edges-IsLayered :
      (ss : List SubTaskDraft) → IsLayered r ss ↔ All (λ e. r e.source < r e.target) (sub_edges ss)
  sub_edges-IsLayered [] = (λ h. tt, λ h. tt)
  sub_edges-IsLayered (s ∷ ss) = (
    λ h.
        All-append (λ e. r e.source < r e.target) (edges_to s.id s.depends_on) (sub_edges ss)
          ((edges-IsLayered s.id s.depends_on).0 h.0) ((sub_edges-IsLayered ss).0 h.1),
    λ h.
        let (a, b) = All-parts (edges_to s.id s.depends_on) (sub_edges ss) h in
        ((edges-IsLayered s.id s.depends_on).1 a, (sub_edges-IsLayered ss).1 b),
  )

filled-IsGraph :
    (new : ℕ → String) (items filled : List SubTaskDraft)
    → fill_sub_drafts new 0 [] items ≡ ok filled
    → check_all_dependencies (sub_draft_ids filled) filled ≡ ok tt
    → IsGraph (sub_draft_ids filled) (sub_edges filled)
filled-IsGraph new items filled h k = record {
  distinct = λ x. let d = fill_sub_drafts-distinct new 0 [] items filled h x in omega (arith, d);
  targets_known = λ x. known x (times x (sub_draft_ids filled)) refl;
  sources_known = check_all_dependencies-known (sub_draft_ids filled) filled k;
}
  where
    known :
        (x : String) (n : ℕ)
        → times x (sub_draft_ids filled) ≡ n
        → (1 ≤ times x (sub_draft_ids filled)) ⊎ (count_target x (sub_edges filled) ≡ 0)
    known x zero e = inr (sub_edges-others x filled e)
    known x (suc n) e = inl (omega (arith, e))

-- A plan that is not empty, whose goals, kinds and ids are as they should be and whose steps
-- depend on other steps of the plan, is accepted exactly if its steps can be numbered so that each
-- one has a larger number than those it depends on. An accepted plan can be carried out in that
-- order, and no plan that could be is rejected by the check for cycles.
pub validate_sub_task_drafts_iff :
    (new : ℕ → String) (items filled : List SubTaskDraft)
    → not_empty new items ≡ true
    → fill_sub_drafts new 0 [] items ≡ ok filled
    → check_all_dependencies (sub_draft_ids filled) filled ≡ ok tt
    → (validate_sub_task_drafts new items ≡ ok filled) ↔ ((r : String → ℕ) × IsLayered r filled)
unfolding validate_sub_task_drafts
validate_sub_task_drafts_iff new items filled some_step h k =
    let graph = filled-IsGraph new items filled h k in
    let cycles = is_acyclic_iff (sub_draft_ids filled) (sub_edges filled) graph in
    (
      λ v. let (r, ranked) = cycles.0 (accepted v) in (r, (sub_edges-IsLayered r filled).1 ranked),
      λ p. answer (cycles.1 (p.0, (sub_edges-IsLayered p.0 filled).0 p.1)),
    )
  where
    verdict : Bool → Result (List SubTaskDraft)
    verdict b = guard b invalid_state >> ok filled

    computed :
        validate_sub_task_drafts new items
        ≡ verdict (is_acyclic (sub_draft_ids filled) (sub_edges filled))
    computed =
        ap
          (λ b.
            guard b invalid_state
            >> (fill_sub_drafts new 0 [] items >>= λ filled.
                check_all_dependencies (sub_draft_ids filled) filled
                >> (guard (is_acyclic (sub_draft_ids filled) (sub_edges filled)) invalid_state
                    >> ok filled)))
          some_step
        ∙ ap
            (λ q. q >>= λ filled.
              check_all_dependencies (sub_draft_ids filled) filled
              >> (guard (is_acyclic (sub_draft_ids filled) (sub_edges filled)) invalid_state
                  >> ok filled))
            h
        ∙ ap
            (λ q.
              q
              >> (guard (is_acyclic (sub_draft_ids filled) (sub_edges filled)) invalid_state
                  >> ok filled))
            k

    accepted :
        validate_sub_task_drafts new items ≡ ok filled
        → is_acyclic (sub_draft_ids filled) (sub_edges filled) ≡ true
    accepted v = go (is_acyclic (sub_draft_ids filled) (sub_edges filled)) (sym computed ∙ v)
      where
        go : (b : Bool) → verdict b ≡ ok filled → b ≡ true
        go true e = refl
        go false e = cc

    answer :
        is_acyclic (sub_draft_ids filled) (sub_edges filled) ≡ true
        → validate_sub_task_drafts new items ≡ ok filled
    answer e = computed ∙ ap verdict e
