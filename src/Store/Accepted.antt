-- ===== src/Store/Accepted.antt =====
-- The plans that `validateSubTaskDrafts` in internal/store/workflow.go accepts.
use semantic_framework.Prelude.{
  >>-ok, guard-ok, ℕ, suc, ◌+◌, ◌≤◌, String, ◌≡◌, refl, ap, sym, ◌∙◌, Bool, true, false, ◌||◌, List,
  [], ◌∷◌, ◌==◌, mem_text, if◌then◌else◌, arith, eq_iff, inl, inr, subst, Result, ok, err, ◌>>=◌,
  not-eq-true, or-eq-true,
}
use semantic_framework.Store.Rows.{SubTaskDraft}
use semantic_framework.Store.Draft.{sub_draft_ids, id_or, fill_sub_drafts}
use semantic_framework.Store.Kahn.{times}

pub mem_text-times : (x : String) (l : List String) → mem_text x l ≡ true → 1 ≤ times x l
mem_text-times x [] h = cc
mem_text-times x (y ∷ l) h = go (y == x) refl (mem_text-times x l)
  where
    go :
        (b : Bool)
        → (y == x) ≡ b
        → (mem_text x l ≡ true → 1 ≤ times x l)
        → 1 ≤ (if b then suc (times x l) else times x l)
    go true e later = omega arith
    go false e later = elim (or-eq-true (x == y) (mem_text x l) h) [
      | inl p ↦
          let q : x ≡ y = (eq_iff x y).0 p in
          let r : (y == x) ≡ true = (eq_iff y x).1 (sym q) in let s : false ≡ true = sym e ∙ r in cc
      | inr p ↦ later p
    ]

pub times-mem_text : (x : String) (l : List String) → mem_text x l ≡ false → times x l ≡ 0
times-mem_text x [] h = refl
times-mem_text x (y ∷ l) h = go (x == y) refl (y == x) refl h (times-mem_text x l)
  where
    go :
        (a : Bool)
        → (x == y) ≡ a
        → (b : Bool) → (y == x) ≡ b
        → (a || mem_text x l) ≡ false
        → (mem_text x l ≡ false → times x l ≡ 0)
        → (if b then suc (times x l) else times x l) ≡ 0
    go true p b q h later = cc
    go false p true q h later =
        let r : (x == y) ≡ true = (eq_iff x y).1 (sym ((eq_iff y x).0 q)) in
        let s : false ≡ true = sym p ∙ r in cc
    go false p false q h later = later h

module _ (new_sub_task_id : ℕ → String) where
  -- The ids of a filled draft are different from each other and from those seen before.
  pub fill_sub_drafts-distinct :
      (i : ℕ) (seen : List String) (items filled : List SubTaskDraft)
      → fill_sub_drafts new_sub_task_id i seen items ≡ ok filled
      → (x : String) → times x (sub_draft_ids filled) + (if mem_text x seen then 1 else 0) ≤ 1
  unfolding fill_sub_drafts
  fill_sub_drafts-distinct i seen [] filled h x =
      let q : [] ≡ filled = cc in
      subst (λ l. times x (sub_draft_ids l) + (if mem_text x seen then 1 else 0) ≤ 1) q
        (one_at_most (mem_text x seen))
    where
      one_at_most : (b : Bool) → 0 + (if b then 1 else 0) ≤ 1
      one_at_most true = omega arith
      one_at_most false = omega arith
  fill_sub_drafts-distinct i seen (s ∷ ss) filled h x =
      let (a, h1) = >>-ok _ _ filled h in
      let (b, h2) = >>-ok _ _ filled h1 in
      filled_by (fill_sub_drafts new_sub_task_id (i + 1) (id ∷ seen) ss) refl h2
        (not-eq-true _ (guard-ok _ _ b))
        (λ l e. fill_sub_drafts-distinct (i + 1) (id ∷ seen) ss l e x)
    where
      id : String
      id = id_or s.id (new_sub_task_id i)

      filled_by :
          (r : Result (List SubTaskDraft))
          → fill_sub_drafts new_sub_task_id (i + 1) (id ∷ seen) ss ≡ r
          → (r >>= λ rest. ok (record s { id = id } ∷ rest)) ≡ ok filled
          → mem_text id seen ≡ false
          → ((l : List SubTaskDraft)
              → fill_sub_drafts new_sub_task_id (i + 1) (id ∷ seen) ss ≡ ok l
              → times x (sub_draft_ids l) + (if (x == id) || mem_text x seen then 1 else 0) ≤ 1)
          → times x (sub_draft_ids filled) + (if mem_text x seen then 1 else 0) ≤ 1
      filled_by (err e) p k fresh later = cc
      filled_by (ok rest) p k fresh later =
          let q : (record s { id = id } ∷ rest) ≡ filled = cc in
          subst (λ l. times x (sub_draft_ids l) + (if mem_text x seen then 1 else 0) ≤ 1) q
            (go (id == x) refl (x == id) refl (mem_text x seen) refl (later rest p))
        where
          go :
              (b : Bool)
              → (id == x) ≡ b
              → (c : Bool) → (x == id) ≡ c
              → (m : Bool) → mem_text x seen ≡ m
              → times x (sub_draft_ids rest) + (if c || m then 1 else 0) ≤ 1
              → (if b then suc (times x (sub_draft_ids rest)) else times x (sub_draft_ids rest))
                  + (if m then 1 else 0)
                ≤ 1
          go false e true f m g l = ground (arith, l)
          go false e false f m g l = l
          go true e true f false g l = omega (arith, l)
          go true e true f true g l =
              let own : id ≡ x = (eq_iff id x).0 e in
              let bad : mem_text id seen ≡ true = ap (λ k. mem_text k seen) own ∙ g in
              let s : false ≡ true = sym fresh ∙ bad in cc
          go true e false f m g l =
              let r : (x == id) ≡ true = (eq_iff x id).1 (sym ((eq_iff id x).0 e)) in
              let s : false ≡ true = sym f ∙ r in cc
