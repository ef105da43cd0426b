-- ===== src/Projects/Single.antt =====
-- internal/store/project.go: at most one project of an installation is active, after any sequence of calls.
use semantic_framework.Prelude.{
  ℕ, ◌≤◌, String, Bool, true, false, not, ◌&&◌, List, [], ◌∷◌, ◌++◌, none, some, ◌==◌, is_some, any,
  All, All-append, All-map, All-select, All-order_by, select, order_by, ◌≡◌, refl, ap, sym, ◌∙◌,
  subst, if◌then◌else◌, inl, inr, arith, and-eq-true, not-eq-true,
}
use semantic_framework.Prelude.Table.{find, update, update_all}
use semantic_framework.Prelude.Statements.{find-update_all}
use semantic_framework.Projects.Rows.{Project, project_key, is_open, first}
use semantic_framework.Projects.Create.{activated, not_archived, activate_if_none}
use semantic_framework.Projects.Active.{
  deactivated, always, switch_to, can_replace, replaces_before,
}
use semantic_framework.Projects.Distinct.{
  Distinct, update-Distinct, update_all-Distinct, append-Distinct, All-update, All-update_all,
  Distinct-own,
}
use semantic_framework.Projects.Counting.{
  active_count, IsShown, active_count-update_same, active_count-update_le, active_count-deactivated,
  active_count-append, active_count-none,
}

-- At most one project is active, no active project is in the archive, and the ids differ.
pub record IsSingle (rows : List Project) : Type 0 where
  pub single : active_count rows ≤ 1
  pub shown : All IsShown rows
  pub distinct : Distinct project_key rows

-- A row that is not active, or not in the archive, is shown.
pub inactive-IsShown : (p : Project) → p.is_active ≡ false → IsShown p
inactive-IsShown p h = rw h refl

no_and_true : (a b : Bool) → b ≡ false → (a && b) ≡ false
no_and_true true b h = h
no_and_true false b h = refl

pub kept-IsShown : (p : Project) → is_some p.archived_at ≡ false → IsShown p
kept-IsShown p h = no_and_true p.is_active (is_some p.archived_at) h

-- A statement that leaves the two columns alone.
pub rewritten-IsSingle :
    (k : String) (test : Project → Bool) (change : Project → Project) (rows : List Project)
    → ((p : Project) → (change p).id ≡ p.id)
    → ((p : Project) → (change p).is_active ≡ p.is_active)
    → ((p : Project) → IsShown p → IsShown (change p))
    → IsSingle rows
    → IsSingle (update project_key k test change rows)
rewritten-IsSingle k test change rows same active shown i = record {
  single = subst (λ n. n ≤ 1) (sym (active_count-update_same k test change rows active)) i.single;
  shown = All-update project_key IsShown k test change rows i.shown (λ p f t s. shown p s);
  distinct = update-Distinct project_key k test change rows same i.distinct;
}

pub activate_if_none-IsSingle :
    (id : String) (now : ℕ) (rows : List Project)
    → IsSingle rows
    → IsSingle (activate_if_none id now rows)
unfolding activate_if_none
activate_if_none-IsSingle id now rows i = go (any is_open rows) refl
  where
    go :
        (b : Bool)
        → any is_open rows ≡ b
        → IsSingle (if b then rows else update project_key id not_archived (activated now) rows)
    go true e = i
    go false e =
        let n = active_count-none rows i.shown e in
        record {
          single = omega (arith, n, active_count-update_le id not_archived (activated now) rows);
          shown =
              All-update project_key IsShown id not_archived (activated now) rows i.shown
                (λ p f t s. kept-IsShown (activated now p) (not-eq-true (is_some p.archived_at) t));
          distinct =
              update-Distinct project_key id not_archived (activated now) rows (λ p. refl)
                i.distinct;
        }

pub append-IsSingle :
    (p : Project) (rows : List Project)
    → p.is_active ≡ false
    → find project_key p.id rows ≡ none
    → IsSingle rows
    → IsSingle (rows ++ p ∷ [])
append-IsSingle p rows off fresh i = record {
  single = subst (λ n. n ≤ 1) (sym (active_count-append rows p off)) i.single;
  shown = All-append IsShown rows (p ∷ []) i.shown (inactive-IsShown p off, tt);
  distinct = append-Distinct project_key rows p fresh i.distinct;
}

pub switch_to-IsSingle :
    (id : String) (now : ℕ) (rows : List Project) (p : Project)
    → find project_key id rows ≡ some p
    → is_some p.archived_at ≡ false
    → IsSingle rows
    → IsSingle (switch_to id now rows)
switch_to-IsSingle id now rows p f a i = record {
  single = omega (
    arith,
    active_count-deactivated (deactivated now) rows (λ x. refl),
    active_count-update_le id always (activated now) cleared,
  );
  shown =
      All-update project_key IsShown id always (activated now) cleared
        (All-update_all project_key IsShown (λ x. x.is_active) (deactivated now) rows i.shown
          (λ x s. inactive-IsShown (deactivated now x) refl))
        (λ x g t s. kept-IsShown (activated now x) (ap (λ o. is_some o) (same_archive x g) ∙ a));
  distinct =
      update-Distinct project_key id always (activated now) cleared (λ x. refl)
        (update_all-Distinct project_key (λ x. x.is_active) (deactivated now) rows (λ x. refl)
          i.distinct);
}
  where
    cleared : List Project
    cleared = update_all (λ x. x.is_active) (deactivated now) rows

    same_archive :
        (x : Project) → find project_key id cleared ≡ some x → x.archived_at ≡ p.archived_at
    same_archive x g =
        let (y, h, how) =
          find-update_all project_key (λ z. z.is_active) (deactivated now) rows id p (λ z. refl)
            f in
        let e : some x ≡ some y = sym g ∙ h in
        let q : x ≡ y = cc in
        ap (λ z. z.archived_at) q
        ∙ elim how [ inl r ↦ ap (λ z. z.archived_at) r | inr r ↦ ap (λ z. z.archived_at) r.1 ]

-- The project that takes the place is another one, is found under its id and is not in the archive.
pub record Replaces (id : String) (rows : List Project) (r : Project) : Type 0 where
  pub own : find project_key r.id rows ≡ some r
  pub other : (r.id == id) ≡ false
  pub kept : is_some r.archived_at ≡ false

pub first-Replaces :
    (owner id : String) (rows : List Project) (r : Project)
    → Distinct project_key rows
    → first (order_by replaces_before (select (can_replace owner id) rows)) ≡ some r
    → Replaces id rows r
first-Replaces owner id rows r d h =
    pick (order_by replaces_before (select (can_replace owner id) rows))
      (All-order_by replaces_before (Replaces id rows) (select (can_replace owner id) rows) (
        All-map _ (Replaces id rows) (select (can_replace owner id) rows)
          (All-select (λ x. find project_key x.id rows ≡ some x) (can_replace owner id) rows
            (Distinct-own project_key rows d))
          (λ x q.
            let t =
              and-eq-true (x.owner_id == owner && not (x.id == id)) (not (is_some x.archived_at))
                q.1 in
            let u = and-eq-true (x.owner_id == owner) (not (x.id == id)) t.0 in
            record {
              own = q.0;
              other = not-eq-true (x.id == id) u.1;
              kept = not-eq-true (is_some x.archived_at) t.1;
            })))
      h
  where
    pick : (xs : List Project) → All (Replaces id rows) xs → first xs ≡ some r → Replaces id rows r
    pick [] q e = cc
    pick (x ∷ xs) q e = let s : x ≡ r = cc in subst (Replaces id rows) s q.0
