-- ===== src/Projects/Archive.antt =====
-- internal/store/project.go: the rows that `ArchiveProject` leaves.
use semantic_framework.Prelude.{
  ℕ, String, Bool, true, false, List, Option, none, some, is_some, select, order_by, All, Result,
  ok, err, ◌≡◌, refl, ap, sym, ◌∙◌, arith, if◌then◌else◌, invalid_state,
}
use semantic_framework.Prelude.Table.{find, update}
use semantic_framework.Projects.Rows.{Project, project_key, first}
use semantic_framework.Projects.Create.{activated}
use semantic_framework.Projects.Active.{
  always, archived, can_archive, can_replace, activate_replacement, replaces_before, replacement,
}
use semantic_framework.Projects.Distinct.{Distinct, update-Distinct, All-update, find-update_apart}
use semantic_framework.Projects.Counting.{
  IsShown, active_count-update_le, active_count-update_off, active_count-update_found,
}
use semantic_framework.Projects.Single.{
  IsSingle, Replaces, first-Replaces, kept-IsShown, inactive-IsShown,
}

module _ (owner id : String) (expected now : ℕ) (rows : List Project) (p : Project)
    (is_found : find project_key id rows ≡ some p) (allowed : can_archive owner expected p ≡ true)
    (i : IsSingle rows) where
  abbrev left : List Project
  left = update project_key id (can_archive owner expected) (archived now) rows

  left-IsShown : All IsShown left
  left-IsShown =
      All-update project_key IsShown id (can_archive owner expected) (archived now) rows i.shown
        (λ x f t s. inactive-IsShown (archived now x) refl)

  left-Distinct : Distinct project_key left
  left-Distinct =
      update-Distinct project_key id (can_archive owner expected) (archived now) rows (λ x. refl)
        i.distinct

  -- Without a replacement.
  archived-IsSingle : IsSingle left
  archived-IsSingle = record {
    single = omega (
      arith,
      i.single,
      active_count-update_off id (can_archive owner expected) (archived now) rows (λ x. refl),
    );
    shown = left-IsShown;
    distinct = left-Distinct;
  }

  replaced-IsSingle :
      (r : Project)
      → p.is_active ≡ true
      → Replaces id rows r
      → IsSingle (update project_key r.id always (activated now) left)
  replaced-IsSingle r on c = record {
    single = omega (
      arith,
      i.single,
      active_count-update_le r.id always (activated now) left,
      active_count-update_found id (can_archive owner expected) (archived now) rows p is_found on
          allowed (λ x. refl),
    );
    shown =
        All-update project_key IsShown r.id always (activated now) left left-IsShown
          (λ x f t s. kept-IsShown (activated now x) (is_kept x f));
    distinct =
        update-Distinct project_key r.id always (activated now) left (λ x. refl) left-Distinct;
  }
    where
      is_kept : (x : Project) → find project_key r.id left ≡ some x → is_some x.archived_at ≡ false
      is_kept x f =
          let e : some x ≡ some r =
            sym f
            ∙ find-update_apart project_key id r.id (can_archive owner expected) (archived now) rows
                c.other (λ y. refl)
            ∙ c.own in
          let q : x ≡ r = cc in ap (λ y. is_some y.archived_at) q ∙ c.kept

  pub archive-IsSingle :
      (o : Option Project)
      → replacement p owner id rows ≡ ok o
      → IsSingle (
          activate_replacement o now
            (update project_key id (can_archive owner expected) (archived now) rows))
  archive-IsSingle none h = archived-IsSingle
  archive-IsSingle (some r) h = go p.is_active refl (first candidates) refl h
    where
      candidates : List Project
      candidates = order_by replaces_before (select (can_replace owner id) rows)

      go :
          (b : Bool)
          → p.is_active ≡ b
          → (f : Option Project) → first candidates ≡ f
          → if◌then◌else◌ {A = Result (Option Project)} b
              (elim f [ none ↦ err invalid_state | some c ↦ ok (some c) ])
              (ok none)
            ≡ ok (some r)
          → IsSingle (update project_key r.id always (activated now) left)
      go false e f g k = cc
      go true e none g k = cc
      go true e (some c) g k =
          let q : c ≡ r = cc in
          replaced-IsSingle r e (first-Replaces owner id rows r i.distinct (g ∙ ap some q))
