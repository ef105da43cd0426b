-- ===== src/Store/Admitted.antt =====
-- The database after `AdmitRobotExecution` (internal/store/robot_admission.go).
use mathlib.Core.Path.{subst}
use mathlib.Core.List.{append-nil}
use semantic_framework.Prelude.{
  ◌≤◌, String, ◌≡◌, refl, sym, ap, ◌∙◌, inl, inr, Bool, true, false, not, ◌&&◌, ◌||◌, Option, none,
  some, List, [], ◌∷◌, ◌++◌, ◌==◌, any, select, length, mem_text, Result, ok, err, ◌⊎◌, constraint,
  robot_reserved, if◌then◌else◌, Bool-cases, or-eq-false, not-eq-true, arith, eq_iff,
}
use semantic_framework.Store.Rows.{RobotExecution, Db}
use semantic_framework.Store.Tx.{Tx, ◌>>◌, return, require, modify, Returns, Returns-bind}
use semantic_framework.Store.Admission.{robot_execution_reservation, active_execution_statuses}
use semantic_framework.Store.Execution.{
  Skill, Scope, find_request, is_direct, bind_run_robot, execution_clash, check_admission,
  insert_execution, admit_new, admit_robot_execution,
}
use semantic_framework.Store.ExecutionSteps.{
  IsApproved, IsFree, guard-eq-ok, check_admission-IsFree,
}

-- An execution that occupies the robot.
abbrev pub occupies : String → RobotExecution → Bool
occupies robot_id e = e.robot_id == robot_id && mem_text e.status active_execution_statuses

abbrev pub active_on : String → Db → List RobotExecution
active_on robot_id db = select (occupies robot_id) db.robot_executions

both_false : (a b c : Bool) → (a && b && (true || c)) ≡ false → (a && b) ≡ false
both_false true true c h = h
both_false true false c h = refl
both_false false b c h = refl

select-none :
    (robot_id : String) (es : List RobotExecution)
    → any
        (λ e.
          e.robot_id == robot_id
          && mem_text e.status active_execution_statuses
          && ("" == "" || not (e.task_id == "")))
        es
      ≡ false
    → select (occupies robot_id) es ≡ []
select-none robot_id [] h = refl
select-none robot_id (e ∷ es) h =
    let (here, rest) = or-eq-false _ _ h in
    rw
      (both_false (e.robot_id == robot_id) (mem_text e.status active_execution_statuses)
        (not (e.task_id == "")) here)
      (select-none robot_id es rest)

select-append :
    (test : RobotExecution → Bool) (xs ys : List RobotExecution)
    → select test (xs ++ ys) ≡ select test xs ++ select test ys
select-append test [] ys = refl
select-append test (x ∷ xs) ys = go (select-append test xs ys) (test x)
  where
    go :
        select test (xs ++ ys) ≡ select test xs ++ select test ys
        → (b : Bool)
        → (if b then x ∷ select test (xs ++ ys) else select test (xs ++ ys))
          ≡ (if b then x ∷ select test xs else select test xs) ++ select test ys
    go e true = ap (λ (l : List RobotExecution). x ∷ l) e
    go e false = e

select-one : (test : RobotExecution → Bool) (x : RobotExecution) → length (select test (x ∷ [])) ≤ 1
select-one test x = go (test x)
  where
    go : (b : Bool) → length (if b then x ∷ [] else []) ≤ 1
    go true = omega arith
    go false = omega arith

find_request-append :
    (project_id key : String) (es : List RobotExecution) (item : RobotExecution)
    → find_request project_id key es ≡ none
    → item.project_id ≡ project_id
    → item.request_key ≡ key
    → find_request project_id key (es ++ item ∷ []) ≡ some item
unfolding find_request
find_request-append project_id key [] item h p k =
    rw ((eq_iff item.project_id project_id).1 p, (eq_iff item.request_key key).1 k) refl
find_request-append project_id key (e ∷ es) item h p k =
    go (λ h. find_request-append project_id key es item h p k)
      (e.project_id == project_id && e.request_key == key) h
  where
    go :
        (find_request project_id key es ≡ none
          → find_request project_id key (es ++ item ∷ []) ≡ some item)
        → (b : Bool) → (if b then some e else find_request project_id key es) ≡ none
        → (if b then some e else find_request project_id key (es ++ item ∷ [])) ≡ some item
    go later true h = cc
    go later false h = later h

find_request-kept :
    (project key : String) (es more : List RobotExecution) (item : RobotExecution)
    → find_request project key es ≡ some item
    → find_request project key (es ++ more) ≡ some item
unfolding find_request
find_request-kept project key [] more item h = cc
find_request-kept project key (e ∷ es) more item h =
    go (find_request-kept project key es more item)
      (e.project_id == project && e.request_key == key) h
  where
    go :
        (find_request project key es ≡ some item
          → find_request project key (es ++ more) ≡ some item)
        → (b : Bool) → (if b then some e else find_request project key es) ≡ some item
        → (if b then some e else find_request project key (es ++ more)) ≡ some item
    go later true h = h
    go later false h = later h

-- The database that an insertion leaves.
abbrev pub Inserted : RobotExecution → Db → Db → Type 0
Inserted item db db' =
    (db'.robot_executions ≡ db.robot_executions ++ item ∷ []) × (db'.tasks ≡ db.tasks)

module _ (read_skill : String → Option Skill) (read_scope : String → Option Scope) where
  insert_execution-Inserted :
      (item : RobotExecution) (db : Db)
      → Returns (insert_execution read_skill read_scope item) db (λ _ db'. Inserted item db db')
  unfolding insert_execution
  insert_execution-Inserted item db u db' h = go (is_direct item) h
    where
      insert : Db → Tx (Unit {0})
      insert d =
          require (not (execution_clash item d.robot_executions)) constraint
          >> modify (λ db. record db { robot_executions = db.robot_executions ++ item ∷ [] })

      last :
          (d : Db) (c : Bool)
          → Inserted item db (record d { robot_executions = d.robot_executions ++ item ∷ [] })
          → (require (not c) constraint
                >> modify (λ db. record db { robot_executions = db.robot_executions ++ item ∷ [] }))
              d
            ≡ ok (u, db')
          → Inserted item db db'
      last d true i e = cc
      last d false i e = subst (Inserted item db) (ap snd (ok-inj e)) i
        where
          ok-inj : {r s : Unit {0} × Db} → ok r ≡ ok s → r ≡ s
          ok-inj e = cc

          snd : Unit {0} × Db → Db
          snd r = r.1

      go :
          (b : Bool)
          → (insert (
                if b then record db { run_sessions = bind_run_robot item db.run_sessions } else db))
              (if b then record db { run_sessions = bind_run_robot item db.run_sessions } else db)
            ≡ ok (u, db')
          → Inserted item db db'
      go true e =
          last (record db { run_sessions = bind_run_robot item db.run_sessions })
            (execution_clash item db.robot_executions) (refl, refl) e
      go false e = last db (execution_clash item db.robot_executions) (refl, refl) e

  -- What a call that admits a new execution has checked and done.
  abbrev pub Admission : RobotExecution → Db → Db → Type 0
  Admission item db db' =
      IsApproved read_skill read_scope item db
      × (IsFree read_skill read_scope item db
          × (find_request item.project_id item.request_key db.robot_executions ≡ none)
          × Inserted item db db')

  pub admitted :
      (item e : RobotExecution) (agent_id : String) (db db' : Db)
      → admit_robot_execution read_skill read_scope item agent_id db ≡ ok ((e, true), db')
      → (e ≡ item) × Admission item db db'
  unfolding admit_robot_execution
  admitted item e agent_id db db' h =
      go (find_request item.project_id item.request_key db.robot_executions) refl h
    where
      Done : RobotExecution × Bool → Db → Type 0
      Done r d = (r.0 ≡ item) × Admission item db d

      returned : (d : Db) → Admission item db d → Returns (return (item, true)) d Done
      returned d a r d' h =
          subst (λ (p : (RobotExecution × Bool) × Db). Done p.0 p.1) (ok-inj h) (refl, a)
        where
          ok-inj : {r s : (RobotExecution × Bool) × Db} → ok r ≡ ok s → r ≡ s
          ok-inj e = cc

      go :
          (o : Option RobotExecution)
          → find_request item.project_id item.request_key db.robot_executions ≡ o
          → admit_new read_skill read_scope o item agent_id db ≡ ok ((e, true), db')
          → (e ≡ item) × Admission item db db'
      go (some existing) f h = cc
      go none f h =
          Returns-bind db Done (check_admission read_skill read_scope item agent_id) _
            (λ u d e.
              let (same, (rows, free)) =
                check_admission-IsFree read_skill read_scope item agent_id db u d e in
              subst
                (λ d.
                  Returns (insert_execution read_skill read_scope item >> return (item, true)) d
                    Done)
                (sym same)
                (Returns-bind db Done (insert_execution read_skill read_scope item) _ (λ v d' e'.
                  returned d' (rows, (free, f, insert_execution-Inserted item db v d' e')))))
            (e, true) db' h

  -- Whatever a call returns, the table stays or grows by the execution that was asked for.
  abbrev Grows : RobotExecution → Db → Db → Type 0
  Grows item db db' =
      (db'.robot_executions ≡ db.robot_executions)
      ⊎ (db'.robot_executions ≡ db.robot_executions ++ item ∷ [])

  admit_robot_execution-Grows :
      (item : RobotExecution) (agent_id : String) (db : Db)
      → Returns
          (admit_robot_execution read_skill read_scope item agent_id)
          db
          (λ _ db'. Grows item db db')
  unfolding admit_robot_execution
  admit_robot_execution-Grows item agent_id db =
      go (find_request item.project_id item.request_key db.robot_executions)
    where
      Done : RobotExecution × Bool → Db → Type 0
      Done r d = Grows item db d

      returned : (d : Db) → Grows item db d → Returns (return (item, true)) d Done
      returned d g r d' h = subst (λ (p : (RobotExecution × Bool) × Db). Done p.0 p.1) (ok-inj h) g
        where
          ok-inj : {r s : (RobotExecution × Bool) × Db} → ok r ≡ ok s → r ≡ s
          ok-inj e = cc

      go :
          (o : Option RobotExecution)
          → Returns (admit_new read_skill read_scope o item agent_id) db Done
      go (some existing) =
          λ r d h. let e : db ≡ d = cc in inl (ap (λ x. x.robot_executions) (sym e))
      go none =
          Returns-bind db Done (check_admission read_skill read_scope item agent_id) _ (λ u d e.
            let (same, rest) =
              check_admission-IsFree read_skill read_scope item agent_id db u d e in
            subst
              (λ d.
                Returns (insert_execution read_skill read_scope item >> return (item, true)) d Done)
              (sym same)
              (Returns-bind db Done (insert_execution read_skill read_scope item) _
                (λ v d' e'. returned d' (inr (insert_execution-Inserted item db v d' e').0))))

  abbrev pub after_admission : Result ((RobotExecution × Bool) × Db) → Db → Db
  after_admission (ok (r, db')) db = db'
  after_admission (err e) db = db

  -- Calls for other executions and agents, refused ones included.
  unfoldable pub admit_all : List (RobotExecution × String) → Db → Db
  unfolding admit_robot_execution
  admit_all [] db = db
  admit_all (c ∷ cs) db =
      admit_all cs (after_admission (admit_robot_execution read_skill read_scope c.0 c.1 db) db)

  admit_all-request :
      (calls : List (RobotExecution × String)) (db : Db) (project key : String)
      (item : RobotExecution)
      → find_request project key db.robot_executions ≡ some item
      → find_request project key (admit_all calls db).robot_executions ≡ some item
  unfolding admit_all
  admit_all-request [] db project key item h = h
  admit_all-request (c ∷ cs) db project key item h =
      admit_all-request cs (after_admission answer db) project key item (step answer refl)
    where
      answer : Result ((RobotExecution × Bool) × Db)
      answer = admit_robot_execution read_skill read_scope c.0 c.1 db

      step :
          (r : Result ((RobotExecution × Bool) × Db))
          → answer ≡ r
          → find_request project key (after_admission r db).robot_executions ≡ some item
      step (err e) q = h
      step (ok (r, db')) q = elim (admit_robot_execution-Grows c.0 c.1 db r db' q) [
        | inl same ↦ ap (find_request project key) same ∙ h
        | inr grown ↦
            ap (find_request project key) grown
            ∙ find_request-kept project key db.robot_executions (c.0 ∷ []) item h
      ]

  -- Once an execution has been admitted, then after any further calls, for other executions and by
  -- other agents, a call with its project and its request key, whatever else it asks for and
  -- whoever makes it, returns the execution that was admitted, reports that it is not new, and
  -- changes nothing.
  pub admit_robot_execution-again :
      (item e : RobotExecution) (agent_id : String) (db db' : Db)
      → admit_robot_execution read_skill read_scope item agent_id db ≡ ok ((e, true), db')
      → (calls : List (RobotExecution × String)) (other : RobotExecution) (other_agent : String)
      → other.project_id ≡ item.project_id
      → other.request_key ≡ item.request_key
      → admit_robot_execution read_skill read_scope other other_agent (admit_all calls db')
        ≡ ok ((item, false), admit_all calls db')
  unfolding admit_robot_execution
  admit_robot_execution-again item e agent_id db db' h calls other other_agent p k =
      let (same, (rows, (free, fresh, (rows', tasks)))) = admitted item e agent_id db db' h in
      let seen : find_request item.project_id item.request_key db'.robot_executions ≡ some item =
        ap (find_request item.project_id item.request_key) rows'
        ∙ find_request-append item.project_id item.request_key db.robot_executions item fresh refl
            refl in
      let later = admit_all-request calls db' item.project_id item.request_key item seen in
      let asked : find_request other.project_id other.request_key
            (admit_all calls db').robot_executions
          ≡ some item =
        ap (λ x. find_request x other.request_key (admit_all calls db').robot_executions) p
        ∙ ap (λ x. find_request item.project_id x (admit_all calls db').robot_executions) k
        ∙ later in
      ap (λ o. admit_new read_skill read_scope o other other_agent (admit_all calls db')) asked

  one_active_here :
      (item e : RobotExecution) (agent_id : String) (db db' : Db)
      → admit_robot_execution read_skill read_scope item agent_id db ≡ ok ((e, true), db')
      → length (active_on item.robot_id db') ≤ 1
  unfolding robot_execution_reservation
  one_active_here item e agent_id db db' h =
      let (same, (rows, ((idle, held), fresh, (rows', tasks)))) =
        admitted item e agent_id db db' h in
      let none_before : active_on item.robot_id db ≡ [] =
        select-none item.robot_id db.robot_executions
          (not-eq-true _ (guard-eq-ok read_skill read_scope _ robot_reserved tt idle)) in
      let now : active_on item.robot_id db' ≡ select (occupies item.robot_id) (item ∷ []) =
        ap (select (occupies item.robot_id)) rows'
        ∙ select-append (occupies item.robot_id) db.robot_executions (item ∷ [])
        ∙ ap (λ l. l ++ select (occupies item.robot_id) (item ∷ [])) none_before in
      subst (λ l. length l ≤ 1) (sym now) (select-one (occupies item.robot_id) item)

  -- Admissions keep every robot to one execution: if no robot is occupied by two executions before,
  -- none is afterwards.
  pub admit_robot_execution-one_active :
      (item e : RobotExecution) (agent_id robot_id : String) (db db' : Db)
      → length (active_on robot_id db) ≤ 1
      → admit_robot_execution read_skill read_scope item agent_id db ≡ ok ((e, true), db')
      → length (active_on robot_id db') ≤ 1
  admit_robot_execution-one_active item e agent_id robot_id db db' before h =
      let (same, (rows, (free, fresh, (rows', tasks)))) = admitted item e agent_id db db' h in
      elim (Bool-cases (item.robot_id == robot_id)) [
        | inl its ↦
            subst (λ r. length (active_on r db') ≤ 1) ((eq_iff item.robot_id robot_id).0 its)
              (one_active_here item e agent_id db db' h)
        | inr other ↦
            let added : select (occupies robot_id) (item ∷ []) ≡ [] = rw other refl in
            let now : active_on robot_id db' ≡ active_on robot_id db =
              ap (select (occupies robot_id)) rows'
              ∙ select-append (occupies robot_id) db.robot_executions (item ∷ [])
              ∙ ap (λ l. active_on robot_id db ++ l) added
              ∙ append-nil (active_on robot_id db) in
            subst (λ l. length l ≤ 1) (sym now) before
      ]
