-- ===== src/Robot/Reading.antt =====
-- What a reading of internal/robot/state.go stands on.
use semantic_framework.Prelude.{
  ℕ, String, Bool, true, false, not, ◌&&◌, Option, none, some, ◌==◌, eqb, if◌then◌else◌, ◌≡◌, ◌≢◌,
  ◌≤◌, ◌<◌, ◌+◌, ◌||◌, arith, refl, ◌⊎◌, inl, inr, eq_iff,
}
use semantic_framework.Robot.State.{
  StateObservation, StateReading, RuntimeInstance, StateReader, unavailable, reading_of,
  out_of_range, judge, observed_by, outside, read_from, read_robot_state,
}

-- An observation that carries a time within ten seconds of now.
abbrev pub IsRecent : ℕ → StateObservation → Type 0
IsRecent now o =
    (0 < o.observed_at) × (now ≤ o.observed_at + 10000000000) × (o.observed_at ≤ now + 10000000000)

-- A runtime instance of this Project or of none.
abbrev pub IsInside : String → RuntimeInstance → Type 0
IsInside project i = (project ≢ "") × ((i.project_id ≡ "") ⊎ (i.project_id ≡ project))

outside-IsInside :
    (project : String) (i : RuntimeInstance) → outside project i ≡ false → IsInside project i
outside-IsInside project i h =
    go (project == "") (i.project_id == "") (i.project_id == project) refl refl refl h
  where
    go :
        (a b c : Bool)
        → (project == "") ≡ a
        → (i.project_id == "") ≡ b
        → (i.project_id == project) ≡ c
        → (a || not b && not c) ≡ false
        → IsInside project i
    go true b c p q r k = cc
    go false true c p q r k =
        (λ e. absurd (clash ((eq_iff project "").1 e)), inl ((eq_iff i.project_id "").0 q))
      where
        clash : (project == "") ≡ true → ⊥
        clash t = cc
    go false false true p q r k =
        (λ e. absurd (clash ((eq_iff project "").1 e)), inr ((eq_iff i.project_id project).0 r))
      where
        clash : (project == "") ≡ true → ⊥
        clash t = cc
    go false false false p q r k = cc

-- The status that an observation deserves.
abbrev pub is_fresh : ℕ → StateObservation → Bool
is_fresh now o = not (eqb o.observed_at 0) && not (out_of_range now o.observed_at)

-- A reading without an observation, which says nothing of what the robot holds.
abbrev pub IsSilent : StateReading → Type 0
IsSilent r =
    (r.status ≡ "unavailable")
    × (r.in_hold ≡ none)
    × (r.holding_object ≡ none)
    × (r.observed_at ≡ none)

-- A reading that hands on an observation of this robot, in the scene of its latest runtime
-- instance, which is not one of another Project.
pub record IsObservation (now : ℕ) (reader : StateReader) (latest : String → Option RuntimeInstance)
    (project robot : String) (r : StateReading) : Type 0 where
  pub observation : StateObservation
  pub runtime : RuntimeInstance
  pub at_robot : latest robot ≡ some runtime
  pub in_project : IsInside project runtime
  pub read : reader project runtime.scene_instance_id robot ≡ some observation
  pub same_robot : observation.robot_id ≡ robot
  pub in_hold : r.in_hold ≡ some observation.in_hold
  pub holding : r.holding_object ≡ observation.holding_object
  pub status :
      ((r.status ≡ "observed") × IsRecent now observation)
      ⊎ ((r.status ≡ "stale") × (IsRecent now observation → ⊥))

judge-status :
    (now : ℕ) (source : String) (o : StateObservation)
    → ((judge now source o).status ≡ (if is_fresh now o then "observed" else "stale"))
      × ((judge now source o).in_hold ≡ some o.in_hold)
      × ((judge now source o).holding_object ≡ o.holding_object)
judge-status now source o = go (eqb o.observed_at 0) (out_of_range now o.observed_at)
  where
    made : (a b : Bool) → StateReading
    made a b =
        if a
        then reading_of "stale" source "observation_timestamp_missing" none o
        else if b
        then reading_of "stale" source "observation_timestamp_out_of_range" (some o.observed_at) o
        else reading_of "observed" source "" (some o.observed_at) o

    go :
        (a b : Bool)
        → ((made a b).status ≡ (if not a && not b then "observed" else "stale"))
          × ((made a b).in_hold ≡ some o.in_hold)
          × ((made a b).holding_object ≡ o.holding_object)
    go true b = (refl, refl, refl)
    go false true = (refl, refl, refl)
    go false false = (refl, refl, refl)

fresh-IsRecent : (now : ℕ) (o : StateObservation) → is_fresh now o ≡ true → IsRecent now o
fresh-IsRecent now o h = (ground arith, ground arith, ground arith)

recent-is_fresh : (now : ℕ) (o : StateObservation) → is_fresh now o ≡ false → IsRecent now o → ⊥
recent-is_fresh now o h (a, b, c) = ground arith

deserved :
    (now : ℕ) (o : StateObservation) (r : StateReading)
    → r.status ≡ (if is_fresh now o then "observed" else "stale")
    → ((r.status ≡ "observed") × IsRecent now o) ⊎ ((r.status ≡ "stale") × (IsRecent now o → ⊥))
deserved now o r h = go (is_fresh now o) refl h
  where
    go :
        (b : Bool)
        → is_fresh now o ≡ b
        → r.status ≡ (if b then "observed" else "stale")
        → ((r.status ≡ "observed") × IsRecent now o) ⊎ ((r.status ≡ "stale") × (IsRecent now o → ⊥))
    go true e k = inl (k, fresh-IsRecent now o e)
    go false e k = inr (k, recent-is_fresh now o e)

outside-excludes :
    (project : String) (i : RuntimeInstance) → outside project i ≡ true → IsInside project i → ⊥
outside-excludes project i h (named, inl free) =
    let a : (i.project_id == "") ≡ true = (eq_iff i.project_id "").1 free in
    go (project == "") refl (ground (arith, a, h))
  where
    go : (b : Bool) → (project == "") ≡ b → (project == "") ≡ true → ⊥
    go b e k = named ((eq_iff project "").0 k)
outside-excludes project i h (named, inr own) =
    let a : (i.project_id == project) ≡ true = (eq_iff i.project_id project).1 own in
    let k : (project == "") ≡ true = ground (arith, a, h) in named ((eq_iff project "").0 k)

eqb-false-differ : (a b : String) → (a == b) ≡ false → a ≡ b → ⊥
eqb-false-differ a b h e = let k : (a == b) ≡ true = (eq_iff a b).1 e in cc

-- Why nothing is known of the robot's hands, with the reason that is given.
pub data Missing (reader : StateReader) (latest : String → Option RuntimeInstance)
    (project robot : String) : String → Type 0 where
  no_runtime : latest robot ≡ none → Missing reader latest project robot "runtime_state_unavailable"
  no_scene :
      (i : RuntimeInstance)
      → latest robot ≡ some i
      → i.scene_instance_id ≡ ""
      → Missing reader latest project robot "runtime_state_unavailable"
  elsewhere :
      (i : RuntimeInstance)
      → latest robot ≡ some i
      → (IsInside project i → ⊥)
      → Missing reader latest project robot "robot_outside_project"
  unread :
      (i : RuntimeInstance)
      → latest robot ≡ some i
      → reader project i.scene_instance_id robot ≡ none
      → Missing reader latest project robot "state_read_failed"
  of_another :
      (i : RuntimeInstance) (o : StateObservation)
      → latest robot ≡ some i
      → reader project i.scene_instance_id robot ≡ some o
      → (o.robot_id ≡ robot → ⊥)
      → Missing reader latest project robot "state_robot_mismatch"

module _ (now : ℕ) (source : String) (reader : StateReader)
    (latest : String → Option RuntimeInstance) (project robot : String) where
  Outcome : StateReading → Type 0
  Outcome r =
      (IsSilent r × Missing reader latest project robot r.reason)
      ⊎ IsObservation now reader latest project robot r

  silent :
      (reason : String)
      → Missing reader latest project robot reason
      → Outcome (unavailable source reason)
  unfolding Outcome
  silent reason why = inl ((refl, refl, refl, refl), why)

  observed-outcome :
      (i : RuntimeInstance)
      → latest robot ≡ some i
      → outside project i ≡ false
      → (o : Option StateObservation) → reader project i.scene_instance_id robot ≡ o
      → Outcome (observed_by now source robot o)
  unfolding Outcome
  observed-outcome i at inside none read = silent "state_read_failed" (unread i at read)
  observed-outcome i at inside (some o) read = go (o.robot_id == robot) refl
    where
      made : o.robot_id ≡ robot → Outcome (judge now source o)
      made same =
          let (s, h, k) = judge-status now source o in
          inr (record {
            observation = o;
            runtime = i;
            at_robot = at;
            in_project = outside-IsInside project i inside;
            read = read;
            same_robot = same;
            in_hold = h;
            holding = k;
            status = deserved now o (judge now source o) s;
          })

      go :
          (b : Bool)
          → (o.robot_id == robot) ≡ b
          → Outcome (if b then judge now source o else unavailable source "state_robot_mismatch")
      go false e =
          silent "state_robot_mismatch"
            (of_another i o at read (eqb-false-differ o.robot_id robot e))
      go true e = made ((eq_iff o.robot_id robot).0 e)

  runtime-outcome :
      (o : Option RuntimeInstance)
      → latest robot ≡ o
      → Outcome (read_from now source reader project robot o)
  runtime-outcome none at = silent "runtime_state_unavailable" (no_runtime at)
  runtime-outcome (some i) at = go (i.scene_instance_id == "") (outside project i) refl refl
    where
      made : (a b : Bool) → StateReading
      made a b =
          if a
          then unavailable source "runtime_state_unavailable"
          else if b
          then unavailable source "robot_outside_project"
          else observed_by now source robot (reader project i.scene_instance_id robot)

      go :
          (a b : Bool)
          → (i.scene_instance_id == "") ≡ a
          → outside project i ≡ b
          → Outcome (made a b)
      go true b s e =
          silent "runtime_state_unavailable" (no_scene i at ((eq_iff i.scene_instance_id "").0 s))
      go false true s e =
          silent "robot_outside_project" (elsewhere i at (outside-excludes project i e))
      go false false s e = observed-outcome i at e (reader project i.scene_instance_id robot) refl

  -- A reading hands on what the reader observed of this robot in the scene of its latest runtime
  -- instance, which is of this named Project or of none; it calls the observation "observed" exactly
  -- when it carries a time within ten seconds of now, and "stale" otherwise. Or it says nothing of the
  -- robot's hands, and then the reason that it gives is true: there is no runtime instance or it has
  -- no scene, it is outside of the Project, the reader failed, or the observation is of another
  -- robot. A failure is never reported as empty hands.
  pub read_robot_state-outcome :
      (IsSilent (read_robot_state now source (some reader) latest project robot)
        × Missing reader latest project robot
            (read_robot_state now source (some reader) latest project robot).reason)
      ⊎ IsObservation now reader latest project robot
          (read_robot_state now source (some reader) latest project robot)
  unfolding read_robot_state Outcome
  read_robot_state-outcome = runtime-outcome (latest robot) refl
