-- ===== src/Scheduler/Resources.antt =====
-- Owners of resources (`claimTaskResources` and `releaseTaskResources` of
-- internal/workflow/scheduler.go).

use semantic_framework.Prelude.{
  ℕ, String, ◌≡◌, refl, sym, ap, ◌∙◌, inl, inr, Bool, true, false, not, ◌||◌, Option, none, some,
  List, [], ◌∷◌, ◌==◌, all, Map, put, mem_text, and-eq-true, not-eq-true, or-eq-true, eq_iff,
  if◌then◌else◌,
}
use semantic_framework.Scheduler.Gate.{
  Gate, reserve_unless, reserve_task, bind_if, bind_reserved_task_cancel, bind_run, call_held,
  cancel_task_attempt, free_for, own_all, claim_if, claim_task_resources, release_task,
  unless_owned, release_task_resources,
}
use semantic_framework.Scheduler.Exclusive.{
  GateOp, reserves, binds, starts, cancels, claims, releases, frees, gate_step, gate_run, same_text,
}

-- The operation is not a `releaseTaskResources` of the task.
abbrev pub keeps_resources : String → GateOp → Bool
keeps_resources id (frees other) = not (id == other)
keeps_resources id op = true

-- Who owns a key after it has been claimed with others.
own_all-owner :
    (id : String) (keys : List String) (m : Map String) (k : String)
    → own_all id keys m k ≡ (if mem_text k keys then some id else m k)
unfolding own_all
own_all-owner id [] m k = refl
own_all-owner id (j ∷ keys) m k =
    own_all-owner id keys (put j id m) k ∙ go (k == j) (mem_text k keys)
  where
    go :
        (b c : Bool)
        → (if c then some id else (if b then some id else m k)) ≡ (if b || c then some id else m k)
    go true true = refl
    go true false = refl
    go false true = refl
    go false false = refl

-- A key that a claim asks for has to be free for it.
all-free :
    (id : String) (m : Map String) (keys : List String) (k : String)
    → mem_text k keys ≡ true
    → all (λ j. free_for id (m j)) keys ≡ true
    → free_for id (m k) ≡ true
all-free id m (j ∷ keys) k h free =
    let (now, later) = and-eq-true (free_for id (m j)) (all (λ j. free_for id (m j)) keys) free in
    elim (or-eq-true (k == j) (mem_text k keys) h) [
      | inl e ↦ let same : k ≡ j = (eq_iff k j).0 e in rw same now
      | inr e ↦ all-free id m keys k e later
    ]
all-free id m [] k h free = cc

abbrev Owns : String → String → Gate → Type 0
Owns id k g = g.active_resources k ≡ some id

-- A task that owns a key keeps it through every claim.
claim-Owns :
    (a k id : String) (keys : List String) (g : Gate)
    → (a == "") ≡ false
    → Owns a k g
    → (b : Bool) → all (λ j. free_for id (g.active_resources j)) keys ≡ b
    → Owns a k (claim_if b keys id g).0
claim-Owns a k id keys g named o false e = o
claim-Owns a k id keys g named o true e =
    own_all-owner id keys g.active_resources k ∙ go (mem_text k keys) refl
  where
    go : (c : Bool) → mem_text k keys ≡ c → (if c then some id else g.active_resources k) ≡ some a
    go false h = o
    go true h =
        let free : (a == "" || a == id) ≡ true =
          rw o at (all-free id g.active_resources keys k h e) in
        elim (or-eq-true (a == "") (a == id) free) [
          | inl blank ↦ cc
          | inr same ↦ ap some (sym ((eq_iff a id).0 same))
        ]

call_held-resources :
    (o : Option (Option ℕ)) (g : Gate) → (call_held o g).active_resources ≡ g.active_resources
call_held-resources none g = refl
call_held-resources (some none) g = refl
call_held-resources (some (some c)) g = refl

gate_step-Owns :
    (a k : String) (op : GateOp) (g : Gate)
    → (a == "") ≡ false
    → keeps_resources a op ≡ true
    → Owns a k g
    → Owns a k (gate_step op g)
unfolding gate_step reserve_task bind_reserved_task_cancel bind_run cancel_task_attempt
    claim_task_resources release_task release_task_resources
gate_step-Owns a k (reserves id) g named h o = go (g.active_tasks id)
  where
    go : (t : Option (Option ℕ)) → Owns a k (reserve_unless t id g).0
    go none = o
    go (some x) = o
gate_step-Owns a k (binds id c) g named h o = go (g.active_tasks id)
  where
    go : (t : Option (Option ℕ)) → Owns a k (bind_if t id c g).0
    go none = o
    go (some x) = o
gate_step-Owns a k (starts id c r) g named h o = o
gate_step-Owns a k (cancels id) g named h o =
    ap (λ (m : Map String). m k) (call_held-resources (g.active_tasks id) g) ∙ o
gate_step-Owns a k (claims keys id) g named h o =
    claim-Owns a k id keys g named o (all (λ j. free_for id (g.active_resources j)) keys) refl
gate_step-Owns a k (releases id) g named h o =
    ap (λ (m : Map String). m k) (call_held-resources (g.active_tasks id) g) ∙ o
gate_step-Owns a k (frees id) g named h o = rw o (rw (not-eq-true (a == id) h) refl)

gate_run-Owns :
    (a k : String) (ops : List GateOp) (g : Gate)
    → (a == "") ≡ false
    → all (keeps_resources a) ops ≡ true
    → Owns a k g
    → Owns a k (gate_run ops g)
unfolding gate_run
gate_run-Owns a k [] g named h o = o
gate_run-Owns a k (op ∷ ops) g named h o =
    let (now, later) = and-eq-true (keeps_resources a op) (all (keeps_resources a) ops) h in
    gate_run-Owns a k ops (gate_step op g) named later (gate_step-Owns a k op g named now o)

-- What a claim that succeeds leaves under every key.
claimed-owner :
    (keys : List String) (a : String) (g h : Gate) (k : String)
    → claim_task_resources keys a g ≡ (h, true)
    → h.active_resources k ≡ (if mem_text k keys then some a else g.active_resources k)
unfolding claim_task_resources
claimed-owner keys a g h k e = go (all (λ j. free_for a (g.active_resources j)) keys) e
  where
    go :
        (b : Bool)
        → claim_if b keys a g ≡ (h, true)
        → h.active_resources k ≡ (if mem_text k keys then some a else g.active_resources k)
    go false e = cc
    go true e =
        ap (λ (r : Gate × Bool). r.0.active_resources k) (sym e)
        ∙ own_all-owner a keys g.active_resources k

refused-Owns :
    (a k b : String) (keys : List String) (g : Gate)
    → (a == "") ≡ false
    → (a == b) ≡ false
    → mem_text k keys ≡ true
    → Owns a k g
    → claim_task_resources keys b g ≡ (g, false)
unfolding claim_task_resources
refused-Owns a k b keys g named other asked o =
    go (all (λ j. free_for b (g.active_resources j)) keys) refl
  where
    go :
        (c : Bool)
        → all (λ j. free_for b (g.active_resources j)) keys ≡ c
        → claim_if c keys b g ≡ (g, false)
    go false e = refl
    go true e =
        let free : (a == "" || a == b) ≡ true =
          rw o at (all-free b g.active_resources keys k asked e) in
        elim (or-eq-true (a == "") (a == b) free) [ inl blank ↦ cc | inr same ↦ cc ]

-- Once a task, whose id is not empty, has claimed a key, a claim of another task that asks for this
-- key is refused as a whole and changes nothing, whatever happens in between, until
-- `releaseTaskResources` is called for the owner.
pub claimed-until_freed :
    (mine theirs : List String) (a b k : String) (g h : Gate) (ops : List GateOp)
    → (a == "") ≡ false
    → (a == b) ≡ false
    → mem_text k mine ≡ true
    → mem_text k theirs ≡ true
    → claim_task_resources mine a g ≡ (h, true)
    → all (keeps_resources a) ops ≡ true
    → claim_task_resources theirs b (gate_run ops h) ≡ (gate_run ops h, false)
claimed-until_freed mine theirs a b k g h ops named other has asks e kept =
    refused-Owns a k b theirs (gate_run ops h) named other asks
      (gate_run-Owns a k ops h named kept (rw has at (claimed-owner mine a g h k e)))

-- Giving back undoes a claim: afterwards a claimed key is free, another key of the task is free
-- too, and every other key has the owner that it had before the claim.
pub release-claim :
    (keys : List String) (a k : String) (g h : Gate)
    → claim_task_resources keys a g ≡ (h, true)
    → (release_task_resources a h).active_resources k
      ≡ (if mem_text k keys then none else unless_owned a (g.active_resources k))
unfolding release_task_resources
release-claim keys a k g h e =
    ap (unless_owned a) (claimed-owner keys a g h k e) ∙ go (mem_text k keys)
  where
    go :
        (b : Bool)
        → unless_owned a (if b then some a else g.active_resources k)
          ≡ (if b then none else unless_owned a (g.active_resources k))
    go true = rw (same_text a) refl
    go false = refl
