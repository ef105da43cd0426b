-- ===== src/Store/Kahn.antt =====
-- What the loop of `validateSubTaskDrafts` in internal/store/workflow.go has seen after some
-- rounds: the ids that were taken from the queue, newest first.
use semantic_framework.Prelude.{
  ℕ, suc, ◌+◌, ◌-◌, String, ◌≡◌, refl, ap, sym, ◌∙◌, Bool, true, false, ◌&&◌, List, [], ◌∷◌, ◌++◌,
  ◌==◌, eqb, if◌then◌else◌, arith, eq_iff, Bool-cases, inl, inr,
}
use semantic_framework.Store.Graph.{Edge, Degree, targets, lower, released}
use semantic_framework.Store.GraphBounds.{blocked, one_if}

-- How often an id occurs in a list.
abbrev pub times : String → List String → ℕ
times x [] = 0
times x (y ∷ ys) = let rest = times x ys in if y == x then suc rest else rest

pub times-append : (x : String) (xs ys : List String) → times x (xs ++ ys) ≡ times x xs + times x ys
times-append x [] ys = omega arith
times-append x (y ∷ xs) ys = go (y == x) (times-append x xs ys)
  where
    go :
        (b : Bool)
        → times x (xs ++ ys) ≡ times x xs + times x ys
        → (if b then suc (times x (xs ++ ys)) else times x (xs ++ ys))
          ≡ (if b then suc (times x xs) else times x xs) + times x ys
    go true h = omega (arith, h)
    go false h = h

-- `indegree[id]`
abbrev pub degree_of : String → List Degree → ℕ
degree_of x [] = 0
degree_of x (d ∷ ds) = if d.id == x then d.degree else degree_of x ds

-- The edges into an id whose source has not been taken.
abbrev pub unmet : String → List String → List Edge → ℕ
unmet x taken [] = 0
unmet x taken (e ∷ es) =
    let rest = unmet x taken es in
    if e.target == x && eqb (times e.source taken) 0 then suc rest else rest

pub degree_of-lower :
    (x : String) (ds : List Degree) → degree_of x (lower x ds) ≡ degree_of x ds - 1
unfolding lower
degree_of-lower x [] = refl
degree_of-lower x (d ∷ ds) = elim (Bool-cases (d.id == x)) [
  | inl e ↦ rw (e, e)
  | inr e ↦ rw (e, e) (degree_of-lower x ds)
]

pub degree_of-lower_other :
    (x y : String) (ds : List Degree) → (x == y) ≡ false → degree_of y (lower x ds) ≡ degree_of y ds
unfolding lower
degree_of-lower_other x y [] h = refl
degree_of-lower_other x y (d ∷ ds) h = elim (Bool-cases (d.id == x)) [
  | inl e ↦
      let q : d.id ≡ x = (eq_iff d.id x).0 e in
      let away : (d.id == y) ≡ false = rw q h in rw (e, away)
  | inr e ↦ rw e (ap (λ n. if d.id == y then d.degree else n) (degree_of-lower_other x y ds h))
]

pub released-degree : (x : String) (ds : List Degree) → released x ds ≡ eqb (degree_of x ds) 1
unfolding released
released-degree x [] = refl
released-degree x (d ∷ ds) = elim (Bool-cases (d.id == x)) [
  | inl e ↦ rw e
  | inr e ↦ rw e (released-degree x ds)
]

-- A lowered degree that falls to 0 is one blocked id fewer.
pub blocked-lower_eq :
    (id : String) (ds : List Degree) → blocked (lower id ds) + one_if (released id ds) ≡ blocked ds
unfolding lower released
blocked-lower_eq id [] = omega arith
blocked-lower_eq id (d ∷ ds) = elim (Bool-cases (d.id == id)) [
  | inl e ↦ rw e (here d.degree (blocked ds))
  | inr e ↦ rw e (later (eqb d.degree 0) (blocked-lower_eq id ds))
]
  where
    here :
        (n r : ℕ)
        → (if eqb (n - 1) 0 then r else suc r) + one_if (eqb n 1) ≡ (if eqb n 0 then r else suc r)
    here n r = ground arith

    later :
        (c : Bool)
        → blocked (lower id ds) + one_if (released id ds) ≡ blocked ds
        → (if c then blocked (lower id ds) else suc (blocked (lower id ds)))
            + one_if (released id ds)
          ≡ (if c then blocked ds else suc (blocked ds))
    later true h = h
    later false h = omega (arith, h)

-- Taking an id meets the edges that leave it.
pub unmet-take :
    (x id : String) (taken : List String) (es : List Edge)
    → times id taken ≡ 0
    → unmet x taken es ≡ unmet x (id ∷ taken) es + times x (targets id es)
unmet-take x id taken [] fresh = refl
unmet-take x id taken (e ∷ es) fresh =
    go (e.target == x) (e.source == id) refl (id == e.source) refl (unmet-take x id taken es fresh)
    ∙ ap (λ k. unmet x (id ∷ taken) (e ∷ es) + k) (leaving (e.source == id))
  where
    leaving :
        (c : Bool)
        → (if c
            then (if e.target == x then suc (times x (targets id es)) else times x (targets id es))
            else times x (targets id es))
          ≡ times x (if c then e.target ∷ targets id es else targets id es)
    leaving true = refl
    leaving false = refl

    u : ℕ
    u = unmet x taken es

    w : ℕ
    w = unmet x (id ∷ taken) es

    t : ℕ
    t = times x (targets id es)

    go :
        (b c : Bool)
        → (e.source == id) ≡ c
        → (d : Bool) → (id == e.source) ≡ d
        → u ≡ w + t
        → (if b && eqb (times e.source taken) 0 then suc u else u)
          ≡ (if b && eqb (if d then suc (times e.source taken) else times e.source taken) 0
              then suc w
              else w)
            + (if c then (if b then suc t else t) else t)
    go b true p true q h =
        let s : e.source ≡ id = (eq_iff e.source id).0 p in
        let n : times e.source taken ≡ 0 = rw s fresh in both b (times e.source taken) n h
      where
        both :
            (b : Bool) (n : ℕ)
            → n ≡ 0
            → u ≡ w + t
            → (if b && eqb n 0 then suc u else u)
              ≡ (if b && eqb (suc n) 0 then suc w else w) + (if b then suc t else t)
        both true n z h = ground (arith, z, h)
        both false n z h = h
    go b true p false q h = absurd (unequal q)
      where
        unequal : (id == e.source) ≡ false → ⊥
        unequal q =
            let s : e.source ≡ id = (eq_iff e.source id).0 p in
            let r : (id == e.source) ≡ true = (eq_iff id e.source).1 (sym s) in cc
    go b false p true q h = absurd (unequal q)
      where
        unequal : (id == e.source) ≡ true → ⊥
        unequal q =
            let s : id ≡ e.source = (eq_iff id e.source).0 q in
            let r : (e.source == id) ≡ true = (eq_iff e.source id).1 (sym s) in cc
    go b false p false q h = neither (b && eqb (times e.source taken) 0) h
      where
        neither : (c : Bool) → u ≡ w + t → (if c then suc u else u) ≡ (if c then suc w else w) + t
        neither true h = omega (arith, h)
        neither false h = h
