-- ===== src/Projects/Normal.antt =====
-- internal/store/project.go: what `normalizedBindings` makes of a list of values.
use semantic_framework.Prelude.{
  ℕ, ◌+◌, ◌≤◌, ◌<◌, String, Bool, true, false, not, ◌&&◌, ◌||◌, List, [], ◌∷◌, map, ◌==◌, mem_text,
  text_lt, text_lt-asymmetric, select, length, order_by-IsOrdered, length-select-order_by,
  IsOrdered, trim_space, if◌then◌else◌, ◌≡◌, refl, sym, ◌∙◌, subst, eq_iff, Bool-cases, inl, inr,
  arith,
}
use semantic_framework.Projects.Bindings.{collected, normalized_bindings, has_repeats}

-- How often a text stands in a list.
abbrev pub count : String → List String → ℕ
count w vs = length (select (λ v. w == v) vs)

-- A text is wanted once if it is no blank and one of the values is this text when it is trimmed.
abbrev pub wanted : String → List String → ℕ
wanted w values = if not (w == "") && mem_text w (map trim_space values) then 1 else 0

-- The list in order, with every wanted text once and no other.
pub record IsNormal (values vs : List String) : Type 0 where
  pub ordered : IsOrdered text_lt vs
  pub once : (w : String) → count w vs ≡ wanted w values

count-absent : (w : String) (vs : List String) → mem_text w vs ≡ false → count w vs ≡ 0
count-absent w [] h = refl
count-absent w (v ∷ vs) h = elim (Bool-cases (w == v)) [
  | inl e ↦ absurd (ground (arith, e, h))
  | inr e ↦ rw e (count-absent w vs (ground (arith, e, h)))
]

count-present : (w : String) (vs : List String) → mem_text w vs ≡ true → 0 < count w vs
count-present w [] h = cc
count-present w (v ∷ vs) h = elim (Bool-cases (w == v)) [
  | inl e ↦ rw e (omega arith)
  | inr e ↦ rw e (count-present w vs (ground (arith, e, h)))
]

count-step :
    (w t : String) (rest : List String) (seen : Bool)
    → count w rest ≡ (if not (w == "") && seen then 1 else 0)
    → count w (if t == "" then rest else if mem_text t rest then rest else t ∷ rest)
      ≡ (if not (w == "") && (w == t || seen) then 1 else 0)
count-step w t rest seen h = elim (Bool-cases (w == t)) [
  | inl e ↦
      subst
        (λ x.
          count w (if x == "" then rest else if mem_text x rest then rest else x ∷ rest)
          ≡ (if not (w == "") && (w == x || seen) then 1 else 0))
        ((eq_iff w t).0 e) (own (w == "") refl (mem_text w rest) refl seen h)
  | inr e ↦ other e (t == "") (mem_text t rest)
]
  where
    same : (w == w) ≡ true
    same = (eq_iff w w).1 refl

    own :
        (b : Bool)
        → (w == "") ≡ b
        → (m : Bool) → mem_text w rest ≡ m
        → (seen : Bool) → count w rest ≡ (if not (w == "") && seen then 1 else 0)
        → count w (if w == "" then rest else if mem_text w rest then rest else w ∷ rest)
          ≡ (if not (w == "") && (w == w || seen) then 1 else 0)
    own true eb m em seen h = rw eb (ground (arith, eb, h))
    own false eb true em true h = rw (eb, em, same) (ground (arith, eb, h))
    own false eb true em false h =
        let z : count w rest ≡ 0 = ground (arith, eb, h) in
        absurd (omega (arith, z, count-present w rest em))
    own false eb false em seen h = rw (eb, em, same, count-absent w rest em) refl

    other :
        (w == t) ≡ false
        → (b m : Bool)
        → count w (if b then rest else if m then rest else t ∷ rest)
          ≡ (if not (w == "") && (w == t || seen) then 1 else 0)
    other e true m = ground (arith, e, h)
    other e false true = ground (arith, e, h)
    other e false false = ground (arith, e, h)

count-collected : (w : String) (values : List String) → count w (collected values) ≡ wanted w values
count-collected w [] = ground arith
count-collected w (v ∷ vs) =
    count-step w (trim_space v) (collected vs) (mem_text w (map trim_space vs))
      (count-collected w vs)

pub normalized_bindings-IsNormal :
    (values : List String) → IsNormal values (normalized_bindings values)
unfolding normalized_bindings
normalized_bindings-IsNormal values = record {
  ordered = order_by-IsOrdered text_lt text_lt-asymmetric (collected values);
  once = λ w.
      length-select-order_by text_lt (λ v. w == v) (collected values) ∙ count-collected w values;
}

-- A list in which no text stands twice passes the primary key.
distinct-has_repeats : (vs : List String) → ((w : String) → count w vs ≤ 1) → has_repeats vs ≡ false
distinct-has_repeats [] h = refl
distinct-has_repeats (v ∷ vs) h = elim (Bool-cases (mem_text v vs)) [
  | inl m ↦
      let same : (v == v) ≡ true = (eq_iff v v).1 refl in
      let two : 1 + count v vs ≤ 1 = ground (arith, same, h v) in
      absurd (omega (arith, two, count-present v vs m))
  | inr m ↦ rw m (distinct-has_repeats vs fewer)
]
  where
    fewer : (w : String) → count w vs ≤ 1
    fewer w = elim (Bool-cases (w == v)) [
      | inl e ↦ let k : 1 + count w vs ≤ 1 = ground (arith, e, h w) in omega (arith, k)
      | inr e ↦ ground (arith, e, h w)
    ]

pub normalized-has_repeats :
    (values : List String) → has_repeats (normalized_bindings values) ≡ false
normalized-has_repeats values =
    distinct-has_repeats (normalized_bindings values)
      λ w. subst (λ n. n ≤ 1) (sym ((normalized_bindings-IsNormal values).once w)) (few _)
  where
    few : (b : Bool) → (if b then 1 else 0) ≤ 1
    few true = omega arith
    few false = omega arith
