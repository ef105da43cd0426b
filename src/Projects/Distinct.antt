-- ===== src/Projects/Distinct.antt =====
-- Tables whose rows have different keys, and what holds of all their rows.
use semantic_framework.Prelude.{
  String, Bool, true, false, List, [], ◌∷◌, ◌++◌, none, some, ◌==◌, All, All-map, ◌≡◌, refl, ap,
  sym, ◌∙◌, eq_iff, if◌then◌else◌, Bool-cases, inl, inr,
}
use semantic_framework.Prelude.Table.{find, update, update_all, find-append_none}

module _ {A : Type 0} (key : A → String) where
  abbrev pub Distinct : List A → Type 0
  Distinct [] = Unit
  Distinct (x ∷ xs) = (find key (key x) xs ≡ none) × Distinct xs

  find-update_missing :
      (k : String) (test : A → Bool) (change : A → A) (xs : List A) (j : String)
      → ((x : A) → key (change x) ≡ key x)
      → find key j xs ≡ none
      → find key j (update key k test change xs) ≡ none
  unfolding find update
  find-update_missing k test change [] j same h = refl
  find-update_missing k test change (x ∷ xs) j same h = elim (Bool-cases (key x == j)) [
    | inl e ↦ let n : some x ≡ none = rw e at h in cc
    | inr e ↦ elim (Bool-cases (key x == k)) [
      | inl f ↦ elim (Bool-cases (test x)) [
        | inl t ↦ rw (f, t, same x, e) (rw e at h)
        | inr t ↦ rw (f, t, e) (rw e at h)
      ]
      | inr f ↦ rw (f, e) (find-update_missing k test change xs j same (rw e at h))
    ]
  ]

  pub update-Distinct :
      (k : String) (test : A → Bool) (change : A → A) (xs : List A)
      → ((x : A) → key (change x) ≡ key x)
      → Distinct xs
      → Distinct (update key k test change xs)
  unfolding update
  update-Distinct k test change [] same d = d
  update-Distinct k test change (x ∷ xs) same d = elim (Bool-cases (key x == k)) [
    | inl f ↦ elim (Bool-cases (test x)) [ inl t ↦ rw (f, t, same x) d | inr t ↦ rw (f, t) d ]
    | inr f ↦ rw f (
      find-update_missing k test change xs (key x) same d.0,
      update-Distinct k test change xs same d.1,
    )
  ]

  -- Another row is found as before.
  pub find-update_apart :
      (k j : String) (test : A → Bool) (change : A → A) (xs : List A)
      → (j == k) ≡ false
      → ((x : A) → key (change x) ≡ key x)
      → find key j (update key k test change xs) ≡ find key j xs
  unfolding find update
  find-update_apart k j test change [] n same = refl
  find-update_apart k j test change (x ∷ xs) n same = elim (Bool-cases (key x == k)) [
    | inl f ↦
        let e : key x ≡ k = (eq_iff (key x) k).0 f in
        let m : (key x == j) ≡ false = apart (key x) e in
        elim (Bool-cases (test x)) [ inl t ↦ rw (f, t, same x, m) refl | inr t ↦ rw (f, t, m) refl ]
    | inr f ↦
        rw f
          (ap (λ o. if key x == j then some x else o) (find-update_apart k j test change xs n same))
  ]
    where
      apart : (i : String) → i ≡ k → (i == j) ≡ false
      apart i e = elim (Bool-cases (i == j)) [
        | inl g ↦ let h : (j == k) ≡ true = (eq_iff j k).1 (sym ((eq_iff i j).0 g) ∙ e) in cc
        | inr g ↦ g
      ]

  find-update_all_missing :
      (test : A → Bool) (change : A → A) (xs : List A) (j : String)
      → ((x : A) → key (change x) ≡ key x)
      → find key j xs ≡ none
      → find key j (update_all test change xs) ≡ none
  unfolding find update_all
  find-update_all_missing test change [] j same h = refl
  find-update_all_missing test change (x ∷ xs) j same h = elim (Bool-cases (key x == j)) [
    | inl e ↦ let n : some x ≡ none = rw e at h in cc
    | inr e ↦ elim (Bool-cases (test x)) [
      | inl t ↦ rw (t, same x, e) (find-update_all_missing test change xs j same (rw e at h))
      | inr t ↦ rw (t, e) (find-update_all_missing test change xs j same (rw e at h))
    ]
  ]

  pub update_all-Distinct :
      (test : A → Bool) (change : A → A) (xs : List A)
      → ((x : A) → key (change x) ≡ key x)
      → Distinct xs
      → Distinct (update_all test change xs)
  unfolding update_all
  update_all-Distinct test change [] same d = d
  update_all-Distinct test change (x ∷ xs) same d = elim (Bool-cases (test x)) [
    | inl t ↦
        rw (t, same x)
          (
            find-update_all_missing test change xs (key x) same d.0,
            update_all-Distinct test change xs same d.1,
          )
    | inr t ↦ rw t (
      find-update_all_missing test change xs (key x) same d.0,
      update_all-Distinct test change xs same d.1,
    )
  ]

  -- What holds of all rows holds of them after a statement, if it holds of the row that changes.
  pub All-update :
      (P : A → Type 0) (k : String) (test : A → Bool) (change : A → A) (xs : List A)
      → All P xs
      → ((x : A) → find key k xs ≡ some x → test x ≡ true → P x → P (change x))
      → All P (update key k test change xs)
  unfolding find update
  All-update P k test change [] h s = h
  All-update P k test change (x ∷ xs) h s = elim (Bool-cases (key x == k)) [
    | inl f ↦ elim (Bool-cases (test x)) [
      | inl t ↦ rw (f, t) (s x (rw f refl) t h.0, h.1)
      | inr t ↦ rw (f, t) h
    ]
    | inr f ↦ rw f (h.0, All-update P k test change xs h.1 (λ y g t p. s y (rw f g) t p))
  ]

  pub All-update_all :
      (P : A → Type 0) (test : A → Bool) (change : A → A) (xs : List A)
      → All P xs
      → ((x : A) → P x → P (change x))
      → All P (update_all test change xs)
  unfolding update_all
  All-update_all P test change [] h s = h
  All-update_all P test change (x ∷ xs) h s = elim (Bool-cases (test x)) [
    | inl t ↦ rw t (s x h.0, All-update_all P test change xs h.1 s)
    | inr t ↦ rw t (h.0, All-update_all P test change xs h.1 s)
  ]

  -- Each row is found under its key.
  pub Distinct-own : (xs : List A) → Distinct xs → All (λ x. find key (key x) xs ≡ some x) xs
  unfolding find
  Distinct-own [] d = d
  Distinct-own (x ∷ xs) d = (
    rw ((eq_iff (key x) (key x)).1 refl) refl,
    All-map (λ y. find key (key y) xs ≡ some y) (λ y. find key (key y) (x ∷ xs) ≡ some y) xs
        (Distinct-own xs d.1)
        (λ y h. elim (Bool-cases (key x == key y)) [
          | inl e ↦ absurd (clash y ((eq_iff (key x) (key y)).0 e) h)
          | inr e ↦ rw e h
        ]),
  )
    where
      clash : (y : A) → key x ≡ key y → find key (key y) xs ≡ some y → ⊥
      clash y e h = let n : none ≡ some y = sym d.0 ∙ ap (λ k. find key k xs) e ∙ h in cc

  pub append-Distinct :
      (xs : List A) (y : A) → find key (key y) xs ≡ none → Distinct xs → Distinct (xs ++ y ∷ [])
  unfolding find
  append-Distinct [] y h d = (refl, tt)
  append-Distinct (x ∷ xs) y h d = elim (Bool-cases (key x == key y)) [
    | inl e ↦ let n : some x ≡ none = rw e at h in cc
    | inr e ↦ (
      find-append_none key (key x) xs (y ∷ []) d.0 ∙ other e,
      append-Distinct xs y (rw e at h) d.1,
    )
  ]
    where
      other : (key x == key y) ≡ false → find key (key x) (y ∷ []) ≡ none
      other e = elim (Bool-cases (key y == key x)) [
        | inl f ↦
            let g : (key x == key y) ≡ true =
              (eq_iff (key x) (key y)).1 (sym ((eq_iff (key y) (key x)).0 f)) in
            cc
        | inr f ↦ rw f refl
      ]
