-- ===== src/Events/Ids.antt =====
-- The order of the event ids of internal/server/aggregate/aggregator.go.
use Prim.Native.Nat.{◌/◌, ◌^◌, Ordering, compare as order_ℕ}
use Prim.Native.Char.{Char, code}
use Prim.Native.String.{String, compare as order, then}
use Prim.Native.String.compare
use Prim.Native.String.append
use Prim.Native.String
use semantic_framework.Prelude.{
  ℕ, zero, suc, ◌+◌, ◌%◌, ◌<◌, ◌≤◌, ◌≡◌, refl, true, false, List, [], ◌∷◌, text_lt, ltb, arith, ◌⊎◌,
  inl, inr, ap, ◌∙◌, length,
}
use semantic_framework.Events.Sequencer.{
  digit, bound, digits, padded, seq_width, event_id, next, issue,
}

code-digit : (d : ℕ) → d < 10 → code (digit d) ≡ 48 + d
code-digit zero h = refl
code-digit (suc zero) h = refl
code-digit (suc (suc zero)) h = refl
code-digit (suc (suc (suc zero))) h = refl
code-digit (suc (suc (suc (suc zero)))) h = refl
code-digit (suc (suc (suc (suc (suc zero))))) h = refl
code-digit (suc (suc (suc (suc (suc (suc zero)))))) h = refl
code-digit (suc (suc (suc (suc (suc (suc (suc zero))))))) h = refl
code-digit (suc (suc (suc (suc (suc (suc (suc (suc zero)))))))) h = refl
code-digit (suc (suc (suc (suc (suc (suc (suc (suc (suc zero))))))))) h = refl
code-digit (suc (suc (suc (suc (suc (suc (suc (suc (suc (suc d)))))))))) h = absurd (omega arith)

compare-cons :
    (c d : Char) (s t : String)
    → order (String.◌∷◌ c s) (String.◌∷◌ d t) ≡ then (order_ℕ (code c) (code d)) (order s t)
compare-cons c d s t = compare.cons-cons c d s t

-- The first of two characters with different numbers comes first.
compare-lt :
    (c d : Char) (s t : String)
    → code c < code d
    → order (String.◌∷◌ c s) (String.◌∷◌ d t) ≡ Ordering.lt
compare-lt c d s t h = compare-cons c d s t ∙ first (code c) (code d) h
  where
    first : (m n : ℕ) → m < n → then (order_ℕ m n) (order s t) ≡ Ordering.lt
    first m n h = ground arith

compare-same : (c : Char) (s t : String) → order (String.◌∷◌ c s) (String.◌∷◌ c t) ≡ order s t
compare-same c s t = compare-cons c c s t ∙ first (code c)
  where
    first : (n : ℕ) → then (order_ℕ n n) (order s t) ≡ order s t
    first n = ground arith

compare-prefix : (p s t : String) → order (String.◌++◌ p s) (String.◌++◌ p t) ≡ order s t
compare-prefix String.[] s t = rw (append.nil s, append.nil t)
compare-prefix (String.◌∷◌ c p) s t =
    rw (append.cons c p s, append.cons c p t)
      (compare-same c (String.◌++◌ p s) (String.◌++◌ p t) ∙ compare-prefix p s t)

digits-same : (w n : ℕ) (s t : String) → order (digits w n s) (digits w n t) ≡ order s t
digits-same zero n s t = refl
digits-same (suc w) n s t = digits-same w (n / 10) _ _ ∙ compare-same (digit (n % 10)) s t

-- Numbers of the same width are in the order of their digits, whatever follows them.
digits-lt :
    (w m n : ℕ) (s t : String)
    → m < n
    → n < bound w
    → order (digits w m s) (digits w n t) ≡ Ordering.lt
digits-lt zero m n s t h b = absurd (omega arith)
digits-lt (suc w) m n s t h b = elim (ten_cases m n h) [
  | inl e ↦ digits-lt w (m / 10) (n / 10) _ _ e (omega arith)
  | inr e ↦ same_tens e
]
  where
    ten_cases : (m n : ℕ) → m < n → (m / 10 < n / 10) ⊎ ((m / 10 ≡ n / 10) × (m % 10 < n % 10))
    ten_cases m n h = omega arith

    same_tens :
        (m / 10 ≡ n / 10) × (m % 10 < n % 10)
        → order (digits (suc w) m s) (digits (suc w) n t) ≡ Ordering.lt
    same_tens (q, r) = rw q (
        digits-same w (n / 10) _ _
        ∙ compare-lt (digit (m % 10)) (digit (n % 10)) s t (
            rw (code-digit (m % 10) (omega arith), code-digit (n % 10) (omega arith))
              (omega arith)))

padded-digits : (fuel w n : ℕ) (s : String) → n < bound w → padded (suc fuel) w n s ≡ digits w n s
padded-digits fuel w n s h = let fits : ltb n (bound w) ≡ true = ground arith in rw fits

-- The clock's part decides, and the counter where the clock stood still.
event_id-lt :
    (t u m n : ℕ)
    → t ≤ u
    → u < bound 19
    → m < n
    → n < bound seq_width
    → order (event_id t m) (event_id u n) ≡ Ordering.lt
unfolding event_id
event_id-lt t u m n h b l c =
    let wide_t = padded-digits 10 19 t (String.◌∷◌ "-" (padded 11 seq_width m "")) (omega arith) in
    let wide_u = padded-digits 10 19 u (String.◌∷◌ "-" (padded 11 seq_width n "")) b in
    compare-prefix "evt-" _ _
    ∙ ap (λ s. order s (padded 11 19 u (String.◌∷◌ "-" (padded 11 seq_width n "")))) wide_t
    ∙ ap (order _) wide_u
    ∙ elim (cases t u h) [ inl e ↦ digits-lt 19 t u _ _ e b | inr e ↦ counters e ]
  where
    cases : (t u : ℕ) → t ≤ u → (t < u) ⊎ (t ≡ u)
    cases t u h = omega arith

    counters :
        t ≡ u
        → order
            (digits 19 t (String.◌∷◌ "-" (padded 11 seq_width m "")))
            (digits 19 u (String.◌∷◌ "-" (padded 11 seq_width n "")))
          ≡ Ordering.lt
    counters e =
        ap
          (λ k.
            order (digits 19 k (String.◌∷◌ "-" (padded 11 seq_width m "")))
              (digits 19 u (String.◌∷◌ "-" (padded 11 seq_width n ""))))
          e
        ∙ digits-same 19 u _ _
        ∙ compare-same "-" _ _
        ∙ ap (λ s. order s (padded 11 seq_width n "")) (padded-digits 10 9 m "" (omega arith))
        ∙ ap (order _) (padded-digits 10 9 n "" c)
        ∙ digits-lt 9 m n "" "" l c

text_lt-order : (s t : String) → order s t ≡ Ordering.lt → text_lt s t ≡ true
text_lt-order s t h = ap (λ o. elim o [ Ordering.lt ↦ true | _ ↦ false ]) h

-- Each text comes before the next one.
abbrev pub Ascending : List String → Type 0
Ascending [] = Unit
Ascending (s ∷ []) = Unit
Ascending (s ∷ t ∷ ts) = (text_lt s t ≡ true) × Ascending (t ∷ ts)

-- The clock does not go back and shows at most 19 digits.
abbrev pub IsSteady : List ℕ → Type 0
IsSteady [] = Unit
IsSteady (t ∷ []) = t < bound 19
IsSteady (t ∷ u ∷ us) = (t ≤ u) × IsSteady (u ∷ us)

-- As long as the clock does not go back, also where it stands still, and fewer than 10 ^ 9 ids
-- have been handed out, the ids are strictly ascending as texts, so that the order of the ids is
-- the order in which they were handed out.
pub issue-Ascending :
    (seq : ℕ) (times : List ℕ)
    → IsSteady times
    → seq + length times < bound seq_width
    → Ascending (issue seq times)
unfolding issue next
issue-Ascending seq [] steady b = tt
issue-Ascending seq (t ∷ []) steady b = tt
issue-Ascending seq (t ∷ u ∷ us) steady b =
    let n = (seq + 1) % (2 ^ 64) in
    let step : n ≡ seq + 1 = omega arith in
    let later : (n + 1) % (2 ^ 64) ≡ n + 1 = omega arith in
    let ids : order (event_id t n) (event_id u ((n + 1) % (2 ^ 64))) ≡ Ordering.lt =
      event_id-lt t u n ((n + 1) % (2 ^ 64)) steady.0 (head_bound u us steady.1) (omega arith)
        (omega arith) in
    (text_lt-order _ _ ids, issue-Ascending n (u ∷ us) steady.1 (omega arith))
  where
    head_bound : (u : ℕ) (us : List ℕ) → IsSteady (u ∷ us) → u < bound 19
    head_bound u [] h = h
    head_bound u (v ∷ us) h = let k = head_bound v us h.1 in omega arith
