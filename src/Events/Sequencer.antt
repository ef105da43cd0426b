-- ===== src/Events/Sequencer.antt =====
-- The Sequencer of internal/server/aggregate/aggregator.go, which hands out the event ids.
use Prim.Native.Nat.{◌/◌, ◌^◌}
use Prim.Native.Char.{Char}
use Prim.Native.String.{String, compare, then, char_at}
use Prim.Native.String
use semantic_framework.Prelude.{
  ℕ, zero, suc, ◌+◌, ◌*◌, ◌%◌, ◌≡◌, refl, List, [], ◌∷◌, ltb, if◌then◌else◌,
}

abbrev pub digit : ℕ → Char
digit d = char_at "0123456789" d

-- Ten to the power of a width.
abbrev pub bound : ℕ → ℕ
bound zero = 1
bound (suc w) = 10 * bound w

-- The last `w` decimal digits of a number, in front of a text.
abbrev pub digits : ℕ → ℕ → String → String
digits zero n s = s
digits (suc w) n s = digits w (n / 10) (String.◌∷◌ (digit (n % 10)) s)

-- `%0*d`: padded to the width, and wider for a number that does not fit. Eleven more digits are
-- enough for any `uint64` above nine.
abbrev pub padded : ℕ → ℕ → ℕ → String → String
padded zero w n s = digits w n s
padded (suc fuel) w n s =
    let rest = padded fuel (suc w) n s in if ltb n (bound w) then digits w n s else rest

abbrev pub seq_width : ℕ
seq_width = 9

-- `fmt.Sprintf("evt-%019d-%0*d", now, seqWidth, n)`
unfoldable pub event_id : ℕ → ℕ → String
event_id now n = String.◌++◌ "evt-" (padded 11 19 now (String.◌∷◌ "-" (padded 11 seq_width n "")))

-- The counter and the id; `seq` is a `uint64`.
unfoldable pub next : ℕ → ℕ → ℕ × String
unfolding event_id
next now seq = let n = (seq + 1) % (2 ^ 64) in (n, event_id now n)

-- The ids that are handed out at the given readings of the clock.
unfoldable pub issue : ℕ → List ℕ → List String
unfolding next
issue seq [] = []
issue seq (now ∷ times) = (next now seq).1 ∷ issue (next now seq).0 times

event_id_runs : event_id 1700000000000000000 42 ≡ "evt-1700000000000000000-000000042"
unfolding event_id
event_id_runs = refl

event_id_wide : event_id 5 1234567890 ≡ "evt-0000000000000000005-1234567890"
unfolding event_id
event_id_wide = refl
