-- ===== src/Events/Classify.antt =====
-- internal/server/aggregate/rules.go: how important an event is.
use Prim.Native.Char.{Char, code}
use Prim.Native.String
use semantic_framework.Prelude.{
  ℕ, ◌-◌, String, ◌&&◌, List, [], ◌∷◌, Option, none, some, ◌==◌, leb, eqb, if◌then◌else◌,
}
use semantic_framework.Prelude.Table.{find}

pub data ℤ : Type 0 where
  pos : ℕ → ℤ
  negsuc : ℕ → ℤ

pub data Importance : Type 0 where
  critical normal low : Importance

-- `json.Unmarshal` gives every number as a float64, of which the rule reads the integer part.
pub data Value : Type 0 where
  float : ℤ → Value
  int : ℤ → Value
  text : String → Value
  structured : Value

abbrev pub Fields : Type 0
Fields = List (String × Value)

-- The dynamic types that `payloadFields` tells apart.
pub data Payload : Type 0 where
  fields : Fields → Payload
  raw_message : String → Payload
  bytes : String → Payload
  unknown : Payload

abbrev field_key : String × Value → String
field_key (k, v) = k

abbrev default_of : Option (String × Importance) → Importance
default_of none = normal
default_of (some (k, i)) = i

abbrev table_key : String × Importance → String
table_key (k, i) = k

abbrev pub channel_defaults : List (String × Importance)
channel_defaults = ("dialogue", normal) ∷ ("trace", low) ∷ ("artifact", normal) ∷ []

abbrev pub alert_severity : List (String × Importance)
alert_severity =
    ("critical", critical)
    ∷ ("fatal", critical)
    ∷ ("high", critical)
    ∷ ("warning", normal)
    ∷ ("warn", normal)
    ∷ ("medium", normal)
    ∷ ("info", low)
    ∷ ("low", low)
    ∷ ("debug", low)
    ∷ []

-- `strings.ToLower` on the characters whose lower case is ASCII; the table has no other.
letters : String
letters = "abcdefghijklmnopqrstuvwxyz"

lower : Char → Char
unfolding letters
lower c =
    let n = code c in
    if leb 65 n && leb n 90
    then Prim.Native.String.char_at letters (n - 65)
    else if eqb n 0x130
    then "i"
    else if eqb n 0x212a
    then "k"
    else c

unfoldable pub to_lower : String → String
unfolding lower letters
to_lower String.[] = ""
to_lower (String.◌∷◌ c s) = String.◌∷◌ (lower c) (to_lower s)

abbrev pub alert_level_critical : ℕ
alert_level_critical = 3

unfoldable pub classify_alert_level : ℤ → Importance
classify_alert_level (pos n) =
    if leb alert_level_critical n then critical else if leb 1 n then low else normal
classify_alert_level (negsuc n) = normal

module _ (unmarshal : String → Option Fields) where
  abbrev pub payload_fields : Payload → Option Fields
  payload_fields (fields f) = some f
  payload_fields (raw_message s) = unmarshal s
  payload_fields (bytes s) = unmarshal s
  payload_fields unknown = none

  level_importance : Option (String × Value) → Importance
  unfolding classify_alert_level to_lower find
  level_importance none = normal
  level_importance (some (k, float n)) = classify_alert_level n
  level_importance (some (k, int n)) = classify_alert_level n
  level_importance (some (k, text s)) = default_of (find table_key (to_lower s) alert_severity)
  level_importance (some (k, structured)) = normal

  fields_importance : Option Fields → Importance
  unfolding level_importance find
  fields_importance none = normal
  fields_importance (some f) = level_importance (find field_key "level" f)

  unfoldable pub classify_alert : Payload → Importance
  unfolding fields_importance
  classify_alert payload = fields_importance (payload_fields payload)

  unfoldable pub classify : String → Payload → Importance
  unfolding classify_alert find
  classify channel payload =
      if channel == "interaction"
      then critical
      else if channel == "alert"
      then classify_alert payload
      else default_of (find table_key channel channel_defaults)
