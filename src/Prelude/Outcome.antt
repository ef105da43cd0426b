-- ===== src/Prelude/Outcome.antt =====
-- Go's `(value, error)` results, with the sentinel errors of the store.

use mathlib.Core.Path.{◌≡◌, refl}
use mathlib.Core.Logic.{◌⊎◌, inl, inr}
use mathlib.Core.Bool.{Bool, true, false}
use package.semantic_framework.Prelude.Tests.{if◌then◌else◌}

-- `no_rows` is `sql.ErrNoRows` handed on as it is; `constraint` is a constraint of the schema that
-- the database refuses to break.
pub data Error : Type 0 where
  invalid_state revision_conflict not_found robot_reserved no_rows constraint : Error
  event_gap not_pending project_inactive stale_map_generation : Error
  workflow_exists project_archived malformed : Error
  project_has_active_work default_project_error invalid_argument : Error

pub data Result {ℓ} (A : Type ℓ) : Type ℓ where
  ok : A → Result A
  err : Error → Result A

-- `if !b { return …, e }`
abbrev pub guard : Bool → Error → Result (Unit {0})
guard b e = if b then ok tt else err e

module _ {ℓ κ} {A : Type ℓ} {B : Type κ} where
  infixl 5 ◌>>=◌
  abbrev pub ◌>>=◌ : Result A → (A → Result B) → Result B
  r >>= next = elim r [ err e ↦ err e | ok a ↦ next a ]

module _ {ℓ} {B : Type ℓ} where
  infixl 5 ◌>>◌
  abbrev pub ◌>>◌ : Result (Unit {0}) → Result B → Result B
  first >> last = first >>= λ _. last

-- A chain returns only if its first part does.
pub first_returns {ℓ} :
    {B : Type ℓ} (first : Result (Unit {0})) (last : Result B) (b : B)
    → (first >> last) ≡ ok b
    → first ≡ ok tt
first_returns (ok u) last b h = refl
first_returns (err e) last b h = cc

-- Inversion of chains that return.
pub >>=-ok {ℓ κ} :
    {A : Type ℓ} {B : Type κ} (r : Result A) (next : A → Result B) (b : B)
    → (r >>= next) ≡ ok b
    → (a : A) × (r ≡ ok a) × (next a ≡ ok b)
>>=-ok (ok a) next b h = (a, refl, h)
>>=-ok (err e) next b h = cc

pub >>-ok {ℓ} :
    {B : Type ℓ} (first : Result (Unit {0})) (last : Result B) (b : B)
    → (first >> last) ≡ ok b
    → (first ≡ ok tt) × (last ≡ ok b)
>>-ok (ok u) last b h = (refl, h)
>>-ok (err e) last b h = cc

pub guard-ok : (b : Bool) (e : Error) → guard b e ≡ ok tt → b ≡ true
guard-ok true e h = refl
guard-ok false e h = cc

pub if-ok {ℓ} :
    {A : Type ℓ} (b : Bool) (x y : Result A) (a : A)
    → (if b then x else y) ≡ ok a
    → ((b ≡ true) × (x ≡ ok a)) ⊎ ((b ≡ false) × (y ≡ ok a))
if-ok true x y a h = inl (refl, h)
if-ok false x y a h = inr (refl, h)
