-- ===== src/Prelude/Maps.antt =====
-- Go's maps with text keys, as the function that a lookup computes.
use Prim.Native.String.{String}
use mathlib.Core.Option.{Option, none, some}
use text.Mathlib.Text.{◌==◌}
use package.semantic_framework.Prelude.Tests.{if◌then◌else◌}

abbrev pub Map {ℓ} : Type ℓ → Type ℓ
Map V = String → Option V

module _ {ℓ} {V : Type ℓ} where
  -- `make(map[string]V)`
  abbrev pub empty_map : Map V
  empty_map k = none

  -- `m[key] = value`
  abbrev pub put : String → V → Map V → Map V
  put key value m k = if k == key then some value else m k

  -- `delete(m, key)`
  abbrev pub erase : String → Map V → Map V
  erase key m k = if k == key then none else m k
