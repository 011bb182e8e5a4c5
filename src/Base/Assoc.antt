-- ===== src/Base/Assoc.antt =====
-- Go's `map[string]V` as a list of its entries. Iteration order is never used.
pub mod Laws
use Prim.Native.String.{String}
use mathlib.Core.Option.{Option, none, some}
use mathlib.Core.List.{List, [], ◌∷◌}
use text.Mathlib.Text.{◌==◌ as str_eq}
use qtip_challenge.Base.Tests.{if◌then◌else◌}

abbrev pub GoMap {ℓ} : Type ℓ → Type ℓ
GoMap Value = List (String × Value)

-- `m[key]`, with the test whether the key is there.
unfoldable pub lookup {ℓ} : {Value : Type ℓ} → GoMap Value → String → Option Value
lookup [] key = none
lookup (entry ∷ others) key =
    let deeper = lookup others key in if str_eq key entry.0 then some entry.1 else deeper

-- `m[key] = value`
unfoldable pub insert {ℓ} : {Value : Type ℓ} → GoMap Value → String → Value → GoMap Value
insert [] key value = (key, value) ∷ []
insert (entry ∷ others) key value =
    let deeper = insert others key value in
    if str_eq key entry.0 then (key, value) ∷ others else entry ∷ deeper
