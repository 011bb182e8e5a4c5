-- ===== src/Base/Texts.antt =====
-- Prefixes and parts of native texts, as Go's package `strings` finds them.
pub mod Laws
use Prim.Native.Char.{code}
use Prim.Native.String.{String, [], ◌∷◌}
use mathlib.Core.Bool.{Bool, ◌||◌}
use mathlib.Core.Option.{Option, none, some}
use qtip_challenge.Base.Tests.{◌==◌, if◌then◌else◌, is_some}

-- `strings.HasPrefix(key, prefix)` with the rest of the text, `key[len(prefix):]`.
unfoldable pub strip_prefix : String → String → Option String
strip_prefix [] s = some s
strip_prefix (p ∷ ps) [] = none
strip_prefix (p ∷ ps) (c ∷ cs) =
    let rest = strip_prefix ps cs in if code p == code c then rest else none

-- `strings.Contains`
unfoldable pub contains_text : String → String → Bool
unfolding strip_prefix
contains_text [] part = is_some (strip_prefix part [])
contains_text (c ∷ s) part = is_some (strip_prefix part (c ∷ s)) || contains_text s part
