-- ===== src/Base/Texts/Laws.antt =====
-- Prefixes that are there.
use Prim.Native.String.{String, [] as end, ◌∷◌ as ◌before◌}
use text.Mathlib.TextLemmas.{nil-append, cons-append}
use mathlib.Core.Path.{◌≡◌}
use mathlib.Core.Option.{some}
use native.Mathlib.Omega.{arith}
use Prim.Native.String.{◌++◌ as ◌<>◌}
use qtip_challenge.Base.Texts.{strip_prefix}

-- A prefix is taken off again.
pub strip_prefix-append : (p s : String) → strip_prefix p (p <> s) ≡ some s
unfolding strip_prefix
strip_prefix-append end s = rw nil-append
strip_prefix-append (◌before◌ c p) s = rw cons-append (ground (arith, strip_prefix-append p s))
