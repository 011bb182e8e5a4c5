-- ===== src/Base/Assoc/Laws.antt =====
-- What a map holds after an insertion.
use Prim.Native.String.{String}
use mathlib.Core.Path.{◌≡◌}
use mathlib.Core.Logic.{◌≢◌}
use mathlib.Core.Option.{some}
use mathlib.Core.List.{[], ◌∷◌}
use native.Mathlib.Omega.{arith}
use text.Mathlib.TextEquality.{eq_iff}
use qtip_challenge.Base.Assoc.{GoMap, lookup, insert}

pub lookup-insert : (m : GoMap String) (k v : String) → lookup (insert m k v) k ≡ some v
unfolding lookup insert
lookup-insert [] k v = ground (arith, eq_iff k k)
lookup-insert (e ∷ m) k v = ground (arith, eq_iff k k, lookup-insert m k v)

pub lookup-insert_other :
    (m : GoMap String) (k j v : String) → j ≢ k → lookup (insert m k v) j ≡ lookup m j
unfolding lookup insert
lookup-insert_other [] k j v h = ground (arith, eq_iff j k)
lookup-insert_other (e ∷ m) k j v h =
    ground (arith, eq_iff j k, eq_iff k e.0, eq_iff j e.0, lookup-insert_other m k j v h)
