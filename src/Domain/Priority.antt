-- ===== src/Domain/Priority.antt =====
-- `Priority` of internal/domain/types.go.
use qtip_challenge.Base.{String, ◌<>◌, Bool, ◌&&◌, if◌then◌else◌}
use qtip_challenge.Base.Int.{ℤ, pos, leb_ℤ, eqb_ℤ}
use qtip_challenge.Base.Decimal.{itoa}

-- An `int8` in the source.
abbrev pub Priority : Type 0
Priority = ℤ

abbrev pub low : Priority
low = pos 0

abbrev pub normal : Priority
normal = pos 1

abbrev pub high : Priority
high = pos 2

abbrev pub critical : Priority
critical = pos 3

unfoldable pub to_string : Priority → String
to_string p =
    if eqb_ℤ p low
    then "low"
    else if eqb_ℤ p normal
    then "normal"
    else if eqb_ℤ p high
    then "high"
    else if eqb_ℤ p critical
    then "critical"
    else "unknown(" <> itoa p <> ")"

unfoldable pub queue_name : Priority → String
unfolding to_string
queue_name p = "{queue}:email:" <> to_string p

unfoldable pub is_valid : Priority → Bool
is_valid p = leb_ℤ low p && leb_ℤ p critical
