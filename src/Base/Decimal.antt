-- ===== src/Base/Decimal.antt =====
-- `strconv.Itoa`, `strconv.FormatInt(n, 10)` and the verb `%d`: decimal printing of integers.
pub mod Laws
use Prim.Native.Nat.{ℕ, zero, suc, ◌+◌, ◌-◌, ◌*◌, ◌/◌, ◌%◌, ◌≤◌, ◌<◌}
use Prim.Native.Char.{Char, code}
use Prim.Native.String.{String, [], ◌∷◌, ◌++◌ as ◌<>◌}
use mathlib.Core.Path.{◌≡◌, refl, sym, ap, ◌∙◌}
use mathlib.Core.Bool.{Bool, true, false, ◌||◌}
use native.Mathlib.Omega.{arith}
use qtip_challenge.Base.Tests.{ltb, ◌==◌, if◌then◌else◌}
use qtip_challenge.Base.Int.{ℤ, pos, negsuc}

abbrev pub digit_char : ℕ → Char
digit_char zero = "0"
digit_char (suc zero) = "1"
digit_char (suc (suc zero)) = "2"
digit_char (suc (suc (suc zero))) = "3"
digit_char (suc (suc (suc (suc zero)))) = "4"
digit_char (suc (suc (suc (suc (suc zero))))) = "5"
digit_char (suc (suc (suc (suc (suc (suc zero)))))) = "6"
digit_char (suc (suc (suc (suc (suc (suc (suc zero))))))) = "7"
digit_char (suc (suc (suc (suc (suc (suc (suc (suc zero)))))))) = "8"
digit_char _ = "9"

-- The digits of `n` before `out`; each round drops one digit, so `n` rounds are enough.
unfoldable pub emit : ℕ → ℕ → String → String
emit zero n out = digit_char n ∷ out
emit (suc fuel) n out =
    let more = emit fuel (n / 10) (digit_char (n % 10) ∷ out) in
    if ltb n 10 then digit_char n ∷ out else more

unfoldable pub format_nat : ℕ → String
unfolding emit
format_nat n = emit n n []

unfoldable pub itoa : ℤ → String
unfolding format_nat
itoa (pos n) = format_nat n
itoa (negsuc n) = "-" ∷ format_nat (suc n)

itoa_examples : (itoa (pos 604800) ≡ "604800") × (itoa (negsuc 9) ≡ "-10") × (itoa (pos 0) ≡ "0")
unfolding itoa
itoa_examples = (refl, refl, refl)
