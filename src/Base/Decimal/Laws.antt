-- ===== src/Base/Decimal/Laws.antt =====
-- Lemmas on decimal printing.
use Prim.Native.Nat.{ℕ, zero, suc, ◌+◌, ◌-◌, ◌*◌, ◌/◌, ◌%◌, ◌≤◌, ◌<◌}
use Prim.Native.Char.{code}
use Prim.Native.String.{String, [], ◌∷◌}
use mathlib.Core.Path.{◌≡◌, refl, sym, ap, ◌∙◌}
use mathlib.Core.Logic.{◌≢◌, inl, inr}
use native.Mathlib.Omega.{arith}
use qtip_challenge.Base.Tests.{ltb, ltb→lt, Bool-cases}
use qtip_challenge.Base.Int.{ℤ, pos, negsuc}
use qtip_challenge.Base.Decimal.{digit_char, emit, format_nat, itoa}

-- Reads digits on from `a`.
unfoldable pub value : ℕ → String → ℕ
value a [] = a
value a (c ∷ s) = value (a * 10 + (code c - 48)) s

code-digit_char : (d : ℕ) → d < 10 → code (digit_char d) ≡ 48 + d
code-digit_char zero h = refl
code-digit_char (suc zero) h = refl
code-digit_char (suc (suc zero)) h = refl
code-digit_char (suc (suc (suc zero))) h = refl
code-digit_char (suc (suc (suc (suc zero)))) h = refl
code-digit_char (suc (suc (suc (suc (suc zero))))) h = refl
code-digit_char (suc (suc (suc (suc (suc (suc zero)))))) h = refl
code-digit_char (suc (suc (suc (suc (suc (suc (suc zero))))))) h = refl
code-digit_char (suc (suc (suc (suc (suc (suc (suc (suc zero)))))))) h = refl
code-digit_char (suc (suc (suc (suc (suc (suc (suc (suc (suc zero))))))))) h = refl
code-digit_char (suc (suc (suc (suc (suc (suc (suc (suc (suc (suc d)))))))))) h =
    absurd (omega arith)

value_digit : (a d : ℕ) (s : String) → d < 10 → value a (digit_char d ∷ s) ≡ value (a * 10 + d) s
unfolding value
value_digit a d s h = ap (λ (c : ℕ). value (a * 10 + c) s) (omega (arith, code-digit_char d h))

value-emit : (f n : ℕ) (out : String) → n ≤ f → value 0 (emit f n out) ≡ value n out
unfolding emit
value-emit zero zero out h = value_digit 0 0 out (omega arith)
value-emit zero (suc n) out h = absurd (omega arith)
value-emit (suc f) n out h = elim (Bool-cases (ltb n 10)) [
  | inl small ↦
      rw small (value_digit 0 n out (ltb→lt n 10 small) ∙ ap (λ (a : ℕ). value a out) (omega arith))
  | inr large ↦ rw large (
      value-emit f (n / 10) (digit_char (n % 10) ∷ out) (ground arith)
      ∙ value_digit (n / 10) (n % 10) out (omega arith)
      ∙ ap (λ (a : ℕ). value a out) (omega arith))
]

pub value-format_nat : (n : ℕ) → value 0 (format_nat n) ≡ n
unfolding format_nat value
value-format_nat n = value-emit n n [] (omega arith)

format_nat_injective : (m n : ℕ) → format_nat m ≡ format_nat n → m ≡ n
format_nat_injective m n e = sym (value-format_nat m) ∙ ap (value 0) e ∙ value-format_nat n

-- The code point `k` does not occur.
abbrev pub Avoids : ℕ → String → Type 0
Avoids k [] = Unit {0}
Avoids k (c ∷ s) = (code c ≢ k) × Avoids k s

emit-Avoids : (k f n : ℕ) (out : String) → k < 48 → n ≤ f → Avoids k out → Avoids k (emit f n out)
unfolding emit
emit-Avoids k zero zero out h le avoids = (omega arith, avoids)
emit-Avoids k zero (suc n) out h le avoids = absurd (omega arith)
emit-Avoids k (suc f) n out h le avoids = elim (Bool-cases (ltb n 10)) [
  | inl small ↦ rw small (omega (arith, code-digit_char n (ltb→lt n 10 small)), avoids)
  | inr large ↦ rw large (
      emit-Avoids k f (n / 10) (digit_char (n % 10) ∷ out) h (ground arith)
        (omega (arith, code-digit_char (n % 10) (omega arith)), avoids))
]

-- The first character of a printed number is a digit.
abbrev pub StartsWithDigit : String → Type 0
StartsWithDigit [] = ⊥
StartsWithDigit (c ∷ s) = 48 ≤ code c

emit-StartsWithDigit : (f n : ℕ) (out : String) → n ≤ f → StartsWithDigit (emit f n out)
unfolding emit
emit-StartsWithDigit zero zero out le = omega arith
emit-StartsWithDigit zero (suc n) out le = absurd (omega arith)
emit-StartsWithDigit (suc f) n out le = elim (Bool-cases (ltb n 10)) [
  | inl small ↦ rw small (omega (arith, code-digit_char n (ltb→lt n 10 small)))
  | inr large ↦
      rw large (emit-StartsWithDigit f (n / 10) (digit_char (n % 10) ∷ out) (ground arith))
]

abbrev head_code : String → ℕ
head_code [] = 0
head_code (c ∷ s) = code c

abbrev tail : String → String
tail [] = []
tail (c ∷ s) = s

-- A minus sign is no digit.
not-minus-StartsWithDigit : (s : String) → StartsWithDigit s → head_code s ≢ 45
not-minus-StartsWithDigit [] h e = h
not-minus-StartsWithDigit (c ∷ s) h e = omega arith

pub format_nat-StartsWithDigit : (n : ℕ) → StartsWithDigit (format_nat n)
unfolding format_nat
format_nat-StartsWithDigit n = emit-StartsWithDigit n n [] (omega arith)

pub format_nat-ne-minus : (n : ℕ) (s : String) → format_nat n ≢ "-" ∷ s
unfolding format_nat
format_nat-ne-minus n s e =
    not-minus-StartsWithDigit (emit n n []) (emit-StartsWithDigit n n [] (omega arith))
      (ap head_code e)

pub itoa_injective : (a b : ℤ) → itoa a ≡ itoa b → a ≡ b
unfolding itoa
itoa_injective (pos m) (pos n) e = ap pos (format_nat_injective m n e)
itoa_injective (pos m) (negsuc n) e = absurd (format_nat-ne-minus m (format_nat (suc n)) e)
itoa_injective (negsuc m) (pos n) e = absurd (format_nat-ne-minus n (format_nat (suc m)) (sym e))
itoa_injective (negsuc m) (negsuc n) e =
    ap negsuc (omega (arith, format_nat_injective (suc m) (suc n) (ap tail e)))

pub itoa-Avoids : (k : ℕ) (a : ℤ) → k < 45 → Avoids k (itoa a)
unfolding itoa
itoa-Avoids k (pos n) h = emit-Avoids k n n [] (omega arith) (omega arith) tt
itoa-Avoids k (negsuc n) h =
    (omega arith, emit-Avoids k (suc n) (suc n) [] (omega arith) (omega arith) tt)
