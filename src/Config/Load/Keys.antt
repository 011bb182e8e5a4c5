-- ===== src/Config/Load/Keys.antt =====
-- `parseAPIKeys` of internal/config/config.go on lists of keys as an operator writes them.
use Prim.Native.Char.{code}
use Prim.Native.String.{[] as end, ◌∷◌ as ◌then◌}
use qtip_challenge.Base.{
  ℕ, String, false, List, [], ◌∷◌, ◌≡◌, ◌≢◌, refl, ap, ◌∙◌, All, str_eq, eq_iff, ◌==◌, arith,
  Bool-cases, inl, inr,
}
use text.Mathlib.TextLemmas.{cons-ne-nil}
use qtip_challenge.Base.Decimal.Laws.{Avoids}
use qtip_challenge.Config.Load.{
  is_space, trim_left, trim_right, trim_space, split_commas, non_empty_keys, parse_api_keys,
}

-- No white space in the text.
abbrev pub Solid : String → Type 0
Solid end = Unit {0}
Solid (◌then◌ c s) = (is_space (code c) ≡ false) × Solid s

pub record IsPlainKey (k : String) : Type 0 where
  pub given : k ≢ ""
  pub solid : Solid k
  pub no_comma : Avoids b',' k

-- A text, a comma, and a text.
abbrev pub joined : String → String → String
joined end s = ◌then◌ "," s
joined (◌then◌ c k) s = ◌then◌ c (joined k s)

-- The keys with commas between them.
abbrev pub listed : List String → String
listed [] = ""
listed (k ∷ []) = k
listed (k ∷ (k' ∷ ks)) = joined k (listed (k' ∷ ks))

given_test : (k : String) → k ≢ "" → str_eq k "" ≡ false
given_test k h = elim (Bool-cases (str_eq k "")) [
  | inl empty ↦ absurd (h ((eq_iff k "").0 empty))
  | inr given ↦ given
]

trim_left-Solid : (k : String) → Solid k → trim_left k ≡ k
unfolding trim_left
trim_left-Solid end h = refl
trim_left-Solid (◌then◌ c s) (h, hs) = rw (h)

trim_right-Solid : (k : String) → Solid k → trim_right k ≡ k
unfolding trim_right
trim_right-Solid end h = refl
trim_right-Solid (◌then◌ c s) (h, hs) = rw (h, trim_right-Solid s hs)

other : {n : ℕ} → n ≢ b',' → (n == b',') ≡ false
other h = ground arith

split_last : (k : String) → Avoids b',' k → split_commas k ≡ k ∷ []
unfolding split_commas
split_last end h = refl
split_last (◌then◌ c s) (h, hs) = rw (split_last s hs, other h)

split_next : (k s : String) → Avoids b',' k → split_commas (joined k s) ≡ k ∷ split_commas s
unfolding split_commas
split_next end s h = refl
split_next (◌then◌ c k) s (h, hs) = rw (split_next k s hs, other h)

split-listed :
    (k : String) (ks : List String)
    → All IsPlainKey (k ∷ ks)
    → split_commas (listed (k ∷ ks)) ≡ k ∷ ks
split-listed k [] (h, hs) = split_last k h.no_comma
split-listed k (k' ∷ ks) (h, hs) =
    split_next k (listed (k' ∷ ks)) h.no_comma ∙ ap (λ parts. k ∷ parts) (split-listed k' ks hs)

non_empty-plain : (ks : List String) → All IsPlainKey ks → non_empty_keys ks ≡ ks
unfolding non_empty_keys trim_space
non_empty-plain [] h = refl
non_empty-plain (k ∷ ks) (h, hs) = rw (
  trim_left-Solid k h.solid,
  trim_right-Solid k h.solid,
  given_test k h.given,
  non_empty-plain ks hs,
)

joined-given : (k s : String) → joined k s ≢ ""
joined-given end s e = cons-ne-nil "," s e
joined-given (◌then◌ c k) s e = cons-ne-nil c (joined k s) e

listed-given : (k : String) (ks : List String) → All IsPlainKey (k ∷ ks) → listed (k ∷ ks) ≢ ""
listed-given k [] (h, hs) = h.given
listed-given k (k' ∷ ks) (h, hs) = joined-given k (listed (k' ∷ ks))

-- Keys that are not empty and have neither a comma nor white space in them are, written with commas
-- between them, read back as they are, in their order.
parse_api_keys-listed : (ks : List String) → All IsPlainKey ks → parse_api_keys (listed ks) ≡ ks
unfolding parse_api_keys
parse_api_keys-listed [] h = refl
parse_api_keys-listed (k ∷ ks) h = rw (
  given_test (listed (k ∷ ks)) (listed-given k ks h),
  split-listed k ks h,
  non_empty-plain (k ∷ ks) h,
)
