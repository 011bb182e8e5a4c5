-- ===== src/Redis/Connection/Address.antt =====
-- The address that internal/adapters/redis/client.go takes from a URL.
use Prim.Native.Char.{code}
use Prim.Native.String.{[] as end, ◌∷◌ as ◌before◌}
use text.Mathlib.TextLemmas.{cons-append}
use qtip_challenge.Base.Decimal.Laws.{Avoids}
use qtip_challenge.Base.{
  ℕ, inl, inr, String, ◌<>◌, none, some, ◌≡◌, ◌≢◌, refl, arith, Bool-cases, ◌==◌,
}
use qtip_challenge.Base.Texts.{strip_prefix}
use qtip_challenge.Base.Texts.Laws.{strip_prefix-append}
use qtip_challenge.Redis.Connection.{behind, addr_from_url}

behind-append : (p s : String) → s ≢ "" → behind p (p <> s) ≡ some s
unfolding behind
behind-append p end h = absurd (h refl)
behind-append p (◌before◌ c s) h = rw (behind, strip_prefix-append p (◌before◌ c s)) refl

-- A text without a character has no prefix with it.
strip_prefix-Avoids :
    (c : ℕ) (p s : String) → (Avoids c p → ⊥) → Avoids c s → strip_prefix p s ≡ none
unfolding strip_prefix
strip_prefix-Avoids c end s h k = absurd (h tt)
strip_prefix-Avoids c (◌before◌ d p) end h k = refl
strip_prefix-Avoids c (◌before◌ d p) (◌before◌ e s) h k = elim (Bool-cases (code d == code e)) [
  | inr other ↦ rw (other) refl
  | inl same ↦ rw (same) (strip_prefix-Avoids c p s (λ a. h (ground (arith, same, k), a)) k.1)
]

-- An address behind either scheme is given back without it, and a text without a slash, such as a
-- host with a port, is given back as it is.
pub addr_from_url_lem :
    (addr : String)
    → addr ≢ ""
    → (addr_from_url ("redis://" <> addr) ≡ addr)
      × (addr_from_url ("rediss://" <> addr) ≡ addr)
      × (Avoids b'/' addr → addr_from_url addr ≡ addr)
unfolding addr_from_url behind
addr_from_url_lem addr h = (
  rw (addr_from_url, behind-append "redis://" addr h) refl,
  rw (addr_from_url, not_plain addr, behind-append "rediss://" addr h) refl,
  λ k.
      rw
        (
          addr_from_url,
          behind,
          strip_prefix-Avoids b'/' "redis://" addr slash k,
          strip_prefix-Avoids b'/' "rediss://" addr slash' k,
        )
        refl,
)
  where
    slash : Avoids b'/' "redis://" → ⊥
    slash a = ground (arith, a)

    slash' : Avoids b'/' "rediss://" → ⊥
    slash' a = ground (arith, a)

    not_plain : (a : String) → behind "redis://" ("rediss://" <> a) ≡ none
    not_plain a =
        rw
          (
            behind,
            cons-append "r" "ediss://" a,
            cons-append "e" "diss://" a,
            cons-append "d" "iss://" a,
            cons-append "i" "ss://" a,
            cons-append "s" "s://" a,
            cons-append "s" "://" a,
          )
          refl
