-- ===== src/Worker/Supervisor/Keys.antt =====
-- attemptKey of internal/worker/supervisor.go with idempotencyKey of the Redis store.

use Prim.Native.String.{[] as end, ◌∷◌ as ◌before◌}
use mathlib.Core.Path.{subst, ap₂}
use text.Mathlib.TextLemmas.{
  nil-append, cons-append, head-eq_of_cons-eq, tail-eq_of_cons-eq, append_cancel_left,
}
use qtip_challenge.Base.{String, ◌<>◌, ◌≡◌, ap, sym, ◌∙◌, refl, arith}
use qtip_challenge.Base.Int.{ℤ}
use qtip_challenge.Base.Decimal.{itoa}
use qtip_challenge.Base.Decimal.Laws.{Avoids, itoa_injective, itoa-Avoids}
use qtip_challenge.Worker.Supervisor.{attempt_key}
use qtip_challenge.Redis.Idempotency.{idempotency_key}

hash-append : (d : String) → "#" <> d ≡ ◌before◌ "#" d
hash-append d = cons-append "#" "" d ∙ ap (λ (s : String). ◌before◌ "#" s) (nil-append d)

not-Avoids-append : (s d : String) → ¬ Avoids b'#' (s <> ("#" <> d))
not-Avoids-append end d h = (subst (Avoids b'#') (nil-append ("#" <> d) ∙ hash-append d) h).0 refl
not-Avoids-append (◌before◌ c s) d h =
    not-Avoids-append s d (subst (Avoids b'#') (cons-append c s ("#" <> d)) h).1

-- A text is cut at its last "#" in one way only.
cut_last_hash :
    (s t d e : String)
    → Avoids b'#' d
    → Avoids b'#' e
    → s <> ("#" <> d) ≡ t <> ("#" <> e)
    → (s ≡ t) × (d ≡ e)
cut_last_hash end end d e hd he p =
    (refl, append_cancel_left "#" d e (sym (nil-append _) ∙ p ∙ nil-append _))
cut_last_hash end (◌before◌ c t) d e hd he p = absurd (
    not-Avoids-append t e (
      subst (Avoids b'#')
        (tail-eq_of_cons-eq (sym (nil-append _ ∙ hash-append d) ∙ p ∙ cons-append c t _)) hd))
cut_last_hash (◌before◌ c s) end d e hd he p = absurd (
    not-Avoids-append s d (
      subst (Avoids b'#')
        (tail-eq_of_cons-eq (sym (nil-append _ ∙ hash-append e) ∙ sym p ∙ cons-append c s _)) he))
cut_last_hash (◌before◌ c s) (◌before◌ k t) d e hd he p =
    let q = sym (cons-append c s _) ∙ p ∙ cons-append k t _ in
    let rest = cut_last_hash s t d e hd he (tail-eq_of_cons-eq q) in
    (ap₂ ◌before◌ (head-eq_of_cons-eq q) rest.0, rest.1)

-- Two deliveries use one idempotency key of Redis only if they are of one attempt of one task id,
-- whatever characters the id holds.
pub attempt_key_injective :
    (id_a id_b : String) (a b : ℤ)
    → idempotency_key (attempt_key id_a a) ≡ idempotency_key (attempt_key id_b b)
    → (id_a ≡ id_b) × (a ≡ b)
unfolding attempt_key idempotency_key
attempt_key_injective id_a id_b a b p =
    let (same, printed) =
      cut_last_hash id_a id_b (itoa a) (itoa b) (itoa-Avoids b'#' a (omega arith))
        (itoa-Avoids b'#' b (omega arith)) (append_cancel_left "idempotency:" _ _ p) in
    (same, itoa_injective a b printed)
