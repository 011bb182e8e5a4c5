-- ===== src/Domain/Task/Identity.antt =====
-- DeterministicTaskID of internal/domain/email_task.go. `hex_sha256` is the lower-case hexadecimal
-- text of the SHA-256 sum.
use Prim.Native.Char.{code}
use Prim.Native.String.{[] as end, ◌∷◌ as ◌before◌}
use text.Mathlib.TextLemmas.{nil-append, cons-append}
use qtip_challenge.Base.{
  ℕ, zero, suc, String, ◌<>◌, Option, none, some, ◌≡◌, sym, ◌∙◌, ap, arith, ◌==◌, if◌then◌else◌,
}
use qtip_challenge.Base.Decimal.Laws.{Avoids}

-- The character with code 0.
abbrev pub nul : String
nul = "\0"

unfoldable pub first_chars : ℕ → String → String
first_chars zero s = end
first_chars (suc n) end = end
first_chars (suc n) (◌before◌ c s) = ◌before◌ c (first_chars n s)

-- What the hash is taken of.
unfoldable pub identity_text : String → String → String → String → String
identity_text tenant_id recipient_email template_id event_id =
    tenant_id <> (nul <> (recipient_email <> (nul <> (template_id <> (nul <> event_id)))))

unfoldable pub deterministic_task_id :
    (String → String) → String → String → String → String → String
unfolding first_chars identity_text
deterministic_task_id hex_sha256 tenant_id recipient_email template_id event_id =
    first_chars 32 (hex_sha256 (identity_text tenant_id recipient_email template_id event_id))

-- The parts before and behind the first NUL.
cut_nul : String → Option (String × String)
cut_nul end = none
cut_nul (◌before◌ c cs) =
    let rest = cut_nul cs in
    if code c == 0
    then some ("", cs)
    else elim rest [ none ↦ none | some (a, b) ↦ some (◌before◌ c a, b) ]

nul-append : (b : String) → nul <> b ≡ ◌before◌ "\0" b
nul-append b = cons-append "\0" "" b ∙ ap (λ (s : String). ◌before◌ "\0" s) (nil-append b)

cut_nul-append : (a b : String) → Avoids 0 a → cut_nul (a <> (nul <> b)) ≡ some (a, b)
unfolding cut_nul
cut_nul-append end b h = rw (nil-append, nul-append b)
cut_nul-append (◌before◌ c a) b h =
    rw (cons-append c a (nul <> b)) (ground (arith, h.0, cut_nul-append a b h.1))

cut_nul_injective :
    (a b c d : String)
    → Avoids 0 a
    → Avoids 0 c
    → a <> (nul <> b) ≡ c <> (nul <> d)
    → (a ≡ c) × (b ≡ d)
cut_nul_injective a b c d h k e =
    let same : some (a, b) ≡ some (c, d) =
      sym (cut_nul-append a b h) ∙ ap cut_nul e ∙ cut_nul-append c d k in
    ground (arith, same)

-- Two deliveries whose tenant, recipient and template have no NUL are hashed as the same text only if
-- they agree in these and in the event.
identity_text_injective :
    (t r m e t' r' m' e' : String)
    → Avoids 0 t
    → Avoids 0 r
    → Avoids 0 m
    → Avoids 0 t'
    → Avoids 0 r'
    → Avoids 0 m'
    → identity_text t r m e ≡ identity_text t' r' m' e'
    → (t ≡ t') × (r ≡ r') × (m ≡ m') × (e ≡ e')
unfolding identity_text
identity_text_injective t r m e t' r' m' e' at ar am at' ar' am' same =
    let (tenant, rest) = cut_nul_injective t _ t' _ at at' same in
    let (recipient, rest') = cut_nul_injective r _ r' _ ar ar' rest in
    let (template, event) = cut_nul_injective m _ m' _ am am' rest' in
    (tenant, recipient, template, event)
