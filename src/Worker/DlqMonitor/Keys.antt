-- ===== src/Worker/DlqMonitor/Keys.antt =====
-- parseDLQKey of the monitor on the keys that the DLQ writer forms.

use Prim.Native.String.{[] as end, ◌∷◌ as ◌before◌}
use text.Mathlib.TextLemmas.{nil-append, cons-append, append_assoc}
use qtip_challenge.Base.{String, ◌<>◌, some, ◌≡◌, ◌≢◌, refl, arith, ap, ◌∙◌}
use qtip_challenge.Base.Decimal.Laws.{Avoids}
use qtip_challenge.Base.Texts.Laws.{strip_prefix-append}
use qtip_challenge.Redis.Dlq.{dlq_key}
use qtip_challenge.Worker.DlqMonitor.{cut_colon, both_parts, parse_dlq_key}

colon-append : (b : String) → ":" <> b ≡ ◌before◌ ":" b
colon-append b = cons-append ":" "" b ∙ ap (λ (s : String). ◌before◌ ":" s) (nil-append b)

cut_colon-append : (a b : String) → Avoids b':' a → cut_colon (a <> (":" <> b)) ≡ some (a, b)
unfolding cut_colon
cut_colon-append end b h = rw (nil-append, colon-append b)
cut_colon-append (◌before◌ c a) b h =
    rw (cons-append c a (":" <> b)) (ground (arith, h.0, cut_colon-append a b h.1))

both_parts_lem : (a b : String) → a ≢ "" → b ≢ "" → both_parts (a, b) ≡ some (a, b)
unfolding both_parts
both_parts_lem end b h k = absurd (h refl)
both_parts_lem (◌before◌ c a) end h k = absurd (k refl)
both_parts_lem (◌before◌ c a) (◌before◌ d b) h k = refl

-- The key of a tenant and a task type is read back, where neither is empty and the tenant has no
-- colon.
pub parse_dlq_key-dlq_key :
    (tenant_id task_type : String)
    → tenant_id ≢ ""
    → task_type ≢ ""
    → Avoids b':' tenant_id
    → parse_dlq_key (dlq_key tenant_id task_type) ≡ some (tenant_id, task_type)
unfolding parse_dlq_key dlq_key
parse_dlq_key-dlq_key tenant_id task_type h k no_colon = ground (
  arith,
  strip_prefix-append "queue:dlq:" (tenant_id <> (":" <> task_type)),
  cut_colon-append tenant_id task_type no_colon,
  both_parts_lem tenant_id task_type h k,
)

-- A tenant with a colon is read back as another tenant, the part before its first colon, with the
-- rest of it in the task type.
parse_dlq_key_confuses :
    (first rest task_type : String)
    → first ≢ ""
    → rest <> (":" <> task_type) ≢ ""
    → Avoids b':' first
    → parse_dlq_key (dlq_key (first <> (":" <> rest)) task_type)
      ≡ some (first, rest <> (":" <> task_type))
unfolding parse_dlq_key dlq_key
parse_dlq_key_confuses first rest task_type h k no_colon = ground (
  arith,
  strip_prefix-append "queue:dlq:" ((first <> (":" <> rest)) <> (":" <> task_type)),
  append_assoc first (":" <> rest) (":" <> task_type),
  append_assoc ":" rest (":" <> task_type),
  cut_colon-append first (rest <> (":" <> task_type)) no_colon,
  both_parts_lem first (rest <> (":" <> task_type)) h k,
)
