-- ===== src/Http/Middleware/Stamp.antt =====
-- The X-Request-ID of a response through the middlewares of internal/adapters/http/middleware.go.
use qtip_challenge.Base.{
  ℕ, String, Bool, some, List, [], ◌∷◌, ◌≡◌, ◌⊎◌, inl, inr, refl, ◌∙◌, is_some, str_eq, eq_iff,
  arith, Option-cases, Bool-cases, if◌then◌else◌,
}
use qtip_challenge.Base.Texts.{strip_prefix}
use qtip_challenge.Base.Assoc.Laws.{lookup-insert_other}
use qtip_challenge.Base.Assoc.{GoMap, lookup}
use qtip_challenge.Http.{
  Request, with_value, context_key_tenant_id, ResponseWriter, set_header, write_header, write_json,
  write_error, Body, Exchange, Ending, finished, panicked, Handler, respond,
}
use qtip_challenge.Http.Middleware.{
  recoverer_middleware, serve_with_key, api_key_auth_middleware, tenant_extractor_middleware,
  content_type_enforcer, has_content,
}

abbrev pub id_header : String
id_header = "X-Request-ID"

-- The response has this X-Request-ID: among its headers, and among those that were sent.
pub record IsStamped (id : String) (w : ResponseWriter) : Type 0 where
  pub held : lookup w.headers id_header ≡ some id
  pub passed_on :
      (code : ℕ) (headers : GoMap String)
      → w.sent ≡ some (code, headers)
      → lookup headers id_header ≡ some id

write_header-IsStamped :
    (id : String) (code : ℕ) (w : ResponseWriter)
    → IsStamped id w
    → IsStamped id (write_header code w)
unfolding write_header
write_header-IsStamped id code w st = elim (Option-cases w.sent) [
  | inl unsent ↦ rw unsent (record { held = st.held; passed_on = λ n headers e. cc (e, st.held) })
  | inr (answer, started) ↦
      rw started
        (record { held = st.held; passed_on = λ n headers e. st.passed_on n headers (started ∙ e) })
]

pub write_json-IsStamped :
    (id : String) (code : ℕ) (v : Body) (w : ResponseWriter)
    → IsStamped id w
    → IsStamped id (write_json code v w)
unfolding write_json set_header
write_json-IsStamped id code v w st =
    let typed = set_header "Content-Type" "application/json" w in
    let st' = write_header-IsStamped id code typed (record {
      held =
          lookup-insert_other w.headers "Content-Type" id_header "application/json"
            (λ e. ground (arith, eq_iff id_header "Content-Type"))
          ∙ st.held;
      passed_on = st.passed_on;
    }) in
    record { held = st'.held; passed_on = st'.passed_on }

pub Ending-cases : (e : Ending) → (e ≡ finished) ⊎ ((v : String) × (e ≡ panicked v))
Ending-cases finished = inl refl
Ending-cases (panicked v) = inr (v, refl)

module _ {S : Type 0} where
  abbrev pub Keeps : Handler S → Type 0
  Keeps h =
      (id : String) (r : Request) (c : Exchange S)
      → IsStamped id c.writer
      → IsStamped id (h r c).1.writer

  abbrev refusal : ℕ → String → String → Handler S
  refusal status code message r = respond (write_error r status code message)

  pub refusal-Keeps : (status : ℕ) (code message : String) → Keeps (refusal status code message)
  unfolding write_error
  refusal-Keeps status code message id r c st = write_json-IsStamped id status _ c.writer st

  pub either-Keeps :
      (test : Request → Bool) (h k : Handler S)
      → Keeps h
      → Keeps k
      → Keeps (λ r c. if test r then h r c else k r c)
  either-Keeps test h k h_keeps k_keeps id r c st = elim (Bool-cases (test r)) [
    | inl holds ↦ rw (holds) (h_keeps id r c st)
    | inr fails ↦ rw (fails) (k_keeps id r c st)
  ]

  serve_with_key-Keeps :
      (keys : List String) (provided : String) (next : Handler S)
      → Keeps next
      → Keeps (λ r c. serve_with_key keys provided next r c)
  unfolding serve_with_key
  serve_with_key-Keeps [] provided next keeps = refusal-Keeps 401 _ _
  serve_with_key-Keeps (k ∷ ks) provided next keeps =
      either-Keeps (λ r. str_eq provided k) next (λ r c. serve_with_key ks provided next r c) keeps
        (serve_with_key-Keeps ks provided next keeps)

  pub api_key_auth-Keeps :
      (keys : List String) (next : Handler S)
      → Keeps next
      → Keeps (λ r c. api_key_auth_middleware keys next r c)
  unfolding api_key_auth_middleware
  api_key_auth-Keeps keys next keeps =
      either-Keeps (λ r. str_eq (r.header "X-API-Key") "")
        (refusal 401 "missing_api_key" "X-API-Key header is required")
        (λ r c. serve_with_key keys (r.header "X-API-Key") next r c) (refusal-Keeps 401 _ _)
        (λ id r c st. serve_with_key-Keeps keys (r.header "X-API-Key") next keeps id r c st)

  pub tenant_extractor-Keeps :
      (next : Handler S) → Keeps next → Keeps (λ r c. tenant_extractor_middleware next r c)
  unfolding tenant_extractor_middleware
  tenant_extractor-Keeps next keeps =
      either-Keeps (λ r. str_eq (r.header "X-Tenant-ID") "")
        (refusal 400 "missing_tenant_id" "X-Tenant-ID header is required")
        (λ r. next (with_value context_key_tenant_id (r.header "X-Tenant-ID") r))
        (refusal-Keeps 400 _ _)
        (λ id r c st. keeps id (with_value context_key_tenant_id (r.header "X-Tenant-ID") r) c st)

  pub content_type_enforcer-Keeps :
      (next : Handler S) → Keeps next → Keeps (λ r c. content_type_enforcer next r c)
  unfolding content_type_enforcer
  content_type_enforcer-Keeps next keeps =
      let is_json : Request → Bool =
        λ r. is_some (strip_prefix "application/json" (r.header "Content-Type")) in
      let refused = refusal 415 "unsupported_media_type" "Content-Type must be application/json" in
      either-Keeps (λ r. has_content r.method) (λ r c. if is_json r then next r c else refused r c)
        next (either-Keeps is_json next refused keeps (refusal-Keeps 415 _ _)) keeps

  pub recoverer-Keeps :
      (next : Handler S) → Keeps next → Keeps (λ r c. recoverer_middleware next r c)
  unfolding recoverer_middleware
  recoverer-Keeps next keeps id r c st = elim (Ending-cases (next r c).0) [
    | inl e ↦ rw (recoverer_middleware, e) (keeps id r c st)
    | inr (v, e) ↦
        rw (recoverer_middleware, e)
          (refusal-Keeps 500 "internal_error" "an unexpected error occurred" id r (next r c).1
            (keeps id r c st))
  ]
