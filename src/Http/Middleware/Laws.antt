-- ===== src/Http/Middleware/Laws.antt =====
-- What each middleware of the group refuses and what it lets through.
use qtip_challenge.Base.{
  ℕ, String, true, false, Option, none, some, List, [], ◌∷◌, ◌≡◌, ◌≢◌, ◌⊎◌, inl, inr, refl, is_some,
  str_eq, eq_iff, arith, Bool-cases,
}
use mathlib.Core.List.{Memᴰ}
use mathlib.Core.List.Memᴰ
use qtip_challenge.Base.Texts.{strip_prefix}
use qtip_challenge.Http.{
  Request, with_value, context_key_tenant_id, set_header, write_header, write_json, write_error,
  Exchange, Ending, finished, Handler, respond,
}
use qtip_challenge.Http.Middleware.{
  serve_with_key, api_key_auth_middleware, tenant_extractor_middleware, has_content,
  content_type_enforcer,
}

-- The key is given and configured.
abbrev pub Known : List String → Request → Type 0
Known api_keys r = (r.header "X-API-Key" ≢ "") × Memᴰ (r.header "X-API-Key") api_keys

-- A request with content is of JSON.
abbrev pub IsTyped : Request → Type 0
IsTyped r =
    (has_content r.method ≡ false)
    ⊎ (is_some (strip_prefix "application/json" (r.header "Content-Type")) ≡ true)

module _ {S : Type 0} where
  listed_is_served :
      (ks : List String) (provided : String) (next : Handler S) (r : Request) (c : Exchange S)
      → Memᴰ provided ks
      → serve_with_key ks provided next r c ≡ next r c
  unfolding serve_with_key
  listed_is_served [] provided next r c m = elim m [ ]
  listed_is_served (k ∷ ks) provided next r c m = elim (Bool-cases (str_eq provided k)) [
    | inl same ↦ rw (same)
    | inr other ↦ elim (Memᴰ.cases_cons m) [
      | inl e ↦ ground (arith, eq_iff provided k)
      | inr later ↦ rw (other, listed_is_served ks provided next r c later)
    ]
  ]

  unlisted_is_refused :
      (ks : List String) (provided : String) (next : Handler S) (r : Request) (c : Exchange S)
      → ¬ Memᴰ provided ks
      → serve_with_key ks provided next r c
        ≡ respond (write_error r 401 "invalid_api_key" "the provided API key is not valid") c
  unfolding serve_with_key
  unlisted_is_refused [] provided next r c m = refl
  unlisted_is_refused (k ∷ ks) provided next r c m = elim (Bool-cases (str_eq provided k)) [
    | inl same ↦ elim (m (Memᴰ.head ((eq_iff provided k).0 same))) [ ]
    | inr other ↦ rw (other, unlisted_is_refused ks provided next r c (λ x. m (Memᴰ.tail x)))
  ]

  abbrev pub code_of : Exchange S → Option ℕ
  code_of c = elim c.writer.sent [ none ↦ none | some answer ↦ some answer.0 ]

  -- A call that returns with this status sent.
  abbrev pub Answers : ℕ → Ending × Exchange S → Type 0
  Answers status x = (x.0 ≡ finished) × (code_of x.1 ≡ some status)

  pub write_error-Answers :
      (r : Request) (status : ℕ) (code message : String) (c : Exchange S)
      → c.writer.sent ≡ none
      → Answers status (respond (write_error r status code message) c)
  unfolding write_error write_json write_header set_header
  write_error-Answers r status code message c h = (refl, rw (h))

  pub refuses_unknown :
      (keys : List String) (next : Handler S) (r : Request) (c : Exchange S)
      → ¬ Known keys r
      → c.writer.sent ≡ none
      → Answers 401 (api_key_auth_middleware keys next r c)
  unfolding api_key_auth_middleware
  refuses_unknown keys next r c unknown fresh =
      elim (Bool-cases (str_eq (r.header "X-API-Key") "")) [
        | inl empty ↦ rw empty (write_error-Answers r 401 "" "" c fresh)
        | inr given ↦
            let unlisted : ¬ Memᴰ (r.header "X-API-Key") keys =
              λ m. unknown (λ e. ground (arith, eq_iff (r.header "X-API-Key") ""), m) in
            rw (given, unlisted_is_refused keys (r.header "X-API-Key") next r c unlisted)
              (write_error-Answers r 401 "" "" c fresh)
      ]

  pub serves_key_holder :
      (keys : List String) (next : Handler S) (r : Request) (c : Exchange S)
      → Known keys r
      → api_key_auth_middleware keys next r c ≡ next r c
  unfolding api_key_auth_middleware
  serves_key_holder keys next r c known = elim (Bool-cases (str_eq (r.header "X-API-Key") "")) [
    | inl empty ↦ elim (known.0 ((eq_iff (r.header "X-API-Key") "").0 empty)) [ ]
    | inr given ↦ rw (given, listed_is_served keys (r.header "X-API-Key") next r c known.1)
  ]

  pub refuses_no_tenant :
      (next : Handler S) (r : Request) (c : Exchange S)
      → r.header "X-Tenant-ID" ≡ ""
      → c.writer.sent ≡ none
      → Answers 400 (tenant_extractor_middleware next r c)
  unfolding tenant_extractor_middleware
  refuses_no_tenant next r c empty fresh =
      rw ((eq_iff (r.header "X-Tenant-ID") "").1 empty) (write_error-Answers r 400 "" "" c fresh)

  pub serves_tenant :
      (next : Handler S) (r : Request) (c : Exchange S)
      → r.header "X-Tenant-ID" ≢ ""
      → tenant_extractor_middleware next r c
        ≡ next (with_value context_key_tenant_id (r.header "X-Tenant-ID") r) c
  unfolding tenant_extractor_middleware
  serves_tenant next r c given = elim (Bool-cases (str_eq (r.header "X-Tenant-ID") "")) [
    | inl empty ↦ elim (given ((eq_iff (r.header "X-Tenant-ID") "").0 empty)) [ ]
    | inr other ↦ rw (other)
  ]

  pub refuses_untyped :
      (next : Handler S) (r : Request) (c : Exchange S)
      → ¬ IsTyped r
      → c.writer.sent ≡ none
      → Answers 415 (content_type_enforcer next r c)
  unfolding content_type_enforcer
  refuses_untyped next r c untyped fresh = elim (Bool-cases (has_content r.method)) [
    | inr bare ↦ elim (untyped (inl bare)) [ ]
    | inl content ↦
        elim (Bool-cases (is_some (strip_prefix "application/json" (r.header "Content-Type")))) [
          | inl json ↦ elim (untyped (inr json)) [ ]
          | inr other ↦ rw (content, other) (write_error-Answers r 415 "" "" c fresh)
        ]
  ]

  pub serves_typed :
      (next : Handler S) (r : Request) (c : Exchange S)
      → IsTyped r
      → content_type_enforcer next r c ≡ next r c
  unfolding content_type_enforcer
  serves_typed next r c (inl bare) = rw (bare)
  serves_typed next r c (inr json) = ground (arith, json)
