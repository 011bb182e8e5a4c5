-- ===== src/Http/Middleware.antt =====
-- internal/adapters/http/middleware.go
pub mod Laws
pub mod Stamp
use qtip_challenge.Base.{
  ℕ, String, Bool, true, false, ◌||◌, List, [], ◌∷◌, str_eq, if◌then◌else◌, leb, is_some,
}
use qtip_challenge.Base.Texts.{strip_prefix}
use qtip_challenge.Observability.{Level, info_level, warn_level, error_level}
use qtip_challenge.Http.{
  Request, with_value, context_key_request_id, context_key_tenant_id, request_id_from_context,
  tenant_id_from_context, ResponseWriter, set_header, write_error, AccessEntry, Exchange, finished,
  panicked, Handler, respond,
}

unfoldable pub level_for_status : ℕ → Level
level_for_status status =
    if leb 500 status then error_level else if leb 400 status then warn_level else info_level

-- MethodPost, MethodPut, MethodPatch
unfoldable pub has_content : String → Bool
has_content method = str_eq method "POST" || str_eq method "PUT" || str_eq method "PATCH"

module _ {S : Type 0} where
  -- `uuid.New().String()` is a parameter.
  unfoldable pub request_id_middleware : (S → String × S) → Handler S → Handler S
  unfolding set_header
  request_id_middleware new_uuid next r c =
      let provided = r.header "X-Request-ID" in
      let (id, s) = if str_eq provided "" then new_uuid c.world else (provided, c.world) in
      next (with_value context_key_request_id id r)
        (record c { writer = set_header "X-Request-ID" id c.writer; world = s })

  -- newResponseWriter, the call, and the entry, which a panic skips.
  unfoldable pub request_logger_middleware : Handler S → Handler S
  unfolding level_for_status request_id_from_context tenant_id_from_context
  request_logger_middleware next r c =
      let (ending, d) = next r (record c { writer = record (c.writer) { status = 200 } }) in
      elim ending [
        | panicked v ↦ (panicked v, d)
        | finished ↦ (
          finished,
          record d {
            access_log =
                (record {
                  level = level_for_status d.writer.status;
                  method = r.method;
                  path = r.path;
                  status = d.writer.status;
                  request_id = request_id_from_context r;
                  tenant_id = tenant_id_from_context r;
                  remote_addr = r.remote_addr;
                })
                ∷ d.access_log;
          },
        )
      ]

  unfoldable pub recoverer_middleware : Handler S → Handler S
  unfolding write_error
  recoverer_middleware next r c =
      let (ending, d) = next r c in
      elim ending [
        | finished ↦ (finished, d)
        | panicked _ ↦ respond (write_error r 500 "internal_error" "an unexpected error occurred") d
      ]

  -- The loop over the valid keys and what follows it.
  unfoldable pub serve_with_key : List String → String → Handler S → Handler S
  unfolding write_error
  serve_with_key [] provided next r c =
      respond (write_error r 401 "invalid_api_key" "the provided API key is not valid") c
  serve_with_key (k ∷ ks) provided next r c =
      let later = serve_with_key ks provided next r c in
      if str_eq provided k then next r c else later

  unfoldable pub api_key_auth_middleware : List String → Handler S → Handler S
  unfolding write_error serve_with_key
  api_key_auth_middleware valid_keys next r c =
      let provided = r.header "X-API-Key" in
      if str_eq provided ""
      then respond (write_error r 401 "missing_api_key" "X-API-Key header is required") c
      else serve_with_key valid_keys provided next r c

  unfoldable pub tenant_extractor_middleware : Handler S → Handler S
  unfolding write_error
  tenant_extractor_middleware next r c =
      let tenant_id = r.header "X-Tenant-ID" in
      if str_eq tenant_id ""
      then respond (write_error r 400 "missing_tenant_id" "X-Tenant-ID header is required") c
      else next (with_value context_key_tenant_id tenant_id r) c

  unfoldable pub content_type_enforcer : Handler S → Handler S
  unfolding write_error has_content
  content_type_enforcer next r c =
      if has_content r.method
      then if is_some (strip_prefix "application/json" (r.header "Content-Type"))
        then next r c
        else respond
            (write_error r 415 "unsupported_media_type" "Content-Type must be application/json") c
      else next r c
