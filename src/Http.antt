-- ===== src/Http.antt =====
-- internal/adapters/http: requests, responses and handlers as the files of that folder use net/http,
-- and the helpers of handlers.go that write a response.
pub mod Middleware
pub mod Handlers
pub mod Router
use qtip_challenge.Base.{ℕ, String, Option, none, some, List, ◌∷◌, []}
use qtip_challenge.Observability.{Level}
use qtip_challenge.Base.Assoc.{GoMap, lookup, insert}

-- `context.WithValue` puts a value in front; `Value` finds the latest one.
abbrev pub context_key_request_id : String
context_key_request_id = "request_id"

abbrev pub context_key_tenant_id : String
context_key_tenant_id = "tenant_id"

pub record Request : Type 0 where
  pub method : String
  pub path : String
  pub remote_addr : String
  -- `r.Header.Get`, "" for a header that is not there
  pub header : String → String
  pub context : GoMap String

abbrev pub with_value : String → String → Request → Request
with_value key value r = record r { context = (key, value) ∷ r.context }

abbrev pub value_or_empty : Option String → String
value_or_empty none = ""
value_or_empty (some v) = v

unfoldable pub request_id_from_context : Request → String
request_id_from_context r = value_or_empty (lookup r.context context_key_request_id)

unfoldable pub tenant_id_from_context : Request → String
tenant_id_from_context r = value_or_empty (lookup r.context context_key_tenant_id)

pub record ErrorResponse : Type 0 where
  pub error : String
  pub code : String
  pub request_id : String

-- The values that the handlers encode, and what other packages write.
pub data Body : Type 0 where
  error_json : ErrorResponse → Body
  map_json : GoMap String → Body
  other_bytes : String → Body

-- `http.ResponseWriter`. The first WriteHeader sends its status with the headers as they are then,
-- and later ones send nothing. `status` is that of the responseWriter of the access log, which
-- every WriteHeader sets.
pub record ResponseWriter : Type 0 where
  pub headers : GoMap String
  pub sent : Option (ℕ × GoMap String)
  pub body : List Body
  pub status : ℕ

abbrev pub fresh_writer : ResponseWriter
fresh_writer = record { headers = []; sent = none; body = []; status = 200 }

unfoldable pub set_header : String → String → ResponseWriter → ResponseWriter
set_header key value w = record w { headers = insert w.headers key value }

unfoldable pub write_header : ℕ → ResponseWriter → ResponseWriter
write_header code w = elim w.sent [
  | none ↦ record w { sent = some (code, w.headers); status = code }
  | some _ ↦ record w { status = code }
]

unfoldable pub write_json : ℕ → Body → ResponseWriter → ResponseWriter
unfolding set_header write_header
write_json status v w =
    let w' = write_header status (set_header "Content-Type" "application/json" w) in
    record w' { body = v ∷ w'.body }

unfoldable pub write_error : Request → ℕ → String → String → ResponseWriter → ResponseWriter
unfolding write_json request_id_from_context
write_error r status code message =
    write_json status
      (error_json (record { error = message; code = code; request_id = request_id_from_context r }))

-- An entry of the access log, without its duration.
pub record AccessEntry : Type 0 where
  pub level : Level
  pub method : String
  pub path : String
  pub status : ℕ
  pub request_id : String
  pub tenant_id : String
  pub remote_addr : String

-- One exchange: the response, the world behind the clock and the identifiers, and the access log,
-- the latest entry first.
pub record Exchange (S : Type 0) : Type 0 where
  pub writer : ResponseWriter
  pub world : S
  pub access_log : List AccessEntry

pub data Ending : Type 0 where
  finished : Ending
  panicked : String → Ending

abbrev pub Handler : Type 0 → Type 0
Handler S = Request → Exchange S → Ending × Exchange S

-- A handler that writes this and returns.
abbrev pub respond :
    {S : Type 0} → (ResponseWriter → ResponseWriter) → Exchange S → Ending × Exchange S
respond f c = (finished, record c { writer = f c.writer })
