-- ===== src/Http/Router.antt =====
-- internal/adapters/http/router.go. chi and the handler of promhttp are parameters.
pub mod Guarded
pub mod Stamped
use qtip_challenge.Base.{
  ℕ, ◌*◌, String, Bool, true, false, Option, none, some, List, [], ◌∷◌, ◌≡◌, if◌then◌else◌,
}
use qtip_challenge.Domain.Retry.{second}
use qtip_challenge.Http.{Request, Exchange, Handler}
use qtip_challenge.Http.Middleware.{
  request_id_middleware, request_logger_middleware, recoverer_middleware, api_key_auth_middleware,
  tenant_extractor_middleware, content_type_enforcer,
}
use qtip_challenge.Http.Handlers.{
  handle_healthz, handle_readyz, handle_enqueue_task, handle_get_task, handle_delete_task,
  handle_list_dlq,
}

-- A registered route: `none` for every method, and whether it is registered in the group.
pub record Endpoint (S : Type 0) : Type 0 where
  pub method : Option String
  pub pattern : String
  pub in_group : Bool
  pub handler : Handler S

pub record Chi (S : Type 0) : Type 0 where
  pub new_uuid : S → String × S
  pub formatted_now : S → String × S
  -- promhttp.Handler()
  pub metrics : Handler S
  -- chimiddleware.RealIP: the new r.RemoteAddr
  pub real_ip : Request → String
  -- chimiddleware.Timeout
  pub timeout : ℕ → Handler S → Handler S
  -- the route that the mux picks for a method and a path, and its answer where there is none
  pub find : List (Endpoint S) → String → String → Option (Endpoint S)
  pub no_route : Handler S

pub record Router : Type 0 where
  pub api_keys : List String
  pub ready : Bool

unfoldable pub new_router : List String → Router
new_router api_keys = record { api_keys = api_keys; ready = false }

unfoldable pub set_ready : Bool → Router → Router
set_ready v router = record router { ready = v }

module _ {S : Type 0} (D : Chi S) where
  unfoldable pub routes : Router → List (Endpoint S)
  unfolding handle_healthz handle_readyz handle_enqueue_task handle_get_task handle_delete_task
      handle_list_dlq
  routes router =
      (record {
        method = some "GET";
        pattern = "/healthz";
        in_group = false;
        handler = λ r c. handle_healthz D.formatted_now r c;
      })
      ∷ (record {
        method = some "GET";
        pattern = "/readyz";
        in_group = false;
        handler = λ r c. handle_readyz router.ready r c;
      })
      ∷ (record { method = none; pattern = "/metrics"; in_group = false; handler = D.metrics })
      ∷ (record {
        method = some "POST";
        pattern = "/v1/tasks";
        in_group = true;
        handler = λ r c. handle_enqueue_task r c;
      })
      ∷ (record {
        method = some "GET";
        pattern = "/v1/tasks/{taskID}";
        in_group = true;
        handler = λ r c. handle_get_task r c;
      })
      ∷ (record {
        method = some "DELETE";
        pattern = "/v1/tasks/{taskID}";
        in_group = true;
        handler = λ r c. handle_delete_task r c;
      })
      ∷ (record {
        method = some "GET";
        pattern = "/v1/dlq";
        in_group = true;
        handler = λ r c. handle_list_dlq r c;
      })
      ∷ []

  -- The middlewares of the group.
  unfoldable pub in_group_of : List String → Handler S → Handler S
  unfolding api_key_auth_middleware tenant_extractor_middleware content_type_enforcer
  in_group_of api_keys h =
      api_key_auth_middleware api_keys
        (tenant_extractor_middleware (D.timeout (30 * second) (content_type_enforcer h)))

  unfoldable pub endpoint_handler : Router → Endpoint S → Handler S
  unfolding in_group_of
  endpoint_handler router e =
      if e.in_group then in_group_of router.api_keys e.handler else e.handler

  -- The mux behind its middlewares.
  unfoldable pub route : Router → Handler S
  route router r c = elim (D.find (routes router) r.method r.path) [
    | none ↦ D.no_route r c
    | some e ↦ endpoint_handler router e r c
  ]

  unfoldable pub real_ip_middleware : Handler S → Handler S
  real_ip_middleware next r c = next (record r { remote_addr = D.real_ip r }) c

  -- The middlewares of registerMiddleware, the first one outermost.
  unfoldable pub behind_middleware : Handler S → Handler S
  unfolding request_id_middleware real_ip_middleware request_logger_middleware recoverer_middleware
  behind_middleware next =
      request_id_middleware D.new_uuid
        (real_ip_middleware (request_logger_middleware (recoverer_middleware next)))

  unfoldable pub serve : Router → Handler S
  unfolding behind_middleware route
  serve router = behind_middleware (route router)
