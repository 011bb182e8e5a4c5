-- ===== src/Tests/Http.antt =====
-- A mux in memory, and requests to it.
use qtip_challenge.Base.{
  ℕ, String, Bool, true, false, ◌&&◌, Option, none, some, List, [], ◌∷◌, ◌≡◌, ◌≢◌, ◌↔◌, ◌⊎◌, inl,
  inr, refl, sym, str_eq, eq_iff, arith, if◌then◌else◌,
}
use mathlib.Core.List.{Memᴰ}
use mathlib.Core.Option.{some-injective}
use qtip_challenge.Domain.Task
use qtip_challenge.Domain.Task.{EmailTask}
use qtip_challenge.Http.{Request, fresh_writer, Exchange, AccessEntry, panicked, finished}
use qtip_challenge.Http.Handlers.{handle_enqueue_task, EnqueueTaskRequest, validate}
use qtip_challenge.Http.Handlers.Laws.{request_accepted_iff}
use qtip_challenge.Http.Middleware.Stamp.{IsStamped}
use qtip_challenge.Http.Router.{Endpoint, Chi, Router, routes, serve}
use qtip_challenge.Http.Router.Guarded.{IsMux, IsPrompt, AnswersInTurn, task_endpoint_answers}
use qtip_challenge.Http.Router.Stamped.{IsNeutral, serve_traced}
use qtip_challenge.Tests.Sample.{welcome}

accepts : Option String → String → Bool
accepts none method = true
accepts (some m) method = str_eq m method

-- The first route with the method and exactly this path.
abbrev find_exact : List (Endpoint ℕ) → String → String → Option (Endpoint ℕ)
find_exact [] method path = none
find_exact (e ∷ es) method path =
    let later = find_exact es method path in
    if accepts e.method method && str_eq e.pattern path then some e else later

-- promhttp's handler panics here, as it may.
abbrev small_chi : Chi ℕ
small_chi = record {
  new_uuid = λ s. ("id-1", s);
  formatted_now = λ s. ("2026-01-01T00:00:00Z", s);
  metrics = λ r c. (panicked "gather", c);
  real_ip = λ r. r.remote_addr;
  timeout = λ d next. next;
  find = find_exact;
  no_route = λ r c. (finished, c);
}

one_found :
    (b : Bool) {x e : Endpoint ℕ} {later : Option (Endpoint ℕ)}
    → (if b then some x else later) ≡ some e
    → (e ≡ x) ⊎ (later ≡ some e)
one_found true h = inl (sym (some-injective _ _ h))
one_found false h = inr h

find_exact-Memᴰ :
    (es : List (Endpoint ℕ)) (method path : String) (e : Endpoint ℕ)
    → find_exact es method path ≡ some e
    → Memᴰ e es
find_exact-Memᴰ [] method path e h = cc
find_exact-Memᴰ (x ∷ xs) method path e h =
    elim (one_found (accepts x.method method && str_eq x.pattern path) h) [
      | inl here ↦ Memᴰ.head here
      | inr deeper ↦ Memᴰ.tail (find_exact-Memᴰ xs method path e deeper)
    ]

small_chi-IsMux : IsMux small_chi
small_chi-IsMux = record { finds = find_exact-Memᴰ }

small_chi-IsPrompt : IsPrompt small_chi
small_chi-IsPrompt = record { in_time = λ d next r c. refl }

small_chi-IsNeutral : IsNeutral small_chi
small_chi-IsNeutral = record {
  metrics = λ id r c st. st;
  no_route = λ id r c st. st;
  timeout = λ d next keeps. keeps;
}

abbrev router : Router
router = record { api_keys = "key-1" ∷ "key-2" ∷ []; ready = true }

abbrev post : Request
post = record {
  method = "POST";
  path = "/v1/tasks";
  remote_addr = "10.0.0.1";
  header = λ name.
      if str_eq name "X-API-Key" then "key-2" else if str_eq name "X-Tenant-ID" then "acme" else "";
  context = [];
}

abbrev metrics_request : Request
metrics_request = record post { method = "GET"; path = "/metrics" }

abbrev start : Exchange ℕ
start = record { writer = fresh_writer; world = 0; access_log = [] }

abbrev enqueue_route : Endpoint ℕ
enqueue_route = record {
  method = some "POST";
  pattern = "/v1/tasks";
  in_group = true;
  handler = λ r c. handle_enqueue_task r c;
}

task_endpoint_answers_example :
    AnswersInTurn small_chi router.api_keys post (serve small_chi router post start)
unfolding routes accepts
task_endpoint_answers_example =
    task_endpoint_answers small_chi small_chi-IsMux small_chi-IsPrompt router post start
      enqueue_route refl refl refl

serve_traced_example :
    let (ending, d) = serve small_chi router metrics_request start in
    (ending ≡ finished)
    × IsStamped "id-1" d.writer
    × ((entry : AccessEntry) × (older : List AccessEntry) × (d.access_log ≡ entry ∷ older)
        × (entry.request_id ≡ "id-1")
        × (entry.tenant_id ≡ "")
        × (entry.status ≡ d.writer.status))
serve_traced_example =
    serve_traced small_chi small_chi-IsMux small_chi-IsNeutral router metrics_request start refl
      refl

abbrev signup : EnqueueTaskRequest
signup = record {
  recipient = welcome.recipient;
  type = welcome.type;
  priority = welcome.priority;
  template_id = "welcome";
  template_data = [];
  scheduled_for = none;
  metadata = [];
}

request_accepted_iff_example :
    (validate signup ≡ none) ↔ ((signup.template_id ≢ "") × (Task.validate (λ s. s) welcome ≡ none))
request_accepted_iff_example =
    request_accepted_iff (λ s. s) signup welcome refl refl refl
      (λ e. ground (arith, eq_iff "acme" "")) (omega arith)
