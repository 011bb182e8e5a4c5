-- ===== src/Http/Router/Guarded.antt =====
-- How the task endpoints answer.
use qtip_challenge.Base.{
  All, ℕ, String, true, none, some, List, ◌∷◌, ◌≡◌, ◌≢◌, refl, sym, inl, inr, [], str_eq,
  if◌then◌else◌,
}
use mathlib.Core.List.{Memᴰ}
use mathlib.Core.List.Memᴰ
use mathlib.Core.Path.{subst}
use qtip_challenge.Http.{
  Request, with_value, context_key_request_id, context_key_tenant_id, set_header, write_error,
  Exchange, Ending, Handler, respond,
}
use qtip_challenge.Http.Middleware.{
  request_logger_middleware, recoverer_middleware, tenant_extractor_middleware,
  content_type_enforcer,
}
use qtip_challenge.Http.Middleware.Laws.{
  Known, IsTyped, Answers, write_error-Answers, refuses_unknown, serves_key_holder,
  refuses_no_tenant, serves_tenant, refuses_untyped, serves_typed,
}
use qtip_challenge.Http.Handlers.{
  handle_enqueue_task, handle_get_task, handle_delete_task, handle_list_dlq,
}
use qtip_challenge.Http.Router.{
  Endpoint, Chi, Router, routes, in_group_of, endpoint_handler, route, behind_middleware, serve,
}

module _ {S : Type 0} (D : Chi S) where
  -- What chi documents: the mux picks a route that is registered.
  pub record IsMux : Type 0 where
    pub finds :
        (table : List (Endpoint S)) (method path : String) (e : Endpoint S)
        → D.find table method path ≡ some e
        → Memᴰ e table

  -- No deadline passes: each request is answered as without one.
  pub record IsPrompt : Type 0 where
    pub in_time :
        (d : ℕ) (next : Handler S) (r : Request) (c : Exchange S) → D.timeout d next r c ≡ next r c

  -- The four cases of a request for a task endpoint, by the first check that fails.
  abbrev pub AnswersInTurn : List String → Request → Ending × Exchange S → Type 0
  AnswersInTurn keys r x =
      (¬ Known keys r → Answers 401 x)
      × (Known keys r → r.header "X-Tenant-ID" ≡ "" → Answers 400 x)
      × (Known keys r → r.header "X-Tenant-ID" ≢ "" → ¬ IsTyped r → Answers 415 x)
      × (Known keys r → r.header "X-Tenant-ID" ≢ "" → IsTyped r → Answers 501 x)

  -- The handlers of the group.
  abbrev pub IsStub : Handler S → Type 0
  IsStub h = (r : Request) (c : Exchange S) → c.writer.sent ≡ none → Answers 501 (h r c)

  group_in_turn :
      IsPrompt
      → (keys : List String) (h : Handler S) (r : Request) (c : Exchange S) → IsStub h
      → c.writer.sent ≡ none
      → AnswersInTurn keys r (in_group_of D keys h r c)
  unfolding in_group_of
  group_in_turn L keys h r c stub fresh =
      let typed = D.timeout _ (content_type_enforcer h) in
      let tenanted = tenant_extractor_middleware typed in
      let r' = with_value context_key_tenant_id (r.header "X-Tenant-ID") r in
      (
        λ unknown. refuses_unknown keys tenanted r c unknown fresh,
        λ known empty.
            rw (serves_key_holder keys tenanted r c known)
              (refuses_no_tenant typed r c empty fresh),
        λ known given untyped.
            rw
              (
                serves_key_holder keys tenanted r c known,
                serves_tenant typed r c given,
                L.in_time _ (content_type_enforcer h) r' c,
              )
              (refuses_untyped h r' c untyped fresh),
        λ known given json.
            rw
              (
                serves_key_holder keys tenanted r c known,
                serves_tenant typed r c given,
                L.in_time _ (content_type_enforcer h) r' c,
                serves_typed h r' c json,
              )
              (stub r' c fresh),
      )

  routes-IsStub :
      (router : Router) → All (λ e. e.in_group ≡ true → IsStub e.handler) (routes D router)
  unfolding routes handle_enqueue_task handle_get_task handle_delete_task handle_list_dlq
  routes-IsStub router =
      let stub : (message : String)
          → IsStub (λ r. respond (write_error r 501 "not_implemented" message)) =
        λ message r c fresh. write_error-Answers r 501 "" "" c fresh in
      (
        λ h. cc,
        (λ h. cc, (λ h. cc, (λ _. stub "", (λ _. stub "", (λ _. stub "", (λ _. stub "", tt)))))),
      )

  -- The request and the exchange that reach the mux.
  abbrev pub identified : Request → Exchange S → String × S
  identified r c =
      if str_eq (r.header "X-Request-ID") ""
      then D.new_uuid c.world
      else (r.header "X-Request-ID", c.world)

  abbrev pub arriving : Request → Exchange S → Request
  arriving r c =
      let r' = with_value context_key_request_id (identified r c).0 r in
      record r' { remote_addr = D.real_ip r' }

  abbrev pub arrived : Request → Exchange S → Exchange S
  arrived r c = record c {
    writer = record (set_header "X-Request-ID" (identified r c).0 c.writer) { status = 200 };
    world = (identified r c).1;
  }

  recovered-Answers :
      (status : ℕ) (next : Handler S) (r : Request) (c : Exchange S)
      → Answers status (next r c)
      → Answers status (recoverer_middleware next r c)
  unfolding recoverer_middleware
  recovered-Answers status next r c (ends, code) = rw (recoverer_middleware, ends) (refl, code)

  logged-Answers :
      (status : ℕ) (next : Handler S) (r : Request) (c : Exchange S)
      → Answers status (next r (record c { writer = record (c.writer) { status = 200 } }))
      → Answers status (request_logger_middleware next r c)
  unfolding request_logger_middleware
  logged-Answers status next r c (ends, code) = rw (request_logger_middleware, ends) (refl, code)

  behind-Answers :
      (status : ℕ) (next : Handler S) (r : Request) (c : Exchange S)
      → Answers status (next (arriving r c) (arrived r c))
      → Answers status (behind_middleware D next r c)
  unfolding behind_middleware
  behind-Answers status next r c a =
      logged-Answers status (recoverer_middleware next) (arriving r c) (arrived r c)
        (recovered-Answers status next (arriving r c) (arrived r c) a)

  pub All-Memᴰ :
      (P : Endpoint S → Type 0) {e : Endpoint S} (es : List (Endpoint S))
      → All P es
      → Memᴰ e es
      → P e
  All-Memᴰ P [] all m = elim m [ ]
  All-Memᴰ P {e} (x ∷ xs) (here, later) m = elim (Memᴰ.cases_cons m) [
    | inl same ↦ subst P (sym same) here
    | inr deeper ↦ All-Memᴰ P xs later deeper
  ]

  routed :
      (router : Router) (r : Request) (c : Exchange S) (e : Endpoint S)
      → D.find (routes D router) r.method r.path ≡ some e
      → e.in_group ≡ true
      → route D router r c ≡ in_group_of D router.api_keys e.handler r c
  unfolding route endpoint_handler
  routed router r c e found grouped = rw (route, found, endpoint_handler, grouped)

  -- With prompt answers, a request that the mux gives to a task endpoint, whose response is not
  -- started, is answered with 401 without a configured key, then with 400 without a tenant,
  -- then with 415 if its method carries content that is not declared as JSON, and else with 501.
  pub task_endpoint_answers :
      IsMux
      → IsPrompt
      → (router : Router) (r : Request) (c : Exchange S) (e : Endpoint S) → c.writer.sent ≡ none
      → D.find (routes D router) r.method r.path ≡ some e
      → e.in_group ≡ true
      → AnswersInTurn router.api_keys r (serve D router r c)
  unfolding serve
  task_endpoint_answers M L router r c e fresh found grouped =
      let h = e.handler in
      let stub =
        All-Memᴰ (λ x. x.in_group ≡ true → IsStub x.handler) (routes D router)
          (routes-IsStub router) (M.finds _ _ _ e found) grouped in
      let (unknown, no_tenant, untyped, accepted) =
        group_in_turn L router.api_keys h (arriving r c) (arrived r c) stub fresh in
      let to : (status : ℕ)
          → Answers status (in_group_of D router.api_keys h (arriving r c) (arrived r c))
          → Answers status (serve D router r c) =
        λ status a.
          behind-Answers status (route D router) r c
            (rw (routed router (arriving r c) (arrived r c) e found grouped) a) in
      (
        λ k. to 401 (unknown k),
        λ k t. to 400 (no_tenant k t),
        λ k t u. to 415 (untyped k t u),
        λ k t u. to 501 (accepted k t u),
      )
