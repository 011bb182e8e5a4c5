-- ===== src/Http/Router/Stamped.antt =====
-- What holds of every exchange of the router, whatever its handlers do.
use qtip_challenge.Base.{
  ℕ, ◌*◌, String, none, List, [], ◌∷◌, ◌≡◌, inl, inr, refl, ap, ◌∙◌, All, Option-cases, Bool-cases,
}
use qtip_challenge.Base.Assoc.Laws.{lookup-insert}
use qtip_challenge.Base.Assoc.{lookup}
use qtip_challenge.Domain.Retry.{second}
use qtip_challenge.Http.{
  Request, value_or_empty, context_key_tenant_id, request_id_from_context, tenant_id_from_context,
  set_header, write_json, write_error, map_json, AccessEntry, Exchange, Ending, finished, Handler,
  respond,
}
use qtip_challenge.Http.Middleware.{
  request_logger_middleware, recoverer_middleware, content_type_enforcer,
  tenant_extractor_middleware,
}
use qtip_challenge.Http.Middleware.Stamp.{
  id_header, IsStamped, Ending-cases, Keeps, write_json-IsStamped, refusal-Keeps, either-Keeps,
  api_key_auth-Keeps, tenant_extractor-Keeps, content_type_enforcer-Keeps, recoverer-Keeps,
}
use qtip_challenge.Http.Handlers.{
  handle_healthz, handle_readyz, handle_enqueue_task, handle_get_task, handle_delete_task,
  handle_list_dlq,
}
use qtip_challenge.Http.Router.{
  Endpoint, Chi, Router, routes, in_group_of, endpoint_handler, route, behind_middleware, serve,
}
use qtip_challenge.Http.Router.Guarded.{IsMux, All-Memᴰ, identified, arriving, arrived}

module _ {S : Type 0} (D : Chi S) where
  -- The handlers that other packages provide leave the header X-Request-ID as it is, and the
  -- timeout does so for a handler that does.
  pub record IsNeutral : Type 0 where
    pub metrics : Keeps D.metrics
    pub no_route : Keeps D.no_route
    pub timeout : (d : ℕ) (next : Handler S) → Keeps next → Keeps (D.timeout d next)

  routes-Keep : IsNeutral → (router : Router) → All (λ e. Keeps e.handler) (routes D router)
  unfolding routes handle_healthz handle_readyz handle_enqueue_task handle_get_task
      handle_delete_task handle_list_dlq
  routes-Keep L router =
      let stub : (message : String)
          → Keeps {S = S} (λ r. respond (write_error r 501 "not_implemented" message)) =
        λ message. refusal-Keeps 501 "not_implemented" message in
      (
        (λ id r c st. write_json-IsStamped id 200 _ c.writer st),
        (
          (either-Keeps (λ r. router.ready)
              (λ r. respond (write_json 200 (map_json (("status", "ready") ∷ []))))
              (λ r. respond (write_json 503 (map_json (("status", "not_ready") ∷ []))))
              (λ id r c st. write_json-IsStamped id 200 _ c.writer st)
              (λ id r c st. write_json-IsStamped id 503 _ c.writer st)),
          (
            L.metrics,
            (
              stub "task enqueue is not yet implemented",
              (
                stub "task lookup is not yet implemented",
                (
                  stub "task deletion is not yet implemented",
                  (stub "DLQ listing is not yet implemented", tt),
                ),
              ),
            ),
          ),
        ),
      )

  endpoint_handler-Keeps :
      IsNeutral
      → (router : Router) (e : Endpoint S) → Keeps e.handler
      → Keeps (endpoint_handler D router e)
  unfolding endpoint_handler in_group_of
  endpoint_handler-Keeps L router e keeps id r c st = elim (Bool-cases e.in_group) [
    | inr outside ↦ rw (endpoint_handler, outside) (keeps id r c st)
    | inl grouped ↦
        let typed : Handler S = content_type_enforcer e.handler in
        let limited : Handler S = D.timeout (30 * second) typed in
        rw (endpoint_handler, grouped)
          (api_key_auth-Keeps router.api_keys (tenant_extractor_middleware limited)
            (tenant_extractor-Keeps limited
              (L.timeout (30 * second) typed (content_type_enforcer-Keeps e.handler keeps)))
            id r c st)
  ]

  route-Keeps : IsMux D → IsNeutral → (router : Router) → Keeps (route D router)
  unfolding route
  route-Keeps M L router id r c st =
      elim (Option-cases (D.find (routes D router) r.method r.path)) [
        | inl missing ↦ rw (route, missing) (L.no_route id r c st)
        | inr (e, found) ↦
            let keeps =
              All-Memᴰ D (λ x. Keeps x.handler) (routes D router) (routes-Keep L router)
                (M.finds _ _ _ e found) in
            rw (route, found) (endpoint_handler-Keeps L router e keeps id r c st)
      ]

  recovers :
      (next : Handler S) (r : Request) (c : Exchange S)
      → (recoverer_middleware next r c).0 ≡ finished
  unfolding recoverer_middleware
  recovers next r c = elim (Ending-cases (next r c).0) [
    | inl e ↦ rw (recoverer_middleware, e)
    | inr (v, e) ↦ rw (recoverer_middleware, e)
  ]

  arrived-IsStamped :
      (r : Request) (c : Exchange S)
      → c.writer.sent ≡ none
      → IsStamped (identified D r c).0 (arrived D r c).writer
  unfolding set_header
  arrived-IsStamped r c fresh = record {
    held = lookup-insert c.writer.headers id_header (identified D r c).0;
    passed_on = λ code headers e. cc (fresh, e);
  }

  -- An exchange that ended well and whose latest entry tells what it was.
  abbrev pub IsTraced : String → Request → Ending × Exchange S → Type 0
  IsTraced id r x =
      (x.0 ≡ finished)
      × IsStamped id x.1.writer
      × ((entry : AccessEntry) × (older : List AccessEntry) × (x.1.access_log ≡ entry ∷ older)
          × (entry.request_id ≡ request_id_from_context r)
          × (entry.tenant_id ≡ tenant_id_from_context r)
          × (entry.status ≡ x.1.writer.status))

  logger-IsTraced :
      (next : Handler S) (id : String) (r : Request) (c : Exchange S)
      → let x = next r (record c { writer = record (c.writer) { status = 200 } }) in
        x.0 ≡ finished
        → IsStamped id x.1.writer
        → IsTraced id r (request_logger_middleware next r c)
  unfolding request_logger_middleware
  logger-IsTraced next id r c ended st =
      rw (request_logger_middleware, ended)
        (refl, record { held = st.held; passed_on = st.passed_on }, (_, _, refl, refl, refl, refl))

  -- For a request that arrives without context and whose response is not started, with handlers of
  -- other packages that leave its X-Request-ID alone: whatever the handler does, also a panic, the
  -- exchange ends without one, the response has the X-Request-ID of the request, or a new one
  -- where that is empty, and the access log gets an entry with this id and with the last status
  -- written, but with no tenant.
  pub serve_traced :
      IsMux D
      → IsNeutral
      → (router : Router) (r : Request) (c : Exchange S) → r.context ≡ []
      → c.writer.sent ≡ none
      → let (ending, d) = serve D router r c in
        (ending ≡ finished)
        × IsStamped (identified D r c).0 d.writer
        × ((entry : AccessEntry) × (older : List AccessEntry) × (d.access_log ≡ entry ∷ older)
            × (entry.request_id ≡ (identified D r c).0)
            × (entry.tenant_id ≡ "")
            × (entry.status ≡ d.writer.status))
  unfolding serve behind_middleware request_id_from_context tenant_id_from_context lookup
  serve_traced M L router r c bare fresh =
      let next = route D router in
      let ended = recovers next (arriving D r c) (arrived D r c) in
      let stamped =
        recoverer-Keeps next (route-Keeps M L router) (identified D r c).0 (arriving D r c)
          (arrived D r c) (arrived-IsStamped r c fresh) in
      let no_tenant : tenant_id_from_context (arriving D r c) ≡ "" =
        ap (λ ctx. value_or_empty (lookup ctx context_key_tenant_id)) bare in
      let (ends, st, (entry, older, grows, id_is, tenant_is, status_is)) =
        logger-IsTraced (recoverer_middleware next) (identified D r c).0 (arriving D r c)
          (arrived D r c) ended stamped in
      (ends, st, (entry, older, grows, id_is, tenant_is ∙ no_tenant, status_is))
