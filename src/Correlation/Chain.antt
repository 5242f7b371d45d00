-- ===== src/Correlation/Chain.antt =====
-- From the request to the services.
use workflowhub.Prelude.{
  ◌≡◌, refl, ◌∙◌, ap, sym, subst, Bool-cases, inl, inr, String, Bool, true, none, truthy, [], ◌∷◌,
  if◌then◌else◌,
}
use workflowhub.Json.{Value, undefined, text, no_items, item, get, property}
use workflowhub.Correlation.{
  Store, get_correlation_id, store_of, Grpc, get_grpc_metadata, Header, absent, once, many,
  use_middleware, first_item, RpcContext, with_get, context_id, intercept,
}
use workflowhub.Correlation.Propagation.{intercept-first_truthy}
use workflowhub.Correlation.Attached.{
  Nest, IsDocumented, create_microservice, auth_service, task_service, analytics_service,
  notification_service, receive, receive-alone, receive-connected,
}

-- The metadata that was added arrives at the server.
abbrev pub Delivers : Grpc → Type 0
Delivers G = (k : String) (v : Value) → G.values k (G.add k v G.new) ≡ item v no_items

shown_once :
    (random_uuid s : String)
    → truthy random_uuid ≡ true
    → (id : String) × (truthy id ≡ true)
      × (◌≡◌ {A = Value × Store}
          (let correlation_id : Value = if truthy s then text s else text random_uuid in
            (correlation_id, store_of correlation_id))
          (text id, store_of (text id)))
shown_once random_uuid s h = elim (Bool-cases (truthy s)) [
  | inl given ↦ (s, given, rw given)
  | inr missing ↦ (random_uuid, h, rw missing)
]

-- The id that the middleware tells the client, if a new id is not empty.
shown_id :
    (random_uuid : String) (header : Header)
    → truthy random_uuid ≡ true
    → (id : String) × (truthy id ≡ true)
      × (use_middleware random_uuid header ≡ (text id, store_of (text id)))
unfolding use_middleware
shown_id random_uuid absent h = (random_uuid, h, refl)
shown_id random_uuid (once s) h = shown_once random_uuid s h
shown_id random_uuid (many []) h = (random_uuid, h, refl)
shown_id random_uuid (many (s ∷ rest)) h = shown_once random_uuid s h

known_id : (id : Value) → get_correlation_id (store_of id) ≡ id
unfolding get
known_id id = refl

grpc_id :
    (G : Grpc) (id : String)
    → truthy id ≡ true
    → Delivers G
    → (later_uuid : String) (frozen : Bool) (body : Value) → property "_metadata" body ≡ undefined
    → get_correlation_id
        (intercept later_uuid
          (with_get (λ k. G.values k (get_grpc_metadata G (store_of (text id)))))
          frozen
          body).0
      ≡ text id
unfolding get_grpc_metadata
grpc_id G id given delivers later_uuid frozen body bare =
    let added : get_grpc_metadata G (store_of (text id))
        ≡ G.add "x-correlation-id" (text id) G.new =
      rw (known_id (text id), given) refl in
    let found : context_id (with_get (λ k. G.values k (get_grpc_metadata G (store_of (text id)))))
        ≡ text id =
      ap first_item
        (ap (G.values "x-correlation-id") added ∙ delivers "x-correlation-id" (text id)) in
    ap get_correlation_id (
      intercept-first_truthy later_uuid
        (with_get (λ k. G.values k (get_grpc_metadata G (store_of (text id))))) frozen body)
    ∙ known_id _
    ∙ rw (bare, found, given)

-- The client of the gateway is told, in the header of the response, the id under which the auth
-- service and the task service handle the gateway's calls by gRPC, if the data of the call have no
-- `_metadata`, whether the client gave an id, gave several or gave none, if a new id is not empty. The
-- analytics service, which is called by gRPC too, and the notification service, by RabbitMQ, handle
-- what comes without a store: their logs do not have the id.
pub use_middleware-receive :
    (N : Nest) (G : Grpc) (random_uuid later_uuid : String) (header : Header) (frozen : Bool)
    (body message : Value) (rpc_context : RpcContext)
    → IsDocumented N
    → Delivers G
    → truthy random_uuid ≡ true
    → property "_metadata" body ≡ undefined
    → let (told, store) = use_middleware random_uuid header in
      let metadata = get_grpc_metadata G store in
      let call = with_get (λ k. G.values k metadata) in
      (get_correlation_id (receive N auth_service later_uuid call frozen body).0 ≡ told)
      × (get_correlation_id (receive N task_service later_uuid call frozen body).0 ≡ told)
      × (receive N analytics_service later_uuid call frozen body ≡ (none, body))
      × (receive N notification_service later_uuid rpc_context frozen message ≡ (none, message))
use_middleware-receive N G random_uuid later_uuid header frozen body message rpc_context H delivers
      fresh bare =
    let (id, given, is) = shown_id random_uuid header fresh in
    let call : Store → RpcContext =
      λ store. with_get (λ k. G.values k (get_grpc_metadata G store)) in
    let told : get_correlation_id
          (receive N create_microservice later_uuid (call (store_of (text id))) frozen body).0
        ≡ text id =
      ap (λ (r : Store × Value). get_correlation_id r.0)
        (receive-alone N H later_uuid (call (store_of (text id))) frozen body)
      ∙ grpc_id G id given delivers later_uuid frozen body bare in
    subst
      (λ (p : Value × Store).
        (get_correlation_id (receive N auth_service later_uuid (call p.1) frozen body).0 ≡ p.0)
        × (get_correlation_id (receive N task_service later_uuid (call p.1) frozen body).0 ≡ p.0)
        × (receive N analytics_service later_uuid (call p.1) frozen body ≡ (none, body))
        × (receive N notification_service later_uuid rpc_context frozen message ≡ (none, message)))
      (sym is)
      (
        told,
        told,
        receive-connected N H later_uuid (call (store_of (text id))) frozen body,
        receive-connected N H later_uuid rpc_context frozen message,
      )
