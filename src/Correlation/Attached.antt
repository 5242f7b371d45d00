-- ===== src/Correlation/Attached.antt =====
-- Where the interceptor runs: the main.ts of the four services behind the gateway, each of which calls
-- `useGlobalInterceptors`. Two of them are microservices, and two are applications to which
-- microservices are connected.
use workflowhub.Prelude.{
  ◌≡◌, refl, ◌∙◌, ap, sym, subst, String, Bool, true, false, none, truthy, if◌then◌else◌,
}
use workflowhub.Json.{Value, text, object, Fields, is_json_fields}
use workflowhub.Json.Assign.{LacksField}
use workflowhub.Correlation.{
  Store, get_correlation_id, store_of, Packet, publish, dispatch_event, RpcContext, intercept,
}
use workflowhub.Correlation.Propagation.{
  IsFaithful, Carries, publish-sent, sent-Carries, intercept-sent,
}

-- `createMicroservice`, or `connectMicroservice` with the option `inheritAppConfig`.
pub data Bootstrap : Type 0 where
  create_microservice : Bootstrap
  connect_microservice : Bool → Bootstrap

abbrev pub auth_service : Bootstrap
auth_service = create_microservice

abbrev pub task_service : Bootstrap
task_service = create_microservice

-- The option is not given, and is false then.
abbrev pub analytics_service : Bootstrap
analytics_service = connect_microservice false

abbrev pub notification_service : Bootstrap
notification_service = connect_microservice false

-- NestJS: whether global interceptors are applied to the handlers of messages.
pub record Nest : Type 0 where
  pub applies : Bootstrap → Bool

-- As it is documented: global interceptors are those of a microservice, and a connected one has them
-- only if it inherits them.
pub record IsDocumented (N : Nest) : Type 0 where
  pub applies_alone : N.applies create_microservice ≡ true
  pub applies_connected : (inherits : Bool) → N.applies (connect_microservice inherits) ≡ inherits

-- The store in which a handler of a service runs, and the data that it is given.
abbrev pub receive : Nest → Bootstrap → String → RpcContext → Bool → Value → Store × Value
receive N app random_uuid rpc_context frozen body =
    if N.applies app then intercept random_uuid rpc_context frozen body else (none, body)

module _ (N : Nest) (H : IsDocumented N) where
  pub receive-alone :
      (random_uuid : String) (rpc_context : RpcContext) (frozen : Bool) (body : Value)
      → receive N create_microservice random_uuid rpc_context frozen body
        ≡ intercept random_uuid rpc_context frozen body
  receive-alone random_uuid rpc_context frozen body = rw H.applies_alone refl

  pub receive-connected :
      (random_uuid : String) (rpc_context : RpcContext) (frozen : Bool) (body : Value)
      → receive N (connect_microservice false) random_uuid rpc_context frozen body ≡ (none, body)
  receive-connected random_uuid rpc_context frozen body = rw (H.applies_connected false) refl

  receive-inherited :
      (random_uuid : String) (rpc_context : RpcContext) (frozen : Bool) (body : Value)
      → receive N (connect_microservice true) random_uuid rpc_context frozen body
        ≡ intercept random_uuid rpc_context frozen body
  receive-inherited random_uuid rpc_context frozen body = rw (H.applies_connected true) refl

  -- A message of RabbitMQ, which is an object that JSON can write and that has no `_metadata`, sent under
  -- an id: the id arrives at the notification service, but its handler does not run under it. The
  -- handler runs without a store, so that its log has no id, and is given the object with one field
  -- more, `_metadata` with the id. If the connected microservice inherited the application's settings,
  -- the handler would run under the id and be given the object as it was. An event likewise.
  pub receive-publish :
      (id random_uuid : String) (fs : Fields) (wire : Value → Value) (store : Store)
      (packet : Packet) (rpc_context : RpcContext)
      → truthy id ≡ true
      → LacksField "_metadata" fs
      → IsFaithful wire
      → get_correlation_id store ≡ text id
      → packet.body ≡ object fs
      → is_json_fields fs ≡ true
      → let message = publish (λ p. wire p.body) store packet in
        let event = dispatch_event (λ p. wire p.body) store packet in
        ((receive N notification_service random_uuid rpc_context false message).0 ≡ none)
        × Carries id fs (receive N notification_service random_uuid rpc_context false message).1
        × (receive N (connect_microservice true) random_uuid rpc_context false message
            ≡ (store_of (text id), object fs))
        × (receive N notification_service random_uuid rpc_context false event
            ≡ receive N notification_service random_uuid rpc_context false message)
  receive-publish id random_uuid fs wire store packet rpc_context shown plain faithful known is_fs
        json =
      let (message, event) =
        publish-sent id shown fs plain wire store packet faithful known is_fs json in
      let bare = receive-connected random_uuid rpc_context false in
      (
        ap (λ (r : Store × Value). r.0) (bare _),
        subst (Carries id fs) (sym (ap (λ (r : Store × Value). r.1) (bare _) ∙ message))
            (sent-Carries id shown fs plain),
        receive-inherited random_uuid rpc_context false _
            ∙ ap (intercept random_uuid rpc_context false) message
            ∙ intercept-sent id shown fs plain random_uuid rpc_context,
        ap (receive N notification_service random_uuid rpc_context false) (event ∙ sym message),
      )
