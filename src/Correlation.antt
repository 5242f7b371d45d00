-- ===== src/Correlation.antt =====
-- libs/shared/src/logging: how the correlation id of a request travels through HTTP, gRPC and
-- RabbitMQ: context.ts, http-correlation.middleware.ts, correlation-client-rmq.ts,
-- rpc-correlation.interceptor.ts and app-logger.ts.
pub mod Propagation
pub mod Attached
pub mod Chain
mod Tests
use workflowhub.Json.{
  Value, undefined, null, boolean, number, text, array, object, Items, no_items, item, Fields,
  no_fields, field, is_truthy, is_defined, is_object, get, property, set, remove, spread, to_text,
}
use workflowhub.Prelude.{
  ◌≡◌, ℕ, String, ◌<>◌, Bool, true, false, ◌&&◌, not, Option, some, none, List, [], ◌∷◌, truthy,
  if◌then◌else◌,
}

-- The `Map` of a request in the `AsyncLocalStorage`, if the code runs in one.
abbrev pub Store : Type 0
Store = Option Fields

abbrev pub get_correlation_id : Store → Value
get_correlation_id none = undefined
get_correlation_id (some store) = get "correlationId" store

abbrev pub set_correlation_id : String → Store → Store
set_correlation_id id none = none
set_correlation_id id (some store) = some (set "correlationId" (text id) store)

-- A new `Map` with the id.
abbrev pub store_of : Value → Store
store_of id = some (field "correlationId" id no_fields)

-- The metadata of gRPC.
pub record Grpc : Type 1 where
  pub Metadata : Type 0
  pub new : Metadata
  pub add : String → Value → Metadata → Metadata
  pub values : String → Metadata → Items

module _ (G : Grpc) where
  pub get_grpc_metadata : Store → G.Metadata
  get_grpc_metadata store =
      let correlation_id = get_correlation_id store in
      if is_truthy correlation_id then G.add "x-correlation-id" correlation_id G.new else G.new

-- A header of a request: missing, once, or several times.
pub data Header : Type 0 where
  absent : Header
  once : String → Header
  many : List String → Header

abbrev pub header_value : Header → Value
header_value absent = undefined
header_value (once s) = text s
header_value (many []) = undefined
header_value (many (s ∷ rest)) = text s

-- `HttpCorrelationMiddleware.use`: the header of the response, and the store in which the request
-- is handled. `random_uuid` is the answer of `randomUUID`.
pub use_middleware : String → Header → Value × Store
use_middleware random_uuid header =
    let given = header_value header in
    let correlation_id : Value = if is_truthy given then given else text random_uuid in
    (correlation_id, store_of correlation_id)

-- What a client of RabbitMQ sends.
pub record Packet : Type 0 where
  pub pattern : String
  pub body : Value

-- The data of a packet with the id in `_metadata`.
pub with_metadata : Value → Value → Value
with_metadata correlation_id body =
    if is_object body
    then object (
        set "_metadata"
          (object (set "correlationId" correlation_id (spread (property "_metadata" body))))
          (spread body))
    else object (
        field "payload" body
          (field "_metadata" (object (field "correlationId" correlation_id no_fields)) no_fields))

pub correlated : Store → Packet → Packet
unfolding with_metadata
correlated store packet =
    let correlation_id = get_correlation_id store in
    if is_truthy correlation_id
    then record packet { body = with_metadata correlation_id packet.body }
    else packet

-- `super.publish` and `super.dispatchEvent` are those of `ClientRMQ`.
module _ {R : Type 0} (super : Packet → R) where
  pub publish : Store → Packet → R
  unfolding correlated
  publish store packet = super (correlated store packet)

  pub dispatch_event : Store → Packet → R
  unfolding correlated
  dispatch_event store packet = super (correlated store packet)

-- The context of a call: that of gRPC has `get`, those of RabbitMQ and of Kafka have `getMessage`.
pub data RpcContext : Type 0 where
  no_context other_context : RpcContext
  with_get : (String → Items) → RpcContext
  with_message : Value → RpcContext

-- `ids[0]`, if there is one.
abbrev pub first_item : Items → Value
first_item no_items = undefined
first_item (item v xs) = v

abbrev pub context_id : RpcContext → Value
context_id no_context = undefined
context_id other_context = undefined
context_id (with_get find) = first_item (find "x-correlation-id")
context_id (with_message message) =
    property "x-correlation-id" (property "headers" (property "properties" message))

-- The id in the data; the second test looks at the same place again.
abbrev pub data_id : Value → Value
data_id body =
    if is_object body
    then (let correlation_id = property "correlationId" (property "_metadata" body) in
        if not (is_truthy correlation_id)
          && is_defined (property "payload" body)
          && is_truthy (property "_metadata" body)
        then property "correlationId" (property "_metadata" body)
        else correlation_id)
    else undefined

-- `delete data._metadata`, which fails on a frozen object.
abbrev pub without_metadata : Bool → Value → Value
without_metadata frozen (object fs) = if frozen then object fs else object (remove "_metadata" fs)
without_metadata frozen body = body

-- `RpcCorrelationIdInterceptor.intercept`: the store in which the handler runs, and the data that it
-- is given.
pub intercept : String → RpcContext → Bool → Value → Store × Value
intercept random_uuid rpc_context frozen body =
    let in_data = data_id body in
    let in_context : Value = if is_truthy in_data then in_data else context_id rpc_context in
    let correlation_id : Value = if is_truthy in_context then in_context else text random_uuid in
    (store_of correlation_id, without_metadata frozen body)

-- `AppLogger`: the text that every level of the log is given.
abbrev pub correlation_id_prefix : Store → String
correlation_id_prefix store =
    let correlation_id = get_correlation_id store in
    if is_truthy correlation_id then "[CorrelationID: " <> to_text correlation_id <> "] " else ""

abbrev pub log_text : Store → Value → String
log_text store message = correlation_id_prefix store <> to_text message
