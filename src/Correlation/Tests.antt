-- ===== src/Correlation/Tests.antt =====
-- The id of one request.
use workflowhub.Prelude.{◌≡◌, refl, Bool, true, false, none, [], ◌∷◌}
use workflowhub.Json.{
  Value, undefined, text, number, object, array, Items, no_items, item, Fields, no_fields, field,
  is_json, to_text, get,
}
use workflowhub.Correlation.{
  get_correlation_id, store_of, Packet, Grpc, get_grpc_metadata, many, use_middleware, publish,
  dispatch_event, no_context, with_get, log_text,
}
use workflowhub.Correlation.Propagation.{Carries}
use workflowhub.Correlation.Attached.{
  Bootstrap, create_microservice, connect_microservice, Nest, IsDocumented, auth_service,
  task_service, analytics_service, notification_service, receive, receive-publish,
}
use workflowhub.Correlation.Chain.{use_middleware-receive}

-- Metadata with the values of one key.
abbrev grpc : Grpc
grpc = record { Metadata = Items; new = no_items; add = λ k v m. item v m; values = λ k m. m }

abbrev wire : Value → Value
wire v = v

abbrev greeting : Fields
greeting = field "userId" (text "u1") (field "title" (text "Welcome") no_fields)

logged : log_text (store_of (text "c1")) (text "Saga started") ≡ "[CorrelationID: c1] Saga started"
unfolding get to_text
logged = refl

ten : to_text (array (item (number 10) (item undefined (item (number 205) no_items)))) ≡ "10,,205"
unfolding to_text
ten = refl

-- NestJS as it is documented.
abbrev reaches : Bootstrap → Bool
reaches create_microservice = true
reaches (connect_microservice inherits) = inherits

abbrev nest : Nest
nest = record { applies = reaches }

nest-IsDocumented : IsDocumented nest
nest-IsDocumented = record { applies_alone = refl; applies_connected = λ inherits. refl }

abbrev notice : Packet
notice = record { pattern = "notification.sendSaga"; body = object greeting }

receive-publish_example :
    let message = publish (λ p. wire p.body) (store_of (text "c1")) notice in
    let event = dispatch_event (λ p. wire p.body) (store_of (text "c1")) notice in
    ((receive nest notification_service "u2" no_context false message).0 ≡ none)
    × Carries "c1" greeting (receive nest notification_service "u2" no_context false message).1
    × (receive nest (connect_microservice true) "u2" no_context false message
        ≡ (store_of (text "c1"), object greeting))
    × (receive nest notification_service "u2" no_context false event
        ≡ receive nest notification_service "u2" no_context false message)
unfolding get is_json
receive-publish_example =
    receive-publish nest nest-IsDocumented "c1" "u2" greeting wire (store_of (text "c1")) notice
      no_context refl (refl, (refl, tt)) (λ v h. refl) refl refl refl

use_middleware-receive_example :
    let (told, store) = use_middleware "u1" (many ("c1" ∷ "c2" ∷ [])) in
    let metadata = get_grpc_metadata grpc store in
    let call = with_get (λ k. grpc.values k metadata) in
    (get_correlation_id (receive nest auth_service "u2" call false (object greeting)).0 ≡ told)
    × (get_correlation_id (receive nest task_service "u2" call false (object greeting)).0 ≡ told)
    × (receive nest analytics_service "u2" call false (object greeting) ≡ (none, object greeting))
    × (receive nest notification_service "u2" no_context false (object greeting)
        ≡ (none, object greeting))
unfolding get
use_middleware-receive_example =
    use_middleware-receive nest grpc "u1" "u2" (many ("c1" ∷ "c2" ∷ [])) false (object greeting)
      (object greeting) no_context nest-IsDocumented (λ k v. refl) refl refl
