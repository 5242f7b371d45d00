-- ===== src/Correlation/Propagation.antt =====
-- The id on its way through the services.
use workflowhub.Prelude.{
  ◌≡◌, refl, ◌∙◌, ap, not, ◌&&◌, ap₂, Bool-cases, inl, inr, String, Bool, true, false, truthy,
  if◌then◌else◌,
}
use workflowhub.Json.{
  Value, undefined, null, boolean, number, array, spread, text, object, Fields, no_fields, field,
  is_truthy, is_defined, is_object, get, property, set, remove, is_json, is_json_fields,
}
use workflowhub.Json.Assign.{
  get-set, remove-set, LacksField, get-LacksField, remove-LacksField, is_json-set,
}
use workflowhub.Correlation.{
  Store, get_correlation_id, store_of, Packet, with_metadata, correlated, publish, dispatch_event,
  RpcContext, context_id, data_id, intercept,
}

-- The connection between client and server: what JSON can write arrives as it was sent.
abbrev pub IsFaithful : (Value → Value) → Type 0
IsFaithful wire = (v : Value) → is_json v ≡ true → wire v ≡ v

-- The first value that passes the test of `if`, or else the last.
abbrev pub first_truthy : Value → Value → Value → Value
first_truthy a b c = if is_truthy a then a else if is_truthy b then b else c

if_same : {A : Type 0} (b : Bool) (x : A) → (if b then x else x) ≡ x
if_same true x = refl
if_same false x = refl

data_id_lem : (body : Value) → data_id body ≡ property "correlationId" (property "_metadata" body)
data_id_lem undefined = refl
data_id_lem null = refl
data_id_lem (boolean b) = refl
data_id_lem (number n) = refl
data_id_lem (text s) = refl
data_id_lem (array xs) = if_same (is_object (array xs)) undefined
data_id_lem (object fs) =
    let id = property "correlationId" (get "_metadata" fs) in
    if_same (not (is_truthy id) && is_defined (get "payload" fs) && is_truthy (get "_metadata" fs))
      id

first_truthy_lem :
    (a b c : Value)
    → (let d : Value = if is_truthy a then a else b in if is_truthy d then d else c)
      ≡ first_truthy a b c
first_truthy_lem a b c = elim (Bool-cases (is_truthy a)) [
  | inl good ↦ rw good (rw good refl)
  | inr bad ↦ rw bad refl
]

-- The id under which a handler runs is the first, in this order, that is truthy: the `correlationId` of
-- the data's `_metadata`, the one of the context of the call, and a new one. The second look at
-- the data in the code changes nothing, whatever the data are.
pub intercept-first_truthy :
    (random_uuid : String) (rpc_context : RpcContext) (frozen : Bool) (body : Value)
    → (intercept random_uuid rpc_context frozen body).0
      ≡ store_of (
          first_truthy
            (property "correlationId" (property "_metadata" body))
            (context_id rpc_context)
            (text random_uuid))
unfolding intercept
intercept-first_truthy random_uuid rpc_context frozen body = rw (data_id_lem body) (
    ap store_of (
      first_truthy_lem (property "correlationId" (property "_metadata" body))
        (context_id rpc_context) (text random_uuid)))

-- An object with the fields of another, and one field more, that of the id.
pub record Carries (id : String) (fs : Fields) (v : Value) : Type 0 where
  pub all_fields : Fields
  pub is_object : v ≡ object all_fields
  pub id_field : property "correlationId" (get "_metadata" all_fields) ≡ text id
  pub others : remove "_metadata" all_fields ≡ fs

-- What is sent for an object without `_metadata`.
module _ (id : String) (shown : truthy id ≡ true) (fs : Fields)
    (plain : LacksField "_metadata" fs) where
  abbrev pub sent : Value
  sent = object (set "_metadata" (object (field "correlationId" (text id) no_fields)) fs)

  with_metadata_plain : with_metadata (text id) (object fs) ≡ sent
  unfolding with_metadata spread set
  with_metadata_plain =
      ap (λ v. object (set "_metadata" (object (set "correlationId" (text id) (spread v))) fs))
        (get-LacksField "_metadata" fs plain)

  sent_json : is_json_fields fs ≡ true → is_json sent ≡ true
  unfolding is_json
  sent_json h = is_json-set "_metadata" _ fs refl h

  pub intercept-sent :
      (random_uuid : String) (rpc_context : RpcContext)
      → intercept random_uuid rpc_context false sent ≡ (store_of (text id), object fs)
  unfolding intercept get
  intercept-sent random_uuid rpc_context =
      let id_there : property "correlationId" (property "_metadata" sent) ≡ text id =
        ap (property "correlationId")
          (get-set "_metadata" (object (field "correlationId" (text id) no_fields)) fs) in
      ap₂ (λ a b. (a, b))
        (intercept-first_truthy random_uuid rpc_context false sent ∙ rw (id_there, shown))
        (ap object (remove-set "_metadata" _ fs ∙ remove-LacksField "_metadata" fs plain))

  -- What the client sends.
  pub publish-sent :
      (wire : Value → Value) (store : Store) (packet : Packet)
      → IsFaithful wire
      → get_correlation_id store ≡ text id
      → packet.body ≡ object fs
      → is_json_fields fs ≡ true
      → (publish (λ p. wire p.body) store packet ≡ sent)
        × (dispatch_event (λ p. wire p.body) store packet ≡ sent)
  unfolding publish dispatch_event
  publish-sent wire store packet faithful known is_fs json =
      let sent_body : (correlated store packet).body ≡ sent =
        rw (known, shown) (ap (with_metadata (text id)) is_fs ∙ with_metadata_plain) in
      let arrived : wire (correlated store packet).body ≡ sent =
        ap wire sent_body ∙ faithful sent (sent_json json) in
      (arrived, arrived)

  -- What is sent is the data with one field more.
  pub sent-Carries : Carries id fs sent
  unfolding get
  sent-Carries = record {
    all_fields = set "_metadata" (object (field "correlationId" (text id) no_fields)) fs;
    is_object = refl;
    id_field =
        ap (property "correlationId")
          (get-set "_metadata" (object (field "correlationId" (text id) no_fields)) fs);
    others = remove-set "_metadata" _ fs ∙ remove-LacksField "_metadata" fs plain;
  }
