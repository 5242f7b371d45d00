-- ===== src/Json/Assign.antt =====
-- Reading, assigning and removing fields.
use workflowhub.Prelude.{◌≡◌, refl, ap, String, true, false, ◌==◌, eq_refl, arith}
use workflowhub.Json.{
  Value, undefined, Fields, no_fields, field, get, set, remove, is_json, is_json_fields,
}

pub get-set : (key : String) (v : Value) (fs : Fields) → get key (set key v fs) ≡ v
unfolding get set
get-set key v no_fields = rw eq_refl refl
get-set key v (field k w fs) = ground (arith, get-set key v fs)

pub remove-set :
    (key : String) (v : Value) (fs : Fields) → remove key (set key v fs) ≡ remove key fs
unfolding remove set
remove-set key v no_fields = rw eq_refl refl
remove-set key v (field k w fs) = ground (arith, remove-set key v fs)

-- A field that is not there, rather than one whose value is undefined.
abbrev pub LacksField : String → Fields → Type 0
LacksField key no_fields = Unit
LacksField key (field k v fs) = ((k == key) ≡ false) × LacksField key fs

pub get-LacksField : (key : String) (fs : Fields) → LacksField key fs → get key fs ≡ undefined
unfolding get
get-LacksField key no_fields h = refl
get-LacksField key (field k v fs) (n, h) = rw n (get-LacksField key fs h)

pub remove-LacksField : (key : String) (fs : Fields) → LacksField key fs → remove key fs ≡ fs
unfolding remove
remove-LacksField key no_fields h = refl
remove-LacksField key (field k v fs) (n, h) = rw n (ap (field k v) (remove-LacksField key fs h))

pub is_json-set :
    (key : String) (v : Value) (fs : Fields)
    → is_json v ≡ true
    → is_json_fields fs ≡ true
    → is_json_fields (set key v fs) ≡ true
unfolding is_json set
is_json-set key v no_fields p q = rw p refl
is_json-set key v (field k w fs) p q = ground (arith, is_json-set key v fs)
