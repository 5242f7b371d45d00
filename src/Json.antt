-- ===== src/Json.antt =====
-- The values of JavaScript that a message holds, and what the language does with them.
pub mod Assign
use Prim.Native.Nat.{ℕ, zero, suc, ◌+◌, ◌/◌, ◌%◌}
use Prim.Native.String.{String, ◌++◌ as ◌<>◌}
use mathlib.Core.Bool.{Bool, true, false, not}
use workflowhub.Prelude.{◌==◌, ltb, nat_beq, truthy, if◌then◌else◌}

mutual
  pub data Value : Type 0 where
    undefined : Value
    null : Value
    boolean : Bool → Value
    number : ℕ → Value
    text : String → Value
    array : Items → Value
    object : Fields → Value

  pub data Fields : Type 0 where
    no_fields : Fields
    field : String → Value → Fields → Fields

  pub data Items : Type 0 where
    no_items : Items
    item : Value → Items → Items

-- The test of `if (value)`.
abbrev pub is_truthy : Value → Bool
is_truthy undefined = false
is_truthy null = false
is_truthy (boolean b) = b
is_truthy (number n) = not (nat_beq n 0)
is_truthy (text s) = truthy s
is_truthy (array xs) = true
is_truthy (object fs) = true

-- `value !== undefined`
abbrev pub is_defined : Value → Bool
is_defined undefined = false
is_defined _ = true

-- `value && typeof value === 'object'`
abbrev pub is_object : Value → Bool
is_object (array xs) = true
is_object (object fs) = true
is_object _ = false

-- `fields[key]`
unfoldable pub get : String → Fields → Value
get key no_fields = undefined
get key (field k v fs) = if k == key then v else get key fs

-- `value?.key`, for a key that no text and no array has.
abbrev pub property : String → Value → Value
property key (object fs) = get key fs
property key _ = undefined

-- An assignment keeps the place of a field that is there.
unfoldable pub set : String → Value → Fields → Fields
set key v no_fields = field key v no_fields
set key v (field k w fs) = if k == key then field k v fs else field k w (set key v fs)

-- `delete`
unfoldable pub remove : String → Fields → Fields
remove key no_fields = no_fields
remove key (field k v fs) = if k == key then remove key fs else field k v (remove key fs)

digit : ℕ → String
digit n =
    if nat_beq n 0
    then "0"
    else if nat_beq n 1
    then "1"
    else if nat_beq n 2
    then "2"
    else if nat_beq n 3
    then "3"
    else if nat_beq n 4
    then "4"
    else if nat_beq n 5
    then "5"
    else if nat_beq n 6
    then "6"
    else if nat_beq n 7
    then "7"
    else if nat_beq n 8
    then "8"
    else "9"

-- The decimal digits of a number, with fuel.
digits : ℕ → ℕ → String
unfolding digit
digits zero n = ""
digits (suc fuel) n =
    let front = digits fuel (n / 10) in if ltb n 10 then digit n else front <> digit (n % 10)

-- A number has at most as many digits as its value, and at least one.
unfoldable pub decimal : ℕ → String
unfolding digits
decimal n = digits (suc n) n

index_items : ℕ → Items → Fields
unfolding decimal
index_items n no_items = no_fields
index_items n (item v xs) = field (decimal n) v (index_items (n + 1) xs)

index_text : ℕ → String → Fields
unfolding decimal
index_text n String.[] = no_fields
index_text n (String.◌∷◌ c s) = field (decimal n) (text (String.◌∷◌ c "")) (index_text (n + 1) s)

-- `{ ...value }`: the own fields, those of an array and of a text by their indices.
unfoldable pub spread : Value → Fields
unfolding index_items index_text
spread (object fs) = fs
spread (array xs) = index_items 0 xs
spread (text s) = index_text 0 s
spread _ = no_fields

-- `String(value)`
unfoldable mutual
  unfolding decimal

  pub to_text : Value → String
  to_text undefined = "undefined"
  to_text null = "null"
  to_text (boolean true) = "true"
  to_text (boolean false) = "false"
  to_text (number n) = decimal n
  to_text (text s) = s
  to_text (array xs) = join_items xs
  to_text (object fs) = "[object Object]"

  pub join_items : Items → String
  join_items no_items = ""
  join_items (item v no_items) = item_text v
  join_items (item v (item w xs)) = item_text v <> "," <> join_items (item w xs)

  pub item_text : Value → String
  item_text undefined = ""
  item_text null = ""
  item_text (boolean true) = "true"
  item_text (boolean false) = "false"
  item_text (number n) = decimal n
  item_text (text s) = s
  item_text (array xs) = join_items xs
  item_text (object fs) = "[object Object]"

-- What JSON can write and read back.
unfoldable mutual
  pub is_json : Value → Bool
  is_json undefined = false
  is_json null = true
  is_json (boolean b) = true
  is_json (number n) = true
  is_json (text s) = true
  is_json (array xs) = is_json_items xs
  is_json (object fs) = is_json_fields fs

  pub is_json_items : Items → Bool
  is_json_items no_items = true
  is_json_items (item v xs) = if is_json v then is_json_items xs else false

  pub is_json_fields : Fields → Bool
  is_json_fields no_fields = true
  is_json_fields (field k v fs) = if is_json v then is_json_fields fs else false
