-- ===== src/Dto.antt =====
-- libs/shared/src/dto: the bodies of the gateway's routes, and the ValidationPipe with which
-- apps/api-gateway/src/main.ts checks them. class-validator and the pipe are a parameter.
pub mod Accepted
mod Tests
use workflowhub.Prelude.{
  ◌≡◌, ◌≢◌, ◌≤◌, ℕ, String, Bool, true, false, truthy, Option, none, some, List, [], ◌∷◌, map,
  Member, Error, Result, ok, err,
}
use workflowhub.Json.{
  Value, undefined, null, boolean, number, text, array, object, Fields, no_fields, field, get,
}
use workflowhub.Auth.Service.{RegisterBody, LoginBody}
use workflowhub.Task.{TaskBody}

-- The decorators that are used, and their messages.
pub data Rule : Type 0 where
  is_string is_not_empty is_email : Rule
  min_length : ℕ → Rule

abbrev pub Check : Type 0
Check = Rule × Option String

-- A class: its properties, each with its decorators.
abbrev pub Dto : Type 0
Dto = List (String × List Check)

abbrev pub register_dto : Dto
register_dto =
    ("name", (is_string, none) ∷ (is_not_empty, some "Name is required") ∷ [])
    ∷ ("email", (is_email, some "Invalid email address") ∷ [])
    ∷ (
      "password",
      (is_string, none) ∷ (min_length 6, some "Password must be at least 6 characters long") ∷ [],
    )
    ∷ []

abbrev pub login_dto : Dto
login_dto =
    ("email", (is_email, some "Invalid email address") ∷ [])
    ∷ ("password", (is_string, none) ∷ (is_not_empty, some "Password is required") ∷ [])
    ∷ []

abbrev pub task_dto : Dto
task_dto =
    ("title", (is_string, none) ∷ (is_not_empty, some "Task title is required") ∷ [])
    ∷ ("description", (is_string, none) ∷ (is_not_empty, some "Task description is required") ∷ [])
    ∷ []

pub record PipeOptions : Type 0 where
  pub whitelist : Bool
  pub forbid_non_whitelisted : Bool
  pub transform : Bool

abbrev pub gateway_options : PipeOptions
gateway_options = record { whitelist = true; forbid_non_whitelisted = true; transform = true }

-- The pipe and what it reads of a text: whether it is an address, and how long it is.
pub record Pipe : Type 0 where
  pub validate : PipeOptions → Dto → Fields → Result Fields
  pub is_address : String → Bool
  pub units : String → ℕ

-- The body of a handler, as its properties are read.
abbrev pub read_text : Value → Option String
read_text (text s) = some s
read_text _ = none

unfoldable pub read_register : Fields → Option RegisterBody
read_register fs = elim (read_text (get "name" fs)) [
  | none ↦ none
  | some name ↦ elim (read_text (get "email" fs)) [
    | none ↦ none
    | some email ↦ elim (read_text (get "password" fs)) [
      | none ↦ none
      | some password ↦ some (record { name = name; email = email; password = password })
    ]
  ]
]

unfoldable pub read_login : Fields → Option LoginBody
read_login fs = elim (read_text (get "email" fs)) [
  | none ↦ none
  | some email ↦ elim (read_text (get "password" fs)) [
    | none ↦ none
    | some password ↦ some (record { email = email; password = password })
  ]
]

-- `{ ...body, userId: req.user.id }`
abbrev pub read_task : String → Fields → TaskBody
read_task user_id fs = record {
  title = read_text (get "title" fs);
  description = read_text (get "description" fs);
  user_id = some user_id;
}

module _ (P : Pipe) where
  -- What a decorator asks of a value, as its documentation says.
  abbrev pub Meets : Rule → Value → Type 0
  Meets is_string v = (s : String) × (v ≡ text s)
  Meets is_not_empty v = v ≢ text ""
  Meets is_email v = (s : String) × (v ≡ text s) × (P.is_address s ≡ true)
  Meets (min_length n) v = (s : String) × (v ≡ text s) × (n ≤ P.units s)

  -- Every property meets its decorators.
  abbrev pub MeetsAll : Dto → Fields → Type 0
  MeetsAll dto fs =
      (name : String) (checks : List Check) (check : Check)
      → Member (name, checks) dto
      → Member check checks
      → Meets check.0 (get name fs)

  -- A registration: a name, an address and a password of six characters.
  abbrev pub Registrable : RegisterBody → Type 0
  Registrable b =
      (truthy b.name ≡ true)
      × (truthy b.email ≡ true)
      × (P.is_address b.email ≡ true)
      × (6 ≤ P.units b.password)

  -- What the gateway relies on: with these options an accepted body meets the decorators, and has
  -- no property that the class does not declare. No empty text is an address.
  pub record IsValidating : Type 0 where
    pub accepted :
        (dto : Dto) (fs gs : Fields) → P.validate gateway_options dto fs ≡ ok gs → MeetsAll dto gs
    pub declared :
        (dto : Dto) (fs gs : Fields) (name : String)
        → P.validate gateway_options dto fs ≡ ok gs
        → get name fs ≢ undefined
        → Member name (map (λ (p : String × List Check). p.0) dto)
    pub no_address : P.is_address "" ≡ false
    pub no_units : P.units "" ≡ 0
