-- ===== src/Dto/Tests.antt =====
-- Runs of the theorems on the bodies of the routes, with a pipe that is written out.
use workflowhub.Prelude.{
  ◌≡◌, ◌≢◌, refl, sym, ap, subst, inl, inr, ℕ, suc, String, Bool, true, false, ◌&&◌, none, some,
  List, [], ◌∷◌, map, ◌==◌, leb, arith, truthy, Result, ok, err, Error, Scalar, Bool-cases,
  Option-cases, Member, if◌then◌else◌, eq_iff,
}
use workflowhub.Json.{
  Value, undefined, null, boolean, number, text, array, object, Fields, no_fields, field, get,
}
use workflowhub.Auth.{auth_document}
use workflowhub.Auth.Service.{RegisterBody, LoginBody}
use workflowhub.Task.{Task, task_document}
use workflowhub.Dto.{
  Rule, is_string, is_not_empty, is_email, min_length, Check, Dto, task_dto, PipeOptions,
  gateway_options, Pipe, read_text, read_register, read_login, read_task, Meets, MeetsAll,
  Registrable, IsValidating,
}
use workflowhub.Dto.Accepted.{validate_accepted}

is_address : String → Bool
is_address s = s == "ann@example.org"

units : String → ℕ
units String.[] = 0
units (String.◌∷◌ c s) = suc (units s)

-- One decorator, those of a property, and those of a class.
meets_text : Rule → String → Bool
unfolding units is_address
meets_text is_string s = true
meets_text is_not_empty s = truthy s
meets_text is_email s = is_address s
meets_text (min_length n) s = leb n (units s)

meets : Rule → Value → Bool
unfolding meets_text
meets rule v = elim (read_text v) [ none ↦ false | some s ↦ meets_text rule s ]

meets_checks : List Check → Value → Bool
unfolding meets
meets_checks [] v = true
meets_checks (check ∷ checks) v = meets check.0 v && meets_checks checks v

meets_all : Dto → Fields → Bool
unfolding meets_checks
meets_all [] fs = true
meets_all ((name, checks) ∷ dto) fs = meets_checks checks (get name fs) && meets_all dto fs

declares : Dto → String → Bool
declares [] name = false
declares ((key, checks) ∷ dto) name = if key == name then true else declares dto name

only_declared : Dto → Fields → Bool
unfolding declares
only_declared dto no_fields = true
only_declared dto (field name v fs) = declares dto name && only_declared dto fs

abbrev bad_request : Error
bad_request = record {
  name = some "BadRequestException";
  message = some "Bad Request Exception";
  details = none;
  code = none;
  status = some (Scalar.num 400);
  status_code = none;
}

check_body : PipeOptions → Dto → Fields → Result Fields
unfolding meets_all only_declared
check_body options dto fs =
    if meets_all dto fs && only_declared dto fs then ok fs else err bad_request

abbrev some_pipe : Pipe
some_pipe = record { validate = check_body; is_address = is_address; units = units }

read_text-some : (v : Value) (s : String) → read_text v ≡ some s → v ≡ text s
read_text-some (text t) s h = cc
read_text-some undefined s h = absurd (cc)
read_text-some null s h = absurd (cc)
read_text-some (boolean b) s h = absurd (cc)
read_text-some (number n) s h = absurd (cc)
read_text-some (array xs) s h = absurd (cc)
read_text-some (object fs) s h = absurd (cc)

meets_text-Meets :
    (rule : Rule) (s : String) → meets_text rule s ≡ true → Meets some_pipe rule (text s)
unfolding meets_text
meets_text-Meets is_string s h = (s, refl)
meets_text-Meets is_not_empty s h = λ e. absurd (cc (h, e))
meets_text-Meets is_email s h = (s, refl, h)
meets_text-Meets (min_length n) s h = (s, refl, ground arith)

meets-Meets : (rule : Rule) (v : Value) → meets rule v ≡ true → Meets some_pipe rule v
unfolding meets
meets-Meets rule v h = elim (Option-cases (read_text v)) [
  | inl nothing ↦ absurd (cc (h, nothing))
  | inr (s, is) ↦
      subst (λ w. Meets some_pipe rule w) (sym (read_text-some v s is))
        (meets_text-Meets rule s (cc (h, is)))
]

meets_checks-Meets :
    (checks : List Check) (v : Value) (check : Check)
    → meets_checks checks v ≡ true
    → Member check checks
    → Meets some_pipe check.0 v
unfolding meets_checks
meets_checks-Meets [] v check h m = absurd m
meets_checks-Meets (c ∷ checks) v check h m = elim (Bool-cases (meets c.0 v)) [
  | inr wrong ↦ absurd (cc (h, wrong))
  | inl met ↦ elim m [
    | inl e ↦ subst (λ (d : Check). Meets some_pipe d.0 v) (sym e) (meets-Meets c.0 v met)
    | inr later ↦ meets_checks-Meets checks v check (cc (h, met)) later
  ]
]

meets_all-MeetsAll : (dto : Dto) (fs : Fields) → meets_all dto fs ≡ true → MeetsAll some_pipe dto fs
unfolding meets_all
meets_all-MeetsAll [] fs h name checks check m n = absurd m
meets_all-MeetsAll ((key, own) ∷ dto) fs h name checks check m n =
    elim (Bool-cases (meets_checks own (get key fs))) [
      | inr wrong ↦ absurd (cc (h, wrong))
      | inl met ↦ elim m [
        | inl e ↦
            meets_checks-Meets checks (get name fs) check
              (cc (met, ap (λ (d : String × List Check). meets_checks d.1 (get d.0 fs)) e)) n
        | inr later ↦ meets_all-MeetsAll dto fs (cc (h, met)) name checks check later n
      ]
    ]

declares-Member :
    (dto : Dto) (name : String)
    → declares dto name ≡ true
    → Member name (map (λ (p : String × List Check). p.0) dto)
unfolding declares
declares-Member [] name h = absurd (cc)
declares-Member ((key, checks) ∷ dto) name h = elim (Bool-cases (key == name)) [
  | inl same ↦ inl (sym ((eq_iff key name).0 same))
  | inr other ↦ inr (declares-Member dto name (cc (h, other)))
]

only_declared-Member :
    (dto : Dto) (fs : Fields) (name : String)
    → only_declared dto fs ≡ true
    → get name fs ≢ undefined
    → Member name (map (λ (p : String × List Check). p.0) dto)
unfolding only_declared get
only_declared-Member dto no_fields name h there = absurd (there refl)
only_declared-Member dto (field key v fs) name h there = elim (Bool-cases (key == name)) [
  | inl same ↦
      let known : declares dto key ≡ true = ground arith in
      declares-Member dto name (cc (known, (eq_iff key name).0 same))
  | inr other ↦ only_declared-Member dto fs name (ground arith) (λ gone. there (cc (gone, other)))
]

some_pipe-both :
    (dto : Dto) (fs gs : Fields)
    → check_body gateway_options dto fs ≡ ok gs
    → (meets_all dto fs ≡ true) × (only_declared dto fs ≡ true) × (gs ≡ fs)
unfolding check_body
some_pipe-both dto fs gs h = elim (Bool-cases (meets_all dto fs)) [
  | inr wrong ↦ absurd (cc (h, wrong))
  | inl met ↦ elim (Bool-cases (only_declared dto fs)) [
    | inr wrong ↦ absurd (cc (h, met, wrong))
    | inl declared ↦ (met, declared, cc (h, met, declared))
  ]
]

some_pipe-IsValidating : IsValidating some_pipe
unfolding units is_address
some_pipe-IsValidating = record {
  accepted = λ dto fs gs fine.
      let (met, declared, same) = some_pipe-both dto fs gs fine in
      subst (MeetsAll some_pipe dto) (sym same) (meets_all-MeetsAll dto fs met);
  declared = λ dto fs gs name fine there.
      only_declared-Member dto fs name (some_pipe-both dto fs gs fine).1 there;
  no_address = refl;
  no_units = refl;
}

abbrev new_user : Fields
new_user =
    field "name" (text "Ann")
      (field "email" (text "ann@example.org") (field "password" (text "secret") no_fields))

abbrev known_user : Fields
known_user = field "email" (text "ann@example.org") (field "password" (text "x") no_fields)

abbrev new_task : Fields
new_task = field "title" (text "Ship") (field "description" (text "Today") no_fields)

validate_accepted_example :
    ((b : RegisterBody) × (read_register new_user ≡ some b)
      × Registrable some_pipe b
      × (auth_document b.name b.email "hash"
          ≡ some (record { name = b.name; email = b.email; password = "hash" })))
    × ((b : LoginBody) × (read_login known_user ≡ some b)
        × (is_address b.email ≡ true)
        × (truthy b.password ≡ true))
    × ((t : Task) × (task_document (read_task "u1" new_task) ≡ some t) × (t.user_id ≡ "u1"))
unfolding check_body get is_address
validate_accepted_example =
    validate_accepted some_pipe some_pipe-IsValidating new_user new_user known_user known_user
      new_task new_task "hash" "u1" refl refl refl refl refl

-- An empty title, and an identifier of another user, are refused.
empty_title :
    check_body gateway_options task_dto
      (field "title" (text "") (field "description" (text "Today") no_fields))
    ≡ err bad_request
unfolding check_body get is_address
empty_title = refl

foreign_user :
    check_body gateway_options task_dto (field "userId" (text "u2") new_task) ≡ err bad_request
unfolding check_body get is_address
foreign_user = refl
