-- ===== src/Dto/Accepted.antt =====
-- What the gateway lets through.
use workflowhub.Prelude.{
  ◌≡◌, ◌≢◌, ◌≤◌, ◌⊎◌, refl, ◌∙◌, inl, inr, String, true, false, none, some, arith, truthy, ok,
  Bool-cases,
}
use workflowhub.Json.{Value, undefined, text, Fields, get}
use workflowhub.Auth.{auth_document}
use workflowhub.Auth.Service.{RegisterBody, LoginBody}
use workflowhub.Task.{Task, task_document}
use workflowhub.Dto.{
  is_string, is_not_empty, is_email, min_length, register_dto, login_dto, task_dto, gateway_options,
  Pipe, read_register, read_login, read_task, Meets, MeetsAll, Registrable, IsValidating,
}

truthy-ne : (s : String) → text s ≢ text "" → truthy s ≡ true
truthy-ne String.[] h = absurd (h refl)
truthy-ne (String.◌∷◌ c s) h = refl

read_register_texts :
    (gs : Fields) (name email password : String)
    → get "name" gs ≡ text name
    → get "email" gs ≡ text email
    → get "password" gs ≡ text password
    → read_register gs ≡ some (record { name = name; email = email; password = password })
unfolding read_register
read_register_texts gs name email password p q r = rw (read_register, p, q, r) refl

read_login_texts :
    (gs : Fields) (email password : String)
    → get "email" gs ≡ text email
    → get "password" gs ≡ text password
    → read_login gs ≡ some (record { email = email; password = password })
unfolding read_login
read_login_texts gs email password p q = rw (read_login, p, q) refl

read_task_texts :
    (gs : Fields) (title description user_id : String)
    → get "title" gs ≡ text title
    → get "description" gs ≡ text description
    → truthy title ≡ true
    → truthy description ≡ true
    → truthy user_id ≡ true
    → task_document (read_task user_id gs)
      ≡ some (record { title = title; description = description; user_id = user_id })
unfolding task_document
read_task_texts gs title description user_id p q titled described known =
    rw (task_document, p, titled, q, described, known) refl

module _ (P : Pipe) (V : IsValidating P) where
  -- A text that is not empty.
  required_text :
      (v : Value)
      → Meets P is_string v
      → Meets P is_not_empty v
      → (s : String) × (v ≡ text s) × (truthy s ≡ true)
  required_text v (s, is) full = (s, is, truthy-ne s (λ e. full (is ∙ e)))

  address_empty : (s : String) → truthy s ≡ false → P.is_address s ≡ true → ⊥
  address_empty String.[] empty good = absurd (cc (good, V.no_address))
  address_empty (String.◌∷◌ c s) empty good = absurd (cc)

  units_empty : (s : String) → 6 ≤ P.units s → truthy s ≡ true
  units_empty String.[] long = absurd (omega (arith, V.no_units))
  units_empty (String.◌∷◌ c s) long = refl

  address_truthy : (s : String) → P.is_address s ≡ true → truthy s ≡ true
  address_truthy s good = elim (Bool-cases (truthy s)) [
    | inl full ↦ full
    | inr empty ↦ absurd (address_empty s empty good)
  ]

  read_register-Registrable :
      (gs : Fields)
      → MeetsAll P register_dto gs
      → (b : RegisterBody) × (read_register gs ≡ some b) × Registrable P b
  unfolding read_register
  read_register-Registrable gs m =
      let (name, is_name, named) =
        required_text (get "name" gs) (m "name" _ (is_string, none) (inl refl) (inl refl))
          (m "name" _ (is_not_empty, some "Name is required") (inl refl) (inr (inl refl))) in
      let (email, is_mail, good) =
        m "email" _ (is_email, some "Invalid email address") (inr (inl refl)) (inl refl) in
      let (password, is_password, long) =
        m "password" _ (min_length 6, some "Password must be at least 6 characters long")
          (inr (inr (inl refl))) (inr (inl refl)) in
      (
        record { name = name; email = email; password = password },
        read_register_texts gs name email password is_name is_mail is_password,
        (named, address_truthy email good, good, long),
      )

  -- A login: an address and a password that is not empty.
  read_login_accepted :
      (gs : Fields)
      → MeetsAll P login_dto gs
      → (b : LoginBody) × (read_login gs ≡ some b)
        × (P.is_address b.email ≡ true)
        × (truthy b.password ≡ true)
  unfolding read_login
  read_login_accepted gs m =
      let (email, is_mail, good) =
        m "email" _ (is_email, some "Invalid email address") (inl refl) (inl refl) in
      let (password, is_password, given) =
        required_text (get "password" gs)
          (m "password" _ (is_string, none) (inr (inl refl)) (inl refl))
          (m "password" _ (is_not_empty, some "Password is required") (inr (inl refl))
            (inr (inl refl))) in
      (
        record { email = email; password = password },
        read_login_texts gs email password is_mail is_password,
        good,
        given,
      )

  read_task_accepted :
      (gs : Fields) (user_id : String)
      → MeetsAll P task_dto gs
      → truthy user_id ≡ true
      → (t : Task) × (task_document (read_task user_id gs) ≡ some t) × (t.user_id ≡ user_id)
  unfolding task_document
  read_task_accepted gs user_id m known =
      let (title, is_title, titled) =
        required_text (get "title" gs) (m "title" _ (is_string, none) (inl refl) (inl refl))
          (m "title" _ (is_not_empty, some "Task title is required") (inl refl) (inr (inl refl))) in
      let (description, is_description, described) =
        required_text (get "description" gs)
          (m "description" _ (is_string, none) (inr (inl refl)) (inl refl))
          (m "description" _ (is_not_empty, some "Task description is required") (inr (inl refl))
            (inr (inl refl))) in
      (
        record { title = title; description = description; user_id = user_id },
        read_task_texts gs title description user_id is_title is_description titled described known,
        refl,
      )

  -- What the pipe of the gateway accepts has the type that the handlers read, and the schemas of the
  -- databases cannot refuse it: an accepted registration is read as a name, an address and a password
  -- of at least six characters, and with any hash that is not empty it is a document of the schema of
  -- users; an accepted login is read as an address and a password that is not empty; and an accepted
  -- task is, for any user with an identifier, a document of the schema of tasks, for that user.
  pub validate_accepted :
      (registration registration' login login' task task' : Fields) (hash user_id : String)
      → P.validate gateway_options register_dto registration ≡ ok registration'
      → P.validate gateway_options login_dto login ≡ ok login'
      → P.validate gateway_options task_dto task ≡ ok task'
      → truthy hash ≡ true
      → truthy user_id ≡ true
      → ((b : RegisterBody) × (read_register registration' ≡ some b)
          × Registrable P b
          × (auth_document b.name b.email hash
              ≡ some (record { name = b.name; email = b.email; password = hash })))
        × ((b : LoginBody) × (read_login login' ≡ some b)
            × (P.is_address b.email ≡ true)
            × (truthy b.password ≡ true))
        × ((t : Task) × (task_document (read_task user_id task') ≡ some t) × (t.user_id ≡ user_id))
  unfolding auth_document
  validate_accepted registration registration' login login' task task' hash user_id p q r hashed
        known =
      let (b, read, good) =
        read_register-Registrable registration'
          (V.accepted register_dto registration registration' p) in
      (
        (b, read, good, rw (good.0, good.1, hashed) refl),
        read_login_accepted login' (V.accepted login_dto login login' q),
        read_task_accepted task' user_id (V.accepted task_dto task task' r) known,
      )

  -- A task is created for the user of the token and no other: an accepted body has no property but
  -- `title` and `description`, so that none of it can be taken for a user.
  pub validate-task_dto :
      (fs gs : Fields) (name : String)
      → P.validate gateway_options task_dto fs ≡ ok gs
      → get name fs ≢ undefined
      → (name ≡ "title") ⊎ (name ≡ "description")
  validate-task_dto fs gs name fine there = elim (V.declared task_dto fs gs name fine there) [
    | inl title ↦ inl title
    | inr (inl description) ↦ inr description
    | inr (inr none_left) ↦ absurd none_left
  ]
