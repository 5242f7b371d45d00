-- ===== src/Auth/Service.antt =====
-- apps/auth-service/src/auth/auth.service.ts: registration, login and deletion over MongoDB, with
-- bcrypt and the signer of tokens as parameters.
pub mod Register
pub mod Tokens
mod Crowd
mod Tests
use workflowhub.Prelude.{
  ◌≡◌, ℕ, String, ◌<>◌, Bool, true, false, not, Option, some, none, List, [], ◌∷◌, ◌++◌, ◌==◌,
  Document, lookup, without, Error, Result, ok, err, Promise, ◌>>=◌, pure, throw, after,
  rpc_exception, if◌then◌else◌,
}
use workflowhub.Auth.{Auth, auth_document, JwtPayload}

-- The collection of users, bcrypt and the token service.
pub record Backend : Type 1 where
  pub State : Type 0
  pub users : State → List (Document Auth)
  pub find_one : String → Promise State (Option (Document Auth))
  pub create : Option Auth → Promise State (Document Auth)
  pub find_by_id_and_delete : String → Promise State (Option (Document Auth))
  pub hash : String → Promise State String
  pub compare : String → String → Promise State Bool
  pub sign : JwtPayload → Promise State String

pub record RegisterBody : Type 0 where
  pub name : String
  pub email : String
  pub password : String

pub record LoginBody : Type 0 where
  pub email : String
  pub password : String

pub record Registration : Type 0 where
  pub message : String
  pub user : Document Auth
  pub token : String

pub record LoginResponse : Type 0 where
  pub message : String
  pub token : String

pub record Deletion : Type 0 where
  pub message : String
  pub user : Document Auth

-- What is signed for a user.
abbrev pub payload_of : Document Auth → JwtPayload
payload_of user = record { id = user.id; email = user.fields.email }

module _ (B : Backend) where
  -- The part of `register` after the test for an existing user.
  pub register_new : RegisterBody → Promise B.State Registration
  register_new body = do
    hashed_password ← B.hash body.password
    user ← B.create (auth_document body.name body.email hashed_password)
    token ← B.sign (payload_of user)
    pure (record { message = "Registered Successfully"; user = user; token = token })

  pub register : RegisterBody → Promise B.State Registration
  unfolding register_new
  register body = do
    existing_user ← B.find_one body.email
    elim existing_user [
      | some user ↦ throw (rpc_exception 409 "User already exists")
      | none ↦ register_new body
    ]

  grant : Document Auth → Promise B.State LoginResponse
  grant user = do
    token ← B.sign (payload_of user)
    pure (record { message = "Login successful"; token = token })

  pub check_login : LoginBody → Document Auth → Promise B.State LoginResponse
  unfolding grant
  check_login body user = do
    check_password ← B.compare body.password user.fields.password
    if check_password then grant user else throw (rpc_exception 401 "Invalid credentials")

  pub login : LoginBody → Promise B.State LoginResponse
  unfolding check_login
  login body = do
    found ← B.find_one body.email
    elim found [
      | none ↦ throw (rpc_exception 404 "User does not exists")
      | some user ↦ check_login body user
    ]

  abbrev pub delete_user : String → Promise B.State Deletion
  delete_user user_id = do
    found ← B.find_by_id_and_delete user_id
    elim found [
      | none ↦ throw (rpc_exception 404 ("User with ID " <> user_id <> " not found for deletion"))
      | some user ↦ pure (record { message = "User deleted successfully"; user = user })
    ]

-- The first user with an address.
unfoldable pub by_email : String → List (Document Auth) → Option (Document Auth)
by_email m [] = none
by_email m (d ∷ ds) = if d.fields.email == m then some d else by_email m ds

-- What the service relies on: reads find the first match, a refused creation adds nothing, and a
-- password agrees with its own hash.
pub record IsLawful (B : Backend) : Type 0 where
  pub users-find_one : (m : String) (s : B.State) → B.users (B.find_one m s).1 ≡ B.users s
  pub find_one_ok :
      (m : String) (s : B.State) (r : Option (Document Auth))
      → (B.find_one m s).0 ≡ ok r
      → r ≡ by_email m (B.users s)
  pub users-hash : (p : String) (s : B.State) → B.users (B.hash p s).1 ≡ B.users s
  pub users-compare : (p h : String) (s : B.State) → B.users (B.compare p h s).1 ≡ B.users s
  pub users-sign : (p : JwtPayload) (s : B.State) → B.users (B.sign p s).1 ≡ B.users s
  pub create_ok :
      (a : Option Auth) (s : B.State) (d : Document Auth)
      → (B.create a s).0 ≡ ok d
      → (a ≡ some d.fields)
        × (B.users (B.create a s).1 ≡ B.users s ++ d ∷ [])
        × (lookup d.id (B.users s) ≡ none)
  pub create_err :
      (a : Option Auth) (s : B.State) (e : Error)
      → (B.create a s).0 ≡ err e
      → B.users (B.create a s).1 ≡ B.users s
  pub compare-hash :
      (p h : String) (s t : B.State) (b : Bool)
      → (B.hash p s).0 ≡ ok h
      → (B.compare p h t).0 ≡ ok b
      → b ≡ true
