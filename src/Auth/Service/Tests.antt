-- ===== src/Auth/Service/Tests.antt =====
-- An auth service over a collection of at most one user, and the theorems at runs of it.
use workflowhub.Prelude.{
  ◌≡◌, ◌<◌, ◌+◌, ℕ, nat_beq, ltb, true, refl, ap, sym, String, ◌<>◌, ◌==◌, eq_iff, Option, some,
  none, List, [], ◌∷◌, ◌++◌, arith, Document, lookup, Error, Result, ok, err, new_error,
  if◌then◌else◌, Bool-cases, inl, inr,
}
use workflowhub.Auth.{Auth, auth_document, JwtPayload}
use workflowhub.Auth.Guard.{can_activate}
use workflowhub.Auth.Session.{can_activate-login}
use workflowhub.Auth.Service.{
  Backend, IsLawful, RegisterBody, LoginResponse, Registration, register, login, by_email,
}
use workflowhub.Auth.Service.Register.{Registers, register-Registers, IsUnique, register-IsUnique}
use workflowhub.Auth.Service.Tokens.{IsHealthy, SignsWith, login-register}
use workflowhub.Auth.Jwt.{JwtService, JwtOptions, jwt_options, IsSigner}
use workflowhub.Settings.{Lookup}

abbrev id_for : List (Document Auth) → String
id_for [] = "a0"
id_for (x ∷ []) = "a1"
id_for _ = "full"

-- At most two users, with identifiers of their own.
abbrev insert : Option Auth → List (Document Auth) → Result (Document Auth) × List (Document Auth)
insert none users = (err (new_error "validation"), users)
insert (some a) [] = let d : Document Auth = record { id = "a0"; fields = a } in (ok d, d ∷ [])
insert (some a) (x ∷ []) =
    let d : Document Auth = record { id = "a1"; fields = a } in
    if x.id == "a1" then (err (new_error "full"), x ∷ []) else (ok d, x ∷ d ∷ [])
insert (some a) (x ∷ y ∷ users) = (err (new_error "full"), x ∷ y ∷ users)

abbrev payload_at : String → JwtPayload
payload_at i = record { id = i; email = "ann@mail.org" }

-- The token of one of the two users, at one address.
abbrev token_for : JwtPayload → Option String
token_for p =
    if p.email == "ann@mail.org"
    then (if p.id == "a0" then some "token" else if p.id == "a1" then some "token1" else none)
    else none

abbrev signed : Option String → List (Document Auth) → Result String × List (Document Auth)
signed none s = (err (new_error "key"), s)
signed (some k) s = (ok k, s)

-- A hash is the password behind a mark.
abbrev memory : Backend
memory = record {
  State = List (Document Auth);
  users = λ s. s;
  find_one = λ m s. (ok (by_email m s), s);
  create = insert;
  find_by_id_and_delete = λ i s. (ok none, s);
  hash = λ p s. (ok ("#" <> p), s);
  compare = λ p h s. (ok (("#" <> p) == h), s);
  sign = λ p s. signed (token_for p) s;
}

-- Tokens that are signed at the time 0, and read until a day later.
abbrev read_token : String → Result JwtPayload
read_token k =
    if k == "token"
    then ok (payload_at "a0")
    else if k == "token1"
    then ok (payload_at "a1")
    else err (new_error "invalid")

abbrev jwt : JwtService
jwt = record {
  State = ℕ;
  now = λ n. n;
  seconds = λ text. 86400;
  sign_with = λ o p n.
      if nat_beq n 0 then ((signed (token_for p) []).0, n) else (err (new_error "late"), n);
  verify_with = λ o k n. if ltb n 86400 then read_token k else err (new_error "jwt expired");
}

abbrev config : Lookup
config name = some "secret"

create_ok :
    (a : Option Auth) (s : List (Document Auth)) (d : Document Auth)
    → (insert a s).0 ≡ ok d
    → (a ≡ some d.fields) × ((insert a s).1 ≡ s ++ d ∷ []) × (lookup d.id s ≡ none)
unfolding lookup
create_ok none s d e = absurd (cc)
create_ok (some a) [] d e = ground arith
create_ok (some a) (x ∷ []) d e = ground (arith, eq_iff x.id "a1")
create_ok (some a) (x ∷ y ∷ s) d e = absurd (cc)

create_err :
    (a : Option Auth) (s : List (Document Auth)) (e : Error)
    → (insert a s).0 ≡ err e
    → (insert a s).1 ≡ s
create_err none s e h = refl
create_err (some a) [] e h = absurd (cc)
create_err (some a) (x ∷ []) e h = ground arith
create_err (some a) (x ∷ y ∷ s) e h = refl

read_token-token_for :
    (p : JwtPayload) (k : String) → (signed (token_for p) []).0 ≡ ok k → read_token k ≡ ok p
read_token-token_for p k e = elim (Bool-cases (p.email == "ann@mail.org")) [
  | inl mail ↦
      let email : p.email ≡ "ann@mail.org" = (eq_iff p.email "ann@mail.org").0 mail in
      elim (Bool-cases (p.id == "a0")) [
        | inl first ↦
            let token : k ≡ "token" = ground arith in
            let same : p.id ≡ "a0" = (eq_iff p.id "a0").0 first in
            rw token (λ i. ok (record { id = sym same i; email = sym email i }))
        | inr later ↦ elim (Bool-cases (p.id == "a1")) [
          | inl second ↦
              let token : k ≡ "token1" = ground arith in
              let same : p.id ≡ "a1" = (eq_iff p.id "a1").0 second in
              rw token (λ i. ok (record { id = sym same i; email = sym email i }))
          | inr neither ↦ absurd (ground arith)
        ]
      ]
  | inr other ↦ absurd (ground arith)
]

memory-IsLawful : IsLawful memory
memory-IsLawful = record {
  users-find_one = λ m s. refl;
  find_one_ok = λ m s r e. cc;
  users-hash = λ p s. refl;
  users-compare = λ p h s. refl;
  users-sign = λ p s. ground arith;
  create_ok = create_ok;
  create_err = create_err;
  compare-hash = λ p h s t b e f. ground (arith, eq_iff ("#" <> p) h);
}

jwt_signed :
    (o : JwtOptions) (p : JwtPayload) (k : String) (s t : ℕ)
    → (jwt.sign_with o p s).0 ≡ ok k
    → t < s + 86400
    → jwt.verify_with o k t ≡ ok p
jwt_signed o p k s t e young = elim (Bool-cases (nat_beq s 0)) [
  | inl start ↦
      let here : (signed (token_for p) []).0 ≡ ok k = ground arith in
      let soon : ltb t 86400 ≡ true = ground arith in rw soon (read_token-token_for p k here)
  | inr later ↦ absurd (ground arith)
]

jwt-IsSigner : IsSigner jwt
jwt-IsSigner = record { a_day = refl; verify_signed = jwt_signed }

memory-SignsWith : SignsWith memory jwt config
memory-SignsWith = record {
  clock = λ s. 0;
  signs = λ p s. ground arith;
  later_find_one = λ m s. omega arith;
  later_hash = λ p s. omega arith;
  later_create = λ a s. omega arith;
  later_compare = λ p h s. omega arith;
  later_sign = λ p s. omega arith;
}

abbrev ann : RegisterBody
ann = record { name = "Ann"; email = "ann@mail.org"; password = "secret1" }

abbrev ann_stored : Document Auth
ann_stored = record {
  id = "a0";
  fields = record { name = "Ann"; email = "ann@mail.org"; password = "#secret1" };
}

abbrev ann_registered : Registration
ann_registered = record { message = "Registered Successfully"; user = ann_stored; token = "token" }

ann_ok : register memory ann [] ≡ (ok ann_registered, ann_stored ∷ [])
unfolding register by_email auth_document
ann_ok = refl

ann-IsHealthy : IsHealthy memory ann_stored
ann-IsHealthy = record {
  find_one_works = λ m s. (by_email m s, refl);
  compare_works = λ p h s. (("#" <> p) == h, refl);
  sign_works = λ s. ("token", refl);
}

register-Registers_example : Registers memory memory-IsLawful ann [] (register memory ann [])
register-Registers_example = register-Registers memory memory-IsLawful ann []

register-IsUnique_example : IsUnique (register memory ann (ann_stored ∷ [])).1
unfolding by_email
register-IsUnique_example =
    register-IsUnique memory memory-IsLawful ann (ann_stored ∷ []) (refl, tt)

can_activate-login_example :
    can_activate (λ k. jwt.verify_with (jwt_options config) k 3600) (some "Bearer token")
    ≡ ok (payload_at "a0")
unfolding register login by_email auth_document
can_activate-login_example =
    can_activate-login memory memory-IsLawful jwt jwt-IsSigner config memory-SignsWith ann []
      ann_registered (record { message = "Login successful"; token = "token" }) config 3600 " "
      "Bearer" ann-IsHealthy refl refl refl (omega arith) refl (omega arith) refl (omega arith) refl

login-register_example :
    (l : LoginResponse) × ((login memory
        (record { email = "ann@mail.org"; password = "secret1" })
        (register memory ann []).1).0
      ≡ ok l)
    × (jwt.verify_with (jwt_options config) l.token 3600 ≡ ok (payload_at "a0"))
    × (jwt.verify_with (jwt_options config) "token" 3600 ≡ ok (payload_at "a0"))
login-register_example =
    login-register memory memory-IsLawful jwt jwt-IsSigner config memory-SignsWith ann []
      ann_registered config 3600 ann-IsHealthy refl
      (ap (λ (r : Result Registration × List (Document Auth)). r.0) ann_ok) (omega arith)
