-- ===== src/Auth/Service/Tokens.antt =====
-- Registration, then login: the tokens belong to the user.
use workflowhub.Prelude.{
  ◌≡◌, ◌≤◌, ◌<◌, ◌+◌, ℕ, refl, ◌∙◌, sym, ap, String, Bool, true, false, eq_iff, Option, some, none,
  List, [], ◌∷◌, ◌++◌, arith, Document, Result, ok, err, after_ind, after-ok, rpc_exception,
  Option-cases, inl, inr,
}
use workflowhub.Auth.{Auth, auth_document, JwtPayload}
use workflowhub.Auth.Jwt.{JwtService, IsSigner, sign, verify, verify-sign}
use workflowhub.Settings.{Lookup}
use workflowhub.Auth.Service.{
  Backend, IsLawful, RegisterBody, LoginBody, Registration, LoginResponse, payload_of, register_new,
  register, grant, check_login, login, by_email,
}

-- The database, bcrypt and the signer answer every call that the login of a user makes.
pub record IsHealthy (B : Backend) (user : Document Auth) : Type 0 where
  pub find_one_works :
      (m : String) (s : B.State) → (r : Option (Document Auth)) × ((B.find_one m s).0 ≡ ok r)
  pub compare_works : (p h : String) (s : B.State) → (b : Bool) × ((B.compare p h s).0 ≡ ok b)
  pub sign_works : (s : B.State) → (k : String) × ((B.sign (payload_of user) s).0 ≡ ok k)

by_email-append_new :
    (m : String) (ds : List (Document Auth)) (d : Document Auth)
    → by_email m ds ≡ none
    → d.fields.email ≡ m
    → by_email m (ds ++ d ∷ []) ≡ some d
unfolding by_email
by_email-append_new m [] d h e = ground (arith, eq_iff d.fields.email m)
by_email-append_new m (x ∷ ds) d h e = ground (arith, by_email-append_new m ds d)

-- The signer of the service is that of the module of tokens, under a setting and at a clock that no
-- call sets back.
pub record SignsWith (B : Backend) (J : JwtService) (config : Lookup) : Type 0 where
  pub clock : B.State → J.State
  pub signs : (p : JwtPayload) (s : B.State) → (B.sign p s).0 ≡ (sign J config p (clock s)).0
  pub later_find_one :
      (m : String) (s : B.State) → J.now (clock s) ≤ J.now (clock (B.find_one m s).1)
  pub later_hash : (p : String) (s : B.State) → J.now (clock s) ≤ J.now (clock (B.hash p s).1)
  pub later_create :
      (a : Option Auth) (s : B.State) → J.now (clock s) ≤ J.now (clock (B.create a s).1)
  pub later_compare :
      (p h : String) (s : B.State) → J.now (clock s) ≤ J.now (clock (B.compare p h s).1)
  pub later_sign : (p : JwtPayload) (s : B.State) → J.now (clock s) ≤ J.now (clock (B.sign p s).1)

abbrev pub credentials : RegisterBody → LoginBody
credentials body = record { email = body.email; password = body.password }

module _ (B : Backend) (L : IsLawful B) (J : JwtService) (I : IsSigner J) (config : Lookup)
    (K : SignsWith B J config) (body : RegisterBody) (s : B.State) where
  -- The time, in seconds.
  abbrev time : B.State → ℕ
  time w = J.now (K.clock w)

  -- What is known of a user after the registration that returned it.
  pub record Stored (c : Registration) (w : B.State) : Type 0 where
    pub hashed_at : B.State
    pub signed_at : B.State
    pub hashed : (B.hash body.password hashed_at).0 ≡ ok c.user.fields.password
    pub signed : (B.sign (payload_of c.user) signed_at).0 ≡ ok c.token
    pub signed_later : time s ≤ time signed_at
    pub ended_later : time s ≤ time w
    pub email : c.user.fields.email ≡ body.email
    pub found : by_email body.email (B.users w) ≡ some c.user

  document_fields :
      (h : String) (a : Auth)
      → auth_document body.name body.email h ≡ some a
      → (a.email ≡ body.email) × (a.password ≡ h)
  unfolding auth_document
  document_fields h a e = ground arith

  register_new-Stored :
      (c : Registration) (v : B.State)
      → time s ≤ time v
      → by_email body.email (B.users v) ≡ none
      → (register_new B body v).0 ≡ ok c
      → Stored c (register_new B body v).1
  unfolding register_new
  register_new-Stored c v late new =
      let w = (B.hash body.password v).1 in
      after_ind (λ (r : Result Registration × B.State). r.0 ≡ ok c → Stored c r.1)
        (B.hash body.password v) _ _
        (λ h hashed.
          let doc = auth_document body.name body.email h in
          let x = (B.create doc w).1 in
          after_ind (λ (r : Result Registration × B.State). r.0 ≡ ok c → Stored c r.1)
            (B.create doc w) _ _
            (λ user e.
              let (fields, added, _) = L.create_ok doc w user e in
              let (email, password) = document_fields h user.fields fields in
              after_ind (λ (r : Result Registration × B.State). r.0 ≡ ok c → Stored c r.1)
                (B.sign (payload_of user) x) _ _
                (λ token signed q.
                  let same_user : user ≡ c.user = cc in
                  let same_token : token ≡ c.token = cc in
                  record {
                    hashed_at = v;
                    signed_at = x;
                    hashed =
                        hashed
                        ∙ ap ok (
                            sym password ∙ ap (λ (d : Document Auth). d.fields.password) same_user);
                    signed =
                        ap (λ u. (B.sign (payload_of u) x).0) (sym same_user)
                        ∙ signed
                        ∙ ap ok same_token;
                    signed_later =
                        omega (arith, K.later_hash body.password v, K.later_create doc w);
                    ended_later = omega (
                      arith,
                      K.later_hash body.password v,
                      K.later_create doc w,
                      K.later_sign (payload_of user) x,
                    );
                    email = ap (λ (d : Document Auth). d.fields.email) (sym same_user) ∙ email;
                    found =
                        ap (by_email body.email) (L.users-sign (payload_of user) x ∙ added)
                        ∙ by_email-append_new body.email (B.users w) user
                            (ap (by_email body.email) (L.users-hash body.password v) ∙ new) email
                        ∙ ap some same_user;
                  })
                (λ _ _ q. absurd (cc)))
            (λ _ _ q. absurd (cc)))
        (λ _ _ q. absurd (cc))

  pub register-Stored :
      (c : Registration) → (register B body s).0 ≡ ok c → Stored c (register B body s).1
  unfolding register
  register-Stored c =
      after_ind (λ (r : Result Registration × B.State). r.0 ≡ ok c → Stored c r.1)
        (B.find_one body.email s) _ _
        (λ found answered. elim (Option-cases found) [
          | inl nobody ↦ rw nobody (
              register_new-Stored c _ (K.later_find_one body.email s) (
                ap (by_email body.email) (L.users-find_one body.email s)
                ∙ sym (L.find_one_ok body.email s found answered)
                ∙ nobody))
          | inr (user, there) ↦ rw there (λ q. absurd (cc))
        ])
        (λ _ _ q. absurd (cc))

  -- If a registration returns a user, and the services answer, then a login with the same address and
  -- password succeeds; and a process with the same secret reads the user's identifier and address
  -- from its token and from that of the registration, for a day from the start of the registration.
  pub login-register :
      (c : Registration) (reader : Lookup) (t : J.State)
      → IsHealthy B c.user
      → config "JWT_SECRET" ≡ reader "JWT_SECRET"
      → (register B body s).0 ≡ ok c
      → J.now t < time s + 86400
      → (l : LoginResponse) × ((login B (credentials body) (register B body s).1).0 ≡ ok l)
        × (verify J reader l.token t ≡ ok (payload_of c.user))
        × (verify J reader c.token t ≡ ok (payload_of c.user))
  unfolding login check_login grant
  login-register c reader t H one registered young =
      let k = register-Stored c registered in
      let w = (register B body s).1 in
      let (r, answered) = H.find_one_works body.email w in
      let there : r ≡ some c.user = L.find_one_ok body.email w r answered ∙ k.found in
      let v = (B.find_one body.email w).1 in
      let h = c.user.fields.password in
      let (b, compared) = H.compare_works body.password h v in
      let same : b ≡ true = L.compare-hash body.password h k.hashed_at v b k.hashed compared in
      let x = (B.compare body.password h v).1 in
      let (token, signed) = H.sign_works x in
      (
        record { message = "Login successful"; token = token },
        rw (after-ok (B.find_one body.email w) _ _ answered, there)
            (rw (after-ok (B.compare body.password h v) _ _ compared, same)
              (ap (λ (r : Result LoginResponse × B.State). r.0)
                (after-ok (B.sign (payload_of c.user) x) _ _ signed))),
        verify-sign J I config reader (payload_of c.user) token (K.clock x) t one
            (sym (K.signs (payload_of c.user) x) ∙ signed)
            (omega (
              arith,
              k.ended_later,
              K.later_find_one body.email w,
              K.later_compare body.password h v,
            )),
        verify-sign J I config reader (payload_of c.user) c.token (K.clock k.signed_at) t one
            (sym (K.signs (payload_of c.user) k.signed_at) ∙ k.signed)
            (omega (arith, k.signed_later)),
      )

module _ (B : Backend) (L : IsLawful B) (body : LoginBody) (s : B.State) where
  abbrev pub asked : B.State
  asked = (B.find_one body.email s).1

  -- A login with an address that no user has is refused with the status 404, if the database answers,
  -- and leaves the users as they were.
  pub login_unknown :
      (r : Option (Document Auth))
      → (B.find_one body.email s).0 ≡ ok r
      → by_email body.email (B.users s) ≡ none
      → ((login B body s).0 ≡ err (rpc_exception 404 "User does not exists"))
        × (B.users (login B body s).1 ≡ B.users s)
  unfolding login
  login_unknown r answered missing =
      let nobody : r ≡ none = L.find_one_ok body.email s r answered ∙ missing in
      rw (after-ok (B.find_one body.email s) _ _ answered, nobody)
        (refl, L.users-find_one body.email s)

  -- A login with a password that bcrypt does not accept for the user of the address is refused with
  -- the status 401, and leaves the users as they were.
  pub login_wrong_password :
      (r : Option (Document Auth)) (user : Document Auth)
      → (B.find_one body.email s).0 ≡ ok r
      → by_email body.email (B.users s) ≡ some user
      → (B.compare body.password user.fields.password asked).0 ≡ ok false
      → ((login B body s).0 ≡ err (rpc_exception 401 "Invalid credentials"))
        × (B.users (login B body s).1 ≡ B.users s)
  unfolding login check_login
  login_wrong_password r user answered there refused =
      let someone : r ≡ some user = L.find_one_ok body.email s r answered ∙ there in
      rw (after-ok (B.find_one body.email s) _ _ answered, someone)
        (rw (after-ok (B.compare body.password user.fields.password asked) _ _ refused) (
          refl,
          L.users-compare body.password user.fields.password asked ∙ L.users-find_one body.email s,
        ))
