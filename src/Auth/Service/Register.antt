-- ===== src/Auth/Service/Register.antt =====
-- What a registration does to the collection of users.
use workflowhub.Prelude.{
  ◌≡◌, refl, ◌≢◌, ◌∙◌, sym, ap, ap₂, truthy, true, Option, after-ok, ◌⊎◌, inl, inr, String, eq_iff,
  some, none, lookup, List, [], ◌∷◌, ◌++◌, arith, Document, Result, ok, err, after_ind, Cases,
  Option-cases, Member, Member-append_last,
}
use workflowhub.Auth.{Auth, auth_document}
use workflowhub.Auth.Service.{
  Backend, IsLawful, RegisterBody, Registration, payload_of, register_new, register, by_email,
}

module _ (B : Backend) (L : IsLawful B) (body : RegisterBody) (s : B.State) where
  -- One user more, with an identifier of its own and the name and the address of the request.
  pub record Added (w : B.State) : Type 0 where
    pub user : Document Auth
    pub name : user.fields.name ≡ body.name
    pub email : user.fields.email ≡ body.email
    pub users : B.users w ≡ B.users s ++ user ∷ []
    pub new : lookup user.id (B.users s) ≡ none

  -- A registration that returns has added the user that it returns, and one that throws has added
  -- one user or none.
  abbrev pub Registers : Result Registration × B.State → Type 0
  Registers =
      Cases (λ c w. (a : Added w) × (a.user ≡ c.user)) (λ e w. (B.users w ≡ B.users s) ⊎ Added w)

  same_fields :
      (h : String) (a : Auth)
      → auth_document body.name body.email h ≡ some a
      → (a.name ≡ body.name) × (a.email ≡ body.email)
  unfolding auth_document
  same_fields h a e = ground arith

  register_new-Registers : (v : B.State) → B.users v ≡ B.users s → Registers (register_new B body v)
  unfolding register_new
  register_new-Registers v same =
      let w = (B.hash body.password v).1 in
      let at_w : B.users w ≡ B.users s = L.users-hash body.password v ∙ same in
      after_ind Registers (B.hash body.password v) _ _
        (λ h _.
          let doc = auth_document body.name body.email h in
          after_ind Registers (B.create doc w) _ _
            (λ user e.
              let (fields, added, new) = L.create_ok doc w user e in
              let (name, email) = same_fields h user.fields fields in
              let x = (B.create doc w).1 in
              let a : Added (B.sign (payload_of user) x).1 = record {
                user = user;
                name = name;
                email = email;
                users = L.users-sign (payload_of user) x ∙ added ∙ ap (λ l. l ++ user ∷ []) at_w;
                new = ap (lookup user.id) (sym at_w) ∙ new;
              } in
              after_ind Registers (B.sign (payload_of user) x) _ _ (λ token _. (a, refl))
                (λ _ _. inr a))
            (λ error e. inl (L.create_err doc w error e ∙ at_w)))
        (λ _ _. inl at_w)

  -- In both cases there is at most one user more.
  added : (r : Result Registration × B.State) → Registers r → (B.users r.1 ≡ B.users s) ⊎ Added r.1
  added (ok c, w) h = inr h.0
  added (err e, w) h = h

  -- A registration that returns has added exactly the user that it returns, with a new identifier and
  -- the name and the address of the request. One that throws, whichever call failed, has added such a user or
  -- left the collection as it was.
  pub register-Registers : Registers (register B body s)
  unfolding register
  register-Registers =
      let same = L.users-find_one body.email s in
      after_ind Registers (B.find_one body.email s) _ _
        (λ found _. elim (Option-cases found) [
          | inl nobody ↦ rw nobody (register_new-Registers _ same)
          | inr (user, there) ↦ rw there (inl same)
        ])
        (λ _ _. inl same)

-- Where tokens can be signed for stored users, a registration that throws has added nothing.
module _ (B : Backend) (L : IsLawful B)
    (signs : (d : Document Auth) (w : B.State)
      → Member d (B.users w)
      → (k : String) × ((B.sign (payload_of d) w).0 ≡ ok k))
    (body : RegisterBody) (s : B.State) where
  abbrev Clean : Result Registration × B.State → Type 0
  Clean = Cases (λ c w. Unit {0}) (λ e w. B.users w ≡ B.users s)

  register_new-Clean : (v : B.State) → B.users v ≡ B.users s → Clean (register_new B body v)
  unfolding register_new
  register_new-Clean v same =
      let w = (B.hash body.password v).1 in
      let at_w : B.users w ≡ B.users s = L.users-hash body.password v ∙ same in
      after_ind Clean (B.hash body.password v) _ _
        (λ h _.
          let doc = auth_document body.name body.email h in
          after_ind Clean (B.create doc w) _ _
            (λ user e.
              let x = (B.create doc w).1 in
              let stored : Member user (B.users x) =
                rw (L.create_ok doc w user e).1 (Member-append_last user (B.users w)) in
              let (k, signed) = signs user x stored in
              after_ind Clean (B.sign (payload_of user) x) _ _ (λ token _. tt)
                (λ error refused. absurd (cc)))
            (λ error e. L.create_err doc w error e ∙ at_w))
        (λ _ _. at_w)

  pub register-Clean : Clean (register B body s)
  unfolding register
  register-Clean =
      let same = L.users-find_one body.email s in
      after_ind Clean (B.find_one body.email s) _ _
        (λ found _. elim (Option-cases found) [
          | inl nobody ↦ rw nobody (register_new-Clean _ same)
          | inr (user, there) ↦ rw there same
        ])
        (λ _ _. same)

-- No two users have one address.
abbrev pub IsUnique : List (Document Auth) → Type 0
IsUnique [] = Unit
IsUnique (d ∷ ds) = (by_email d.fields.email ds ≡ none) × IsUnique ds

by_email-append :
    (m : String) (ds : List (Document Auth)) (d : Document Auth)
    → by_email m ds ≡ none
    → d.fields.email ≢ m
    → by_email m (ds ++ d ∷ []) ≡ none
unfolding by_email
by_email-append m [] d h n = ground (arith, eq_iff d.fields.email m)
by_email-append m (x ∷ ds) d h n = ground (arith, by_email-append m ds d)

IsUnique-append :
    (ds : List (Document Auth)) (d : Document Auth)
    → IsUnique ds
    → by_email d.fields.email ds ≡ none
    → IsUnique (ds ++ d ∷ [])
unfolding by_email
IsUnique-append [] d u h = (refl, tt)
IsUnique-append (x ∷ ds) d (fresh, u) h =
    let apart : d.fields.email ≢ x.fields.email =
      λ e. ground (arith, eq_iff x.fields.email d.fields.email) in
    (by_email-append x.fields.email ds d fresh apart, IsUnique-append ds d u (ground arith))

module _ (B : Backend) (L : IsLawful B) (body : RegisterBody) (s : B.State) where
  -- One registration at a time keeps the addresses of the users distinct, whichever calls fail.
  pub register-IsUnique : IsUnique (B.users s) → IsUnique (B.users (register B body s).1)
  unfolding register
  register-IsUnique u =
      let same = L.users-find_one body.email s in
      after_ind (λ (r : Result Registration × B.State). IsUnique (B.users r.1))
        (B.find_one body.email s) _ _
        (λ found answered. elim (Option-cases found) [
          | inl nobody ↦
              rw nobody (elim (added B L body s _ (register_new-Registers B L body s _ same)) [
                | inl none_added ↦ rw none_added u
                | inr a ↦ rw a.users (
                    IsUnique-append (B.users s) a.user u
                      (rw a.email (sym (L.find_one_ok body.email s found answered) ∙ nobody)))
              ])
          | inr (user, there) ↦ rw (there, same) u
        ])
        (λ _ _. rw same u)

-- The database and bcrypt answer, and a document that the schema allows is created whatever users there
-- are: the schema has no unique index.
pub record IsOpen (B : Backend) : Type 0 where
  pub find_one_works :
      (m : String) (s : B.State) → (r : Option (Document Auth)) × ((B.find_one m s).0 ≡ ok r)
  pub hash_works :
      (p : String) (s : B.State) → (h : String) × (truthy h ≡ true) × ((B.hash p s).0 ≡ ok h)
  pub create_works :
      (a : Auth) (s : B.State) → (d : Document Auth) × ((B.create (some a) s).0 ≡ ok d)

module _ (B : Backend) (L : IsLawful B) (O : IsOpen B) where
  -- After the test a registration adds a user, whatever users there are.
  register_new-Added :
      (body : RegisterBody) (s : B.State)
      → truthy body.name ≡ true
      → truthy body.email ≡ true
      → Added B L body s (register_new B body s).1
  unfolding register_new auth_document
  register_new-Added body s named mailed =
      let (h, full, hashed) = O.hash_works body.password s in
      let w = (B.hash body.password s).1 in
      let at_w : B.users w ≡ B.users s = L.users-hash body.password s in
      let a : Auth = record { name = body.name; email = body.email; password = h } in
      let doc : auth_document body.name body.email h ≡ some a = rw (named, mailed, full) refl in
      let (user, e) = O.create_works a w in
      let x = (B.create (some a) w).1 in
      let (fields, stored, new) = L.create_ok (some a) w user e in
      let same : user.fields ≡ a = cc in
      let made : Added B L body s (B.sign (payload_of user) x).1 = record {
        user = user;
        name = ap (λ (b : Auth). b.name) same;
        email = ap (λ (b : Auth). b.email) same;
        users = L.users-sign (payload_of user) x ∙ stored ∙ ap (λ l. l ++ user ∷ []) at_w;
        new = ap (lookup user.id) (sym at_w) ∙ new;
      } in
      rw (after-ok (B.hash body.password s) _ _ hashed, doc)
        (rw (after-ok (B.create (some a) w) _ _ e) (
          after_ind (λ (r : Result Registration × B.State). Added B L body s r.1)
            (B.sign (payload_of user) x) _ _ (λ _ _. made) (λ _ _. made)))

  -- What two registrations do whose tests both come before either creates its user.
  module _ (body other : RegisterBody) (s : B.State) where
    abbrev pub tested : B.State
    tested = (B.find_one body.email s).1

    abbrev pub both_tested : B.State
    both_tested = (B.find_one other.email tested).1

    abbrev pub first_done : B.State
    first_done = (register_new B body both_tested).1

    abbrev pub both_done : B.State
    both_done = (register_new B other first_done).1

    tested_none :
        (m : String) (w : B.State) → by_email m (B.users w) ≡ none → (B.find_one m w).0 ≡ ok none
    tested_none m w free =
        let (r, answered) = O.find_one_works m w in
        answered ∙ ap ok (L.find_one_ok m w r answered ∙ free)

    -- Two registrations of one free address, with names that are not empty, may both test it before either
    -- of them creates its user. Then both tests find nobody, and the collection ends with two users
    -- more, of that address and with two identifiers: nothing but the test keeps addresses distinct.
    pub register_new_race :
        other.email ≡ body.email
        → truthy body.name ≡ true
        → truthy other.name ≡ true
        → truthy body.email ≡ true
        → by_email body.email (B.users s) ≡ none
        → ((B.find_one body.email s).0 ≡ ok none)
          × ((B.find_one other.email tested).0 ≡ ok none)
          × ((x : Document Auth) × (y : Document Auth) × (B.users both_done
                ≡ (B.users s ++ x ∷ []) ++ y ∷ [])
              × (x.fields.email ≡ body.email)
              × (y.fields.email ≡ body.email)
              × (lookup y.id (B.users s ++ x ∷ []) ≡ none))
    register_new_race same named named' mailed free =
        let mailed' : truthy other.email ≡ true = ap truthy same ∙ mailed in
        let kept : B.users tested ≡ B.users s = L.users-find_one body.email s in
        let kept' : B.users both_tested ≡ B.users s = L.users-find_one other.email tested ∙ kept in
        let first = register_new-Added body both_tested named mailed in
        let second = register_new-Added other first_done named' mailed' in
        let one : B.users first_done ≡ B.users s ++ first.user ∷ [] =
          first.users ∙ ap (λ l. l ++ first.user ∷ []) kept' in
        (
          tested_none body.email s free,
          tested_none other.email tested (ap₂ by_email same kept ∙ free),
          (
            first.user,
            second.user,
            second.users ∙ ap (λ l. l ++ second.user ∷ []) one,
            first.email,
            second.email ∙ same,
            ap (lookup second.user.id) (sym one) ∙ second.new,
          ),
        )
