-- ===== src/Auth/Service/Crowd.antt =====
-- An auth service over a collection of any number of users, and two registrations at once.
use workflowhub.Prelude.{
  ◌≡◌, ◌≤◌, ◌<◌, ◌+◌, refl, ◌∙◌, sym, ap, inl, inr, ℕ, zero, suc, length, String, Bool-cases, false,
  Option, some, none, List, [], ◌∷◌, ◌++◌, arith, Document, lookup, ◌==◌, eq_iff, Error, Result, ok,
  err, new_error,
}
use workflowhub.Auth.{Auth}
use workflowhub.Auth.Service.{Backend, IsLawful, RegisterBody, by_email}
use workflowhub.Auth.Service.Register.{IsOpen, both_done, register_new_race}

-- The identifier of the user with a number, and the number of an identifier.
tag : ℕ → String
tag zero = "a"
tag (suc n) = String.◌∷◌ "a" (tag n)

size : String → ℕ
size String.[] = 0
size (String.◌∷◌ c s) = suc (size s)

size-tag : (n : ℕ) → size (tag n) ≡ suc n
unfolding size tag
size-tag zero = refl
size-tag (suc n) = ap suc (size-tag n)

tag_ne : (n m : ℕ) → n < m → (tag n == tag m) ≡ false
tag_ne n m less = elim (Bool-cases (tag n == tag m)) [
  | inr other ↦ other
  | inl same ↦
      let sizes : size (tag n) ≡ size (tag m) = ap size ((eq_iff (tag n) (tag m)).0 same) in
      absurd (omega (arith, size-tag n, size-tag m, sizes))
]

-- The users, numbered from a number on.
number_from : ℕ → List Auth → List (Document Auth)
unfolding tag
number_from k [] = []
number_from k (a ∷ s) = record { id = tag k; fields = a } ∷ number_from (k + 1) s

number_from-append :
    (k : ℕ) (s : List Auth) (a : Auth)
    → number_from k (s ++ a ∷ [])
      ≡ number_from k s ++ record { id = tag (k + length s); fields = a } ∷ []
unfolding number_from
number_from-append k [] a = let same : k + 0 ≡ k = omega arith in rw same refl
number_from-append k (b ∷ s) a =
    let same : (k + 1) + length s ≡ k + suc (length s) = omega arith in
    ap (λ ds. record { id = tag k; fields = b } ∷ ds)
      (number_from-append (k + 1) s a
        ∙ ap (λ n. number_from (k + 1) s ++ record { id = tag n; fields = a } ∷ []) same)

lookup-number_from :
    (n k : ℕ) (s : List Auth) → k + length s ≤ n → lookup (tag n) (number_from k s) ≡ none
unfolding number_from lookup
lookup-number_from n k [] h = refl
lookup-number_from n k (a ∷ s) h =
    rw (tag_ne k n (omega arith)) (lookup-number_from n (k + 1) s (omega arith))

abbrev user_at : Auth → List Auth → Document Auth
user_at a s = record { id = tag (0 + length s); fields = a }

abbrev insert : Option Auth → List Auth → Result (Document Auth) × List Auth
insert none s = (err (new_error "validation"), s)
insert (some a) s = (ok (user_at a s), s ++ a ∷ [])

abbrev crowd : Backend
crowd = record {
  State = List Auth;
  users = number_from 0;
  find_one = λ m s. (ok (by_email m (number_from 0 s)), s);
  create = insert;
  find_by_id_and_delete = λ i s. (ok none, s);
  hash = λ p s. (ok (String.◌∷◌ "#" p), s);
  compare = λ p h s. (ok (String.◌∷◌ "#" p == h), s);
  sign = λ p s. (err (new_error "key"), s);
}

create_ok :
    (o : Option Auth) (s : List Auth) (d : Document Auth)
    → (insert o s).0 ≡ ok d
    → (o ≡ some d.fields)
      × (number_from 0 (insert o s).1 ≡ number_from 0 s ++ d ∷ [])
      × (lookup d.id (number_from 0 s) ≡ none)
create_ok none s d e = absurd (cc)
create_ok (some a) s d e =
    let same : user_at a s ≡ d = cc in
    (
      ap (λ (x : Document Auth). some x.fields) same,
      number_from-append 0 s a ∙ ap (λ x. number_from 0 s ++ x ∷ []) same,
      ap (λ (x : Document Auth). lookup x.id (number_from 0 s)) (sym same)
          ∙ lookup-number_from (0 + length s) 0 s (omega arith),
    )

create_err :
    (o : Option Auth) (s : List Auth) (e : Error)
    → (insert o s).0 ≡ err e
    → number_from 0 (insert o s).1 ≡ number_from 0 s
create_err none s e h = refl
create_err (some a) s e h = absurd (cc)

crowd-IsLawful : IsLawful crowd
crowd-IsLawful = record {
  users-find_one = λ m s. refl;
  find_one_ok = λ m s r e. cc;
  users-hash = λ p s. refl;
  users-compare = λ p h s. refl;
  users-sign = λ p s. refl;
  create_ok = create_ok;
  create_err = create_err;
  compare-hash = λ p h s t b e f. ground (arith, eq_iff (String.◌∷◌ "#" p) h);
}

crowd-IsOpen : IsOpen crowd
crowd-IsOpen = record {
  find_one_works = λ m s. (by_email m (number_from 0 s), refl);
  hash_works = λ p s. (String.◌∷◌ "#" p, refl, refl);
  create_works = λ a s. (user_at a s, refl);
}

abbrev ann : RegisterBody
ann = record { name = "Ann"; email = "ann@mail.org"; password = "secret1" }

abbrev ben : RegisterBody
ben = record { name = "Ben"; email = "ann@mail.org"; password = "secret2" }

register_new_race_example :
    ((crowd.find_one "ann@mail.org" []).0 ≡ ok none)
    × ((crowd.find_one "ann@mail.org" []).0 ≡ ok none)
    × ((x : Document Auth) × (y : Document Auth) × (number_from 0
            (both_done crowd crowd-IsLawful crowd-IsOpen ann ben [])
          ≡ (number_from 0 [] ++ x ∷ []) ++ y ∷ [])
        × (x.fields.email ≡ "ann@mail.org")
        × (y.fields.email ≡ "ann@mail.org")
        × (lookup y.id (number_from 0 [] ++ x ∷ []) ≡ none))
unfolding number_from by_email
register_new_race_example =
    register_new_race crowd crowd-IsLawful crowd-IsOpen ann ben [] refl refl refl refl refl
