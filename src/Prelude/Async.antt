-- ===== src/Prelude/Async.antt =====
-- Asynchronous code over the state of outside services: a computation returns a value or throws,
-- and leaves a state. `await` is a bind, `try … catch` is `try_catch`.
use Prim.Native.String.{String}
use mathlib.Core.Option.{Option, none, some}
use mathlib.Core.Path.{◌≡◌, refl, ap, fun_ext, subst}
use mathlib.Core.Logic.{◌⊎◌, inl, inr}
use Prim.Native.Nat.{ℕ}

-- A JavaScript value in a place where the code expects a status or an error code.
pub data Scalar : Type 0 where
  num : ℕ → Scalar
  str : String → Scalar

-- A thrown object, with the properties that the code reads of it. `none` is `undefined` or `null`.
pub record Error : Type 0 where
  pub name : Option String
  pub message : Option String
  pub details : Option String
  pub code : Option Scalar
  pub status : Option Scalar
  pub status_code : Option Scalar

pub data Result (A : Type 0) : Type 0 where
  ok : A → Result A
  err : Error → Result A

pub Result-cases :
    {A : Type 0} (r : Result A) → ((a : A) × (r ≡ ok a)) ⊎ ((e : Error) × (r ≡ err e))
Result-cases (ok a) = inl (a, refl)
Result-cases (err e) = inr (e, refl)

abbrev pub Promise : Type 0 → Type 0 → Type 0
Promise W A = W → Result A × W

-- What follows a call: one continuation for a value and one for an error.
abbrev pub after : {W A R : Type 0} → Result A × W → (A → W → R) → (Error → W → R) → R
after (ok a, w) f g = f a w
after (err e, w) f g = g e w

-- A property of what follows a call holds if it does on both paths.
pub after_ind {ℓ} :
    {W A R : Type 0} (P : R → Type ℓ) (r : Result A × W) (f : A → W → R) (g : Error → W → R)
    → ((a : A) → r.0 ≡ ok a → P (f a r.1))
    → ((e : Error) → r.0 ≡ err e → P (g e r.1))
    → P (after r f g)
after_ind P (ok a, w) f g p q = p a refl
after_ind P (err e, w) f g p q = q e refl

pub after-ok :
    {W A R : Type 0} (r : Result A × W) (f : A → W → R) (g : Error → W → R) {a : A}
    → r.0 ≡ ok a
    → after r f g ≡ f a r.1
after-ok (ok b, w) f g h = ap (λ r. after (r, w) f g) h
after-ok (err e, w) f g h = ap (λ r. after (r, w) f g) h

pub after-err :
    {W A R : Type 0} (r : Result A × W) (f : A → W → R) (g : Error → W → R) {e : Error}
    → r.0 ≡ err e
    → after r f g ≡ g e r.1
after-err (ok b, w) f g h = ap (λ r. after (r, w) f g) h
after-err (err e, w) f g h = ap (λ r. after (r, w) f g) h

-- What holds of a value with its state, and what of an error with its state.
abbrev pub Cases {ℓ} :
    {W A : Type 0} → (A → W → Type ℓ) → (Error → W → Type ℓ) → Result A × W → Type ℓ
Cases P Q (ok a, w) = P a w
Cases P Q (err e, w) = Q e w

pub Cases-ok {ℓ} :
    {W A : Type 0} (P : A → W → Type ℓ) (Q : Error → W → Type ℓ) (r : Result A × W) (a : A)
    → Cases P Q r
    → r.0 ≡ ok a
    → P a r.1
Cases-ok P Q (ok b, w) a h e = let same : b ≡ a = cc in subst (λ x. P x w) same h
Cases-ok P Q (err x, w) a h e = absurd (cc)

pub Cases-err {ℓ} :
    {W A : Type 0} (P : A → W → Type ℓ) (Q : Error → W → Type ℓ) (r : Result A × W) (x : Error)
    → Cases P Q r
    → r.0 ≡ err x
    → Q x r.1
Cases-err P Q (ok b, w) x h e = absurd (cc)
Cases-err P Q (err y, w) x h e = let same : y ≡ x = cc in subst (λ z. Q z w) same h

module _ {W : Type 0} where
  infixl 5 ◌>>=◌ ◌>>◌
  abbrev pub ◌>>=◌ : {A B : Type 0} → Promise W A → (A → Promise W B) → Promise W B
  ◌>>=◌ m f w = after (m w) f (λ e w'. (err e, w'))

  abbrev pub ◌>>◌ : {B : Type 0} → Promise W (Unit {0}) → Promise W B → Promise W B
  m >> k = m >>= λ _. k

  abbrev pub pure : {A : Type 0} → A → Promise W A
  pure a w = (ok a, w)

  abbrev pub throw : {A : Type 0} → Error → Promise W A
  throw e w = (err e, w)

  abbrev pub try_catch : {A : Type 0} → Promise W A → (Error → Promise W A) → Promise W A
  try_catch m handler w = after (m w) (λ a w'. (ok a, w')) handler

  -- `try … finally`: the last action runs on both paths, and its own error wins.
  abbrev pub finally : {A : Type 0} → Promise W A → Promise W (Unit {0}) → Promise W A
  finally m last w = after (last (m w).1) (λ _ w'. ((m w).0, w')) (λ e w'. (err e, w'))

module _ {W B : Type 0} where
  after-then :
      (r : Result (Unit {0}) × W) (n : Promise W (Unit {0})) (k : Promise W B)
      → after (after r (λ _. n) (λ e w. (err e, w))) (λ _. k) (λ e w. (err e, w))
        ≡ after r (λ _. n >> k) (λ e w. (err e, w))
  after-then (ok a, w) n k = refl
  after-then (err e, w) n k = refl

  pub then_assoc :
      (m n : Promise W (Unit {0})) (k : Promise W B) → ((m >> n) >> k) ≡ (m >> (n >> k))
  then_assoc m n k = fun_ext (λ w. after-then (m w) n k)

module _ {W : Type 0} where
  after-pure : (r : Result (Unit {0}) × W) → after r (λ _. pure tt) (λ e w. (err e, w)) ≡ r
  after-pure (ok a, w) = refl
  after-pure (err e, w) = refl

  pub then-pure : (m : Promise W (Unit {0})) → (m >> pure tt) ≡ m
  then-pure m = fun_ext (λ w. after-pure (m w))

-- An error made by `new Error(message)`.
abbrev pub new_error : String → Error
new_error m = record {
  name = some "Error";
  message = some m;
  details = none;
  code = none;
  status = none;
  status_code = none;
}

-- `new RpcException({ statusCode, message })`, as the thrower's error object.
abbrev pub rpc_exception : ℕ → String → Error
rpc_exception code message = record {
  name = some "RpcException";
  message = some message;
  details = none;
  code = none;
  status = none;
  status_code = some (num code);
}
