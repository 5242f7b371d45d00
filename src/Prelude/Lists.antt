-- ===== src/Prelude/Lists.antt =====
-- Lists measured by native numbers, membership, and documents kept by identifier.
use Prim.Native.Nat.{ℕ, zero, suc, ◌+◌}
use Prim.Native.String.{String}
use mathlib.Core.Path.{◌≡◌, refl, subst}
use mathlib.Core.Logic.{◌⊎◌, inl, inr}
use mathlib.Core.Bool.{Bool, true, false}
use mathlib.Core.Option.{Option, none, some}
use mathlib.Core.List.{List, [], ◌∷◌, ◌++◌}
use native.Mathlib.Omega.{arith}
use text.Mathlib.Text.{◌==◌}
use text.Mathlib.TextEquality.{eq_iff}
use workflowhub.Prelude.Tests.{if◌then◌else◌, Bool-cases}

module _ {ℓ} {A : Type ℓ} where
  abbrev pub length : List A → ℕ
  length [] = 0
  length (x ∷ xs) = suc (length xs)

  unfoldable pub take : ℕ → List A → List A
  take zero xs = []
  take (suc n) [] = []
  take (suc n) (x ∷ xs) = x ∷ take n xs

  pub length-append : (xs ys : List A) → length (xs ++ ys) ≡ length xs + length ys
  length-append [] ys = omega arith
  length-append (x ∷ xs) ys = omega (arith, length-append xs ys)

module _ {A : Type 0} where
  abbrev pub Member : A → List A → Type 0
  Member a [] = ⊥
  Member a (x ∷ xs) = (a ≡ x) ⊎ Member a xs

  pub Member-append_left : (a : A) (xs ys : List A) → Member a xs → Member a (xs ++ ys)
  Member-append_left a [] ys m = absurd m
  Member-append_left a (x ∷ xs) ys (inl e) = inl e
  Member-append_left a (x ∷ xs) ys (inr m) = inr (Member-append_left a xs ys m)

  pub Member-append_last : (a : A) (xs : List A) → Member a (xs ++ a ∷ [])
  Member-append_last a [] = inl refl
  Member-append_last a (x ∷ xs) = inr (Member-append_last a xs)

-- A property of both branches holds of a conditional.
pub if_ind {ℓ κ} :
    {A : Type ℓ} (P : A → Type κ) (b : Bool) {x y : A} → P x → P y → P (if b then x else y)
if_ind P true p q = p
if_ind P false p q = q

module _ {ℓ κ} {A : Type ℓ} (P : A → Type κ) where
  abbrev pub All : List A → Type κ
  All [] = Unit
  All (x ∷ xs) = P x × All xs

module _ {ℓ κ ι} {A : Type ℓ} {P : A → Type κ} {Q : A → Type ι} where
  pub All-map : ((a : A) → P a → Q a) → (xs : List A) → All P xs → All Q xs
  All-map f [] h = tt
  All-map f (x ∷ xs) (p, h) = (f x p, All-map f xs h)

module _ {ℓ κ ι υ} {A : Type ℓ} {P : A → Type κ} {Q : A → Type ι} {R : A → Type υ} where
  pub All-both : ((a : A) → P a → Q a → R a) → (xs : List A) → All P xs → All Q xs → All R xs
  All-both f [] p q = tt
  All-both f (x ∷ xs) (p, ps) (q, qs) = (f x p q, All-both f xs ps qs)

-- A MongoDB document: its `_id`, as text, and its fields.
pub record Document (D : Type 0) : Type 0 where
  pub id : String
  pub fields : D

module _ {D : Type 0} where
  -- The document with an identifier, as `findById` reads it.
  unfoldable pub lookup : String → List (Document D) → Option D
  lookup i [] = none
  lookup i (d ∷ ds) = if d.id == i then some d.fields else lookup i ds

  -- `save` on a document that was read: the stored fields are replaced.
  unfoldable pub put : Document D → List (Document D) → List (Document D)
  put d [] = []
  put d (x ∷ xs) = if x.id == d.id then d ∷ put d xs else x ∷ put d xs

  -- The collection without a document.
  unfoldable pub without : String → List (Document D) → List (Document D)
  without i [] = []
  without i (x ∷ xs) = if x.id == i then without i xs else x ∷ without i xs

  pub lookup-put_ne :
      (d : Document D) (i : String) (ds : List (Document D))
      → (d.id == i) ≡ false
      → lookup i (put d ds) ≡ lookup i ds
  unfolding lookup put
  lookup-put_ne d i [] h = refl
  lookup-put_ne d i (x ∷ xs) h =
      ground (arith, eq_iff x.id d.id, eq_iff d.id i, eq_iff x.id i, lookup-put_ne d i xs h)

  pub lookup-put_eq :
      (d : Document D) (ds : List (Document D)) {e : D}
      → lookup d.id ds ≡ some e
      → lookup d.id (put d ds) ≡ some d.fields
  unfolding lookup put
  lookup-put_eq d [] h = absurd (cc)
  lookup-put_eq d (x ∷ xs) {e} h =
      ground (arith, eq_iff x.id d.id, eq_iff d.id d.id, lookup-put_eq d xs {e = e})

  pub All-put {κ} :
      (P : Document D → Type κ) (d : Document D) (ds : List (Document D))
      → P d
      → All P ds
      → All P (put d ds)
  unfolding put
  All-put P d [] p h = tt
  All-put P d (x ∷ xs) p (q, h) =
      let rest : All P (put d xs) = All-put P d xs p h in
      if_ind (All P) (x.id == d.id) (p, rest) (q, rest)

  pub lookup-append_none :
      (i : String) (xs ys : List (Document D))
      → lookup i xs ≡ none
      → lookup i (xs ++ ys) ≡ lookup i ys
  unfolding lookup
  lookup-append_none i [] ys h = refl
  lookup-append_none i (x ∷ xs) ys h = ground (arith, lookup-append_none i xs ys)

  pub All-lookup {κ} :
      (P : D → Type κ) (i : String) (ds : List (Document D)) (e : D)
      → All (λ d. P d.fields) ds
      → lookup i ds ≡ some e
      → P e
  unfolding lookup
  All-lookup P i [] e h q = absurd (cc)
  All-lookup P i (x ∷ xs) e (p, h) q = elim (Bool-cases (x.id == i)) [
    | inl same ↦ let r : x.fields ≡ e = ground arith in subst P r p
    | inr other ↦ All-lookup P i xs e h (ground arith)
  ]

  pub without-none : (i : String) (ds : List (Document D)) → lookup i ds ≡ none → without i ds ≡ ds
  unfolding lookup without
  without-none i [] h = refl
  without-none i (x ∷ xs) h = ground (arith, without-none i xs)

  -- A document added under a new identifier is removed again.
  pub without-append :
      (d : Document D) (ds : List (Document D))
      → lookup d.id ds ≡ none
      → without d.id (ds ++ d ∷ []) ≡ ds
  unfolding lookup without
  without-append d [] h = ground (arith, eq_iff d.id d.id)
  without-append d (x ∷ xs) h = ground (arith, without-append d xs)

  pub lookup-append_new :
      (d : Document D) (ds : List (Document D))
      → lookup d.id ds ≡ none
      → lookup d.id (ds ++ d ∷ []) ≡ some d.fields
  unfolding lookup
  lookup-append_new d [] h = ground (arith, eq_iff d.id d.id)
  lookup-append_new d (x ∷ xs) h = ground (arith, lookup-append_new d xs)
