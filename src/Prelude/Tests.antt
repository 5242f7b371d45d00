-- ===== src/Prelude/Tests.antt =====
-- Boolean tests, the conditional, and the truthiness of JavaScript strings.
use Prim.Native.Nat.{ℕ, compare, Ordering}
use Prim.Native.String.{String}
use mathlib.Core.Path.{◌≡◌, refl}
use mathlib.Core.Logic.{◌⊎◌, inl, inr}
use mathlib.Core.Bool.{Bool, true, false}
use mathlib.Core.Option.{Option, none, some}

-- `a < b`, `a ≤ b` and `a === b` on numbers.
abbrev pub ltb : ℕ → ℕ → Bool
ltb a b = elim (compare a b) [ Ordering.lt ↦ true | _ ↦ false ]

abbrev pub leb : ℕ → ℕ → Bool
leb a b = elim (compare a b) [ Ordering.gt ↦ false | _ ↦ true ]

abbrev pub nat_beq : ℕ → ℕ → Bool
nat_beq a b = elim (compare a b) [ Ordering.eq ↦ true | _ ↦ false ]

infix 1 if◌then◌else◌
abbrev pub if◌then◌else◌ {ℓ} : {A : Type ℓ} → Bool → A → A → A
if true then x else y = x
if false then x else y = y

-- A string is falsy when it is empty; `undefined` and `null` are falsy.
abbrev pub truthy : String → Bool
truthy String.[] = false
truthy (String.◌∷◌ c s) = true

-- `a || b` on strings that may be missing.
abbrev pub or_else : Option String → Option String → Option String
or_else none b = b
or_else (some s) b = if truthy s then some s else b

-- The value of `a || "default"`.
abbrev pub or_string : Option String → String → String
or_string none d = d
or_string (some s) d = if truthy s then s else d

-- The value, if it passes the test `if (value)`.
abbrev pub truthy_value : Option String → Option String
truthy_value none = none
truthy_value (some s) = if truthy s then some s else none

pub Bool-cases : (b : Bool) → (b ≡ true) ⊎ (b ≡ false)
Bool-cases true = inl refl
Bool-cases false = inr refl

pub Option-cases {ℓ} : {A : Type ℓ} (o : Option A) → (o ≡ none) ⊎ ((a : A) × (o ≡ some a))
Option-cases none = inl refl
Option-cases (some a) = inr (a, refl)
