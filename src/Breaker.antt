-- ===== src/Breaker.antt =====
-- libs/shared/src/circuit-breaker/circuit-breaker.helper.ts, `wrapWithCircuitbreaker`: a proxy that gives
-- each method of a client a circuit breaker of its own.
pub mod Apart
pub mod Calls
pub mod OnePerMethod
mod Tests
use workflowhub.Prelude.{
  ◌≡◌, ℕ, String, Bool, true, false, ◌==◌, ◌||◌, Option, none, some, List, [], ◌∷◌, Error, Result,
  Promise, if◌then◌else◌,
}
use workflowhub.HttpStatus.{error_filter}

-- The options that the code sets for a breaker.
pub record Options : Type 0 where
  pub timeout : ℕ
  pub error_threshold_percentage : ℕ
  pub reset_timeout : ℕ
  pub volume_threshold : ℕ
  pub filter : Error → Bool

-- opossum and RxJS. A breaker is a handle; `is_live` tells which handles are in use.
pub record Opossum : Type 1 where
  pub State : Type 0
  pub Args : Type 0
  pub Answer : Type 0
  pub Observable : Type 0
  pub Plain : Type 0
  pub Breaker : Type 0
  pub is_live : State → Breaker → Bool
  pub create : (Args → Promise State Answer) → Options → State → Breaker × State
  pub fallback : Breaker → (Args → Answer) → State → State
  pub fire : Breaker → Args → Promise State Answer
  pub first_value_from : Observable → Promise State Answer

module _ (O : Opossum) where
  -- What a method returns: an observable, or a value or a promise of one.
  pub data Returned : Type 0 where
    observable : O.Observable → Returned
    promise : Promise O.State O.Answer → Returned

  -- A property of the client.
  pub data Property : Type 0 where
    method : (O.Args → Returned) → Property
    other : O.Plain → Property

  -- `CircuitBreakerOptions`, each of which may be left out.
  pub record Overrides : Type 0 where
    pub timeout : Option ℕ
    pub error_threshold_percentage : Option ℕ
    pub reset_timeout : Option ℕ
    pub volume_threshold : Option ℕ
    pub filter : Option (Error → Bool)
    pub fallbacks : String → Option (O.Args → O.Answer)

-- A value given by the caller covers the default.
abbrev pub or_default : {A : Type 0} → A → Option A → A
or_default d none = d
or_default d (some a) = a

module _ (O : Opossum) where
  -- The defaults, with `...options` after them.
  pub breaker_options : Overrides O → Options
  breaker_options options = record {
    timeout = or_default 5000 options.timeout;
    error_threshold_percentage = or_default 50 options.error_threshold_percentage;
    reset_timeout = or_default 10000 options.reset_timeout;
    volume_threshold = or_default 5 options.volume_threshold;
    filter = or_default error_filter options.filter;
  }

  -- `action`: an observable is awaited by its first value.
  pub action : (O.Args → Returned O) → O.Args → Promise O.State O.Answer
  action original args = elim (original args) [
    | observable result ↦ O.first_value_from result
    | promise result ↦ result
  ]

  -- The registration of the fallback, if there is one for the method.
  abbrev pub with_fallback : Option (O.Args → O.Answer) → O.Breaker × O.State → O.Breaker × O.State
  with_fallback none made = made
  with_fallback (some f) (breaker, s) = (breaker, O.fallback breaker f s)

  -- A breaker for a method.
  pub make_breaker : Overrides O → String → (O.Args → Returned O) → O.State → O.Breaker × O.State
  make_breaker options name original s =
      with_fallback (options.fallbacks name)
        (O.create (action original) (breaker_options options) s)

  -- The map `breakers`, with the state of opossum.
  pub record Proxy : Type 0 where
    pub breakers : List (String × O.Breaker)
    pub world : O.State

  pub find_breaker : String → List (String × O.Breaker) → Option O.Breaker
  find_breaker name [] = none
  find_breaker name ((n, b) ∷ rest) = if n == name then some b else find_breaker name rest

  -- What the trap returns: the property as it is, or a function that fires a breaker.
  pub data Got : Type 0 where
    as_it_is : O.Plain → Got
    fires : O.Breaker → Got

module _ (O : Opossum) (service : String → Property O) (options : Overrides O) where
  -- The part of the trap for a method, after `breakers.get(prop)`.
  pub get_method : String → (O.Args → Returned O) → Proxy O → Option O.Breaker → Got O × Proxy O
  unfolding make_breaker
  get_method name original p (some breaker) = (fires breaker, p)
  get_method name original p none =
      let (breaker, w) = make_breaker O options name original p.world in
      (fires breaker, record { breakers = (name, breaker) ∷ p.breakers; world = w })

  -- The trap `get`. `Object.prototype.hasOwnProperty` is a function, so the test against it adds
  -- nothing.
  pub get_trap : String → Proxy O → Got O × Proxy O
  unfolding get_method find_breaker
  get_trap name p = elim (service name) [
    | other v ↦ (as_it_is v, p)
    | method original ↦ get_method name original p (find_breaker O name p.breakers)
  ]

  -- What the returned function does, if it is one.
  abbrev pub fire_got : O.Args → Got O × Proxy O → Proxy O
  fire_got args (as_it_is v, q) = q
  fire_got args (fires breaker, q) = record q { world = (O.fire breaker args q.world).1 }

  -- A call of a property: the trap, and the function that it returns.
  pub call : String → O.Args → Proxy O → Proxy O
  unfolding get_trap
  call name args p = fire_got args (get_trap name p)

-- What the proxy relies on: a new breaker has a handle that was not in use, and handles stay in use.
pub record IsLawful (O : Opossum) : Type 0 where
  pub create_new :
      (f : O.Args → Promise O.State O.Answer) (o : Options) (s : O.State)
      → O.is_live s (O.create f o s).0 ≡ false
  pub create_live :
      (f : O.Args → Promise O.State O.Answer) (o : Options) (s : O.State)
      → O.is_live (O.create f o s).1 (O.create f o s).0 ≡ true
  pub live-create :
      (f : O.Args → Promise O.State O.Answer) (o : Options) (s : O.State) (b : O.Breaker)
      → O.is_live s b ≡ true
      → O.is_live (O.create f o s).1 b ≡ true
  pub live-fallback :
      (c : O.Breaker) (f : O.Args → O.Answer) (s : O.State) (b : O.Breaker)
      → O.is_live s b ≡ true
      → O.is_live (O.fallback c f s) b ≡ true
  pub live-fire :
      (c : O.Breaker) (a : O.Args) (s : O.State) (b : O.Breaker)
      → O.is_live s b ≡ true
      → O.is_live (O.fire c a s).1 b ≡ true
