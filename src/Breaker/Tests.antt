-- ===== src/Breaker/Tests.antt =====
-- Breakers numbered in the order of their creation.
use workflowhub.Prelude.{
  ◌≡◌, ◌↔◌, refl, ℕ, ◌+◌, ltb, String, ◌==◌, none, some, [], ◌∷◌, arith, ok, err, new_error,
  if◌then◌else◌,
}
use workflowhub.Breaker.{
  Opossum, IsLawful, Property, method, other, Returned, promise, Overrides, as_it_is, get_trap,
  breaker_options,
}
use workflowhub.Breaker.OnePerMethod.{calls, wrapped, get_trap-eq_iff}

abbrev numbered : Opossum
numbered = record {
  State = ℕ;
  Args = String;
  Answer = String;
  Observable = Unit {0};
  Plain = String;
  Breaker = ℕ;
  is_live = λ n b. ltb b n;
  create = λ f o n. (n, n + 1);
  fallback = λ b f n. n;
  fire = λ b args n. (err (new_error "Breaker is open"), n);
  first_value_from = λ o n. (ok "first", n);
}

numbered-IsLawful : IsLawful numbered
numbered-IsLawful = record {
  create_new = λ f o s. ground arith;
  create_live = λ f o s. ground arith;
  live-create = λ f o s b h. ground arith;
  live-fallback = λ c f s b h. h;
  live-fire = λ c a s b h. h;
}

abbrev echo : String → Returned numbered
echo args = promise (λ s. (ok args, s))

-- A client with one field that is no function.
abbrev client : String → Property numbered
client name = if name == "options" then other "auth.proto" else method echo

abbrev no_options : Overrides numbered
no_options = record {
  timeout = none;
  error_threshold_percentage = none;
  reset_timeout = some 20000;
  volume_threshold = none;
  filter = none;
  fallbacks = λ name. none;
}

overridden : (breaker_options numbered no_options).reset_timeout ≡ 20000
unfolding breaker_options
overridden = refl

field_as_it_is :
    (get_trap numbered client no_options "options" (wrapped numbered client no_options 0)).0
    ≡ as_it_is "auth.proto"
unfolding get_trap
field_as_it_is = refl

get_trap-eq_iff_example :
    let (got, q) = get_trap numbered client no_options "register" (
      calls numbered client no_options
        (("login", "ann") ∷ [])
        (wrapped numbered client no_options 0)) in
    (got
      ≡ (get_trap numbered client no_options "login"
          (calls numbered client no_options (("options", "x") ∷ []) q)).0)
    ↔ (◌≡◌ {A = String} "register" "login")
get_trap-eq_iff_example =
    get_trap-eq_iff numbered numbered-IsLawful client no_options 0 (("login", "ann") ∷ [])
      (("options", "x") ∷ []) "register" "login" echo echo refl refl
