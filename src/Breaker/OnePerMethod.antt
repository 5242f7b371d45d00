-- ===== src/Breaker/OnePerMethod.antt =====
-- Which breaker a call goes through.
use workflowhub.Prelude.{◌≡◌, ◌↔◌, ◌∙◌, ap, sym, String, Option, some, List, [], ◌∷◌}
use workflowhub.Breaker.{
  Opossum, IsLawful, Property, method, Returned, Overrides, Proxy, Got, fires, find_breaker,
  get_trap, call,
}
use workflowhub.Breaker.Apart.{IsApart}
use workflowhub.Breaker.Calls.{Keeps, get_trap-Gets, call-Keeps}

-- Calls of properties by name, one after another, whatever they answer.
pub calls :
    (O : Opossum) (service : String → Property O) (options : Overrides O)
    → List (String × O.Args)
    → Proxy O
    → Proxy O
calls O service options [] p = p
calls O service options ((name, args) ∷ rest) p =
    calls O service options rest (call O service options name args p)

module _ (O : Opossum) (service : String → Property O) (options : Overrides O) where
  -- The proxy as `wrapWithCircuitbreaker` returns it.
  abbrev pub wrapped : O.State → Proxy O
  wrapped w = record { breakers = []; world = w }

module _ (O : Opossum) (L : IsLawful O) (service : String → Property O)
    (options : Overrides O) where
  wrapped-IsApart : (w : O.State) → IsApart O L service options (wrapped O service options w)
  unfolding find_breaker
  wrapped-IsApart w = record { live = λ n b e. absurd (cc); apart = λ n m b e f. absurd (cc) }

  calls-Keeps :
      (us : List (String × O.Args)) (p : Proxy O)
      → IsApart O L service options p
      → IsApart O L service options (calls O service options us p)
        × Keeps O L service options p (calls O service options us p)
  unfolding calls
  calls-Keeps [] p h = (h, λ n b e. e)
  calls-Keeps ((name, args) ∷ rest) p h =
      let (a, k) = call-Keeps O L service options name args p h in
      let (a', k') = calls-Keeps rest (call O service options name args p) a in
      (a', λ n b e. k' n b (k n b e))

  some_eq : (a b : O.Breaker) → ◌≡◌ {A = Option O.Breaker} (some a) (some b) → a ≡ b
  some_eq a b h = cc

  fires_eq : (a b : O.Breaker) → ◌≡◌ {A = Got O} (fires a) (fires b) → a ≡ b
  fires_eq a b h = cc

  -- Each method of a client has one breaker, for itself and for good: after any calls, and whatever calls
  -- come in between, two accesses to methods return functions that fire the same breaker exactly
  -- when they name the same method.
  pub get_trap-eq_iff :
      (w : O.State) (us vs : List (String × O.Args)) (n m : String) (f g : O.Args → Returned O)
      → service n ≡ method f
      → service m ≡ method g
      → let (got, q) =
          get_trap O service options n (calls O service options us (wrapped O service options w)) in
        (got ≡ (get_trap O service options m (calls O service options vs q)).0) ↔ (n ≡ m)
  get_trap-eq_iff w us vs n m f g is_f is_g =
      let p = calls O service options us (wrapped O service options w) in
      let (a, _) = calls-Keeps us (wrapped O service options w) (wrapped-IsApart w) in
      let x = get_trap-Gets O L service options n f p is_f a in
      let q = (get_trap O service options n p).1 in
      let (b, k) = calls-Keeps vs q x.is_apart in
      let r = calls O service options vs q in
      let y = get_trap-Gets O L service options m g r is_g b in
      let still = y.keeps n x.breaker (k n x.breaker x.kept_as) in
      (
        λ same.
            let one : x.breaker ≡ y.breaker =
              fires_eq x.breaker y.breaker (sym x.answer ∙ same ∙ y.answer) in
            y.is_apart.apart n m y.breaker (still ∙ ap some one) y.kept_as,
        λ same.
            let one : x.breaker ≡ y.breaker = some_eq x.breaker y.breaker (
              sym still
              ∙ ap (λ (k : String). find_breaker O k (get_trap O service options m r).1.breakers)
                  same
              ∙ y.kept_as) in
            x.answer ∙ ap fires one ∙ sym y.answer,
      )
