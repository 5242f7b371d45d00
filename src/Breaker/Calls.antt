-- ===== src/Breaker/Calls.antt =====
-- Calls keep the breakers apart, and a method keeps its breaker.
use workflowhub.Prelude.{
  ◌≡◌, refl, ◌∙◌, ap, sym, inl, inr, String, ◌==◌, eq_iff, eq_refl, Option, none, some, List, ◌∷◌,
  Bool-cases,
}
use workflowhub.Breaker.{
  Opossum, IsLawful, Property, method, other, Returned, Overrides, Proxy, Got, fires, as_it_is,
  find_breaker, make_breaker, fire_got, get_method, get_trap, call,
}
use workflowhub.Breaker.Apart.{IsApart, added-IsApart}

module _ (O : Opossum) (L : IsLawful O) (service : String → Property O)
    (options : Overrides O) where
  -- No breaker is lost.
  abbrev pub Keeps : Proxy O → Proxy O → Type 0
  Keeps p q =
      (n : String) (b : O.Breaker)
      → find_breaker O n p.breakers ≡ some b
      → find_breaker O n q.breakers ≡ some b

  -- What the trap does for a method.
  pub record Gets (name : String) (p : Proxy O) (r : Got O × Proxy O) : Type 0 where
    pub breaker : O.Breaker
    pub answer : r.0 ≡ fires breaker
    pub kept_as : find_breaker O name r.1.breakers ≡ some breaker
    pub is_apart : IsApart O L service options r.1
    pub keeps : Keeps p r.1

  find_kept :
      (name n : String) (c b : O.Breaker) (bs : List (String × O.Breaker))
      → find_breaker O name bs ≡ none
      → find_breaker O n bs ≡ some b
      → find_breaker O n ((name, c) ∷ bs) ≡ some b
  unfolding find_breaker
  find_kept name n c b bs new old = elim (Bool-cases (name == n)) [
    | inl same ↦
        let clash : some b ≡ none =
          sym old ∙ ap (λ k. find_breaker O k bs) (sym ((eq_iff name n).0 same)) ∙ new in
        absurd (cc)
    | inr different ↦ rw different old
  ]

  find_first :
      (name : String) (c : O.Breaker) (bs : List (String × O.Breaker))
      → find_breaker O name ((name, c) ∷ bs) ≡ some c
  unfolding find_breaker
  find_first name c bs = rw eq_refl refl

  get_method-Gets :
      (name : String) (original : O.Args → Returned O) (p : Proxy O) (o : Option O.Breaker)
      → find_breaker O name p.breakers ≡ o
      → IsApart O L service options p
      → Gets name p (get_method O service options name original p o)
  unfolding get_method
  get_method-Gets name original p (some b) e h = record {
    breaker = b;
    answer = refl;
    kept_as = e;
    is_apart = h;
    keeps = λ n c f. f;
  }
  get_method-Gets name original p none e h = record {
    breaker = (make_breaker O options name original p.world).0;
    answer = refl;
    kept_as = find_first name _ p.breakers;
    is_apart = added-IsApart O L service options name original p h;
    keeps = λ n c f. find_kept name n _ c p.breakers e f;
  }

  pub get_trap-Gets :
      (name : String) (original : O.Args → Returned O) (p : Proxy O)
      → service name ≡ method original
      → IsApart O L service options p
      → Gets name p (get_trap O service options name p)
  unfolding get_trap
  get_trap-Gets name original p e h =
      rw (get_trap, e) (get_method-Gets name original p (find_breaker O name p.breakers) refl h)

  fire_got-Keeps :
      (args : O.Args) (p : Proxy O) (r : Got O × Proxy O)
      → IsApart O L service options r.1
      → Keeps p r.1
      → IsApart O L service options (fire_got O service options args r)
        × Keeps p (fire_got O service options args r)
  fire_got-Keeps args p (as_it_is v, q) h k = (h, k)
  fire_got-Keeps args p (fires c, q) h k =
      (record { live = λ n b e. L.live-fire c args q.world b (h.live n b e); apart = h.apart }, k)

  trap-Keeps :
      (name : String) (x : Property O) (p : Proxy O)
      → service name ≡ x
      → IsApart O L service options p
      → IsApart O L service options (get_trap O service options name p).1
        × Keeps p (get_trap O service options name p).1
  unfolding get_trap
  trap-Keeps name (other v) p e h = rw (get_trap, e) (h, λ n b f. f)
  trap-Keeps name (method original) p e h =
      let g = get_trap-Gets name original p e h in (g.is_apart, g.keeps)

  pub call-Keeps :
      (name : String) (args : O.Args) (p : Proxy O)
      → IsApart O L service options p
      → IsApart O L service options (call O service options name args p)
        × Keeps p (call O service options name args p)
  unfolding call
  call-Keeps name args p h =
      let (a, k) = trap-Keeps name (service name) p refl h in
      fire_got-Keeps args p (get_trap O service options name p) a k
