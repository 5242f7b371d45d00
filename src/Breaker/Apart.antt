-- ===== src/Breaker/Apart.antt =====
-- A new breaker is none of those in use.
use workflowhub.Prelude.{
  ◌≡◌, refl, ◌∙◌, ap, sym, ◌⊎◌, inl, inr, String, true, false, ◌==◌, eq_iff, arith, Option, none,
  some, List, ◌∷◌, Bool-cases,
}
use workflowhub.Breaker.{
  Opossum, IsLawful, Property, Returned, Overrides, Proxy, find_breaker, make_breaker,
  with_fallback, action, breaker_options,
}

module _ (O : Opossum) (L : IsLawful O) (service : String → Property O)
    (options : Overrides O) where
  -- The breakers are in use, and those of different names are different.
  pub record IsApart (p : Proxy O) : Type 0 where
    pub live :
        (n : String) (b : O.Breaker)
        → find_breaker O n p.breakers ≡ some b
        → O.is_live p.world b ≡ true
    pub apart :
        (n m : String) (b : O.Breaker)
        → find_breaker O n p.breakers ≡ some b
        → find_breaker O m p.breakers ≡ some b
        → n ≡ m

  fallback_live :
      (f : Option (O.Args → O.Answer)) (r : O.Breaker × O.State) (b : O.Breaker)
      → O.is_live r.1 b ≡ true
      → O.is_live (with_fallback O f r).1 b ≡ true
  fallback_live none r b h = h
  fallback_live (some f) (c, s) b h = L.live-fallback c f s b h

  fallback_same :
      (f : Option (O.Args → O.Answer)) (r : O.Breaker × O.State) → (with_fallback O f r).0 ≡ r.0
  fallback_same none r = refl
  fallback_same (some f) (c, s) = refl

  module _ (name : String) (original : O.Args → Returned O) (s : O.State) where
    abbrev created : O.Breaker × O.State
    created = O.create (action O original) (breaker_options O options) s

    abbrev pub made : O.Breaker × O.State
    made = make_breaker O options name original s

    made_new : O.is_live s made.0 ≡ false
    unfolding make_breaker
    made_new =
        ap (O.is_live s) (fallback_same (options.fallbacks name) created) ∙ L.create_new _ _ s

    made_live : O.is_live made.1 made.0 ≡ true
    unfolding make_breaker
    made_live = fallback_live (options.fallbacks name) created made.0 (
        ap (O.is_live created.1) (fallback_same (options.fallbacks name) created)
        ∙ L.create_live _ _ s)

    live-made : (b : O.Breaker) → O.is_live s b ≡ true → O.is_live made.1 b ≡ true
    unfolding make_breaker
    live-made b h = fallback_live (options.fallbacks name) created b (L.live-create _ _ s b h)

  -- Looking up after an entry has been put in front.
  found :
      (n m : String) (c b : O.Breaker) (bs : List (String × O.Breaker))
      → find_breaker O m ((n, c) ∷ bs) ≡ some b
      → ((n ≡ m) × (c ≡ b)) ⊎ (find_breaker O m bs ≡ some b)
  unfolding find_breaker
  found n m c b bs h = elim (Bool-cases (n == m)) [
    | inl same ↦ inl ((eq_iff n m).0 same, ground arith)
    | inr different ↦ inr (ground arith)
  ]

  -- A handle in use is not the one of the new breaker.
  not_made :
      (p : Proxy O) (m : String) (b : O.Breaker) (name : String) (original : O.Args → Returned O)
      → IsApart p
      → find_breaker O m p.breakers ≡ some b
      → (made name original p.world).0 ≡ b
      → ⊥
  not_made p m b name original h e same =
      let old = h.live m b e in
      let new : O.is_live p.world b ≡ false =
        ap (O.is_live p.world) (sym same) ∙ made_new name original p.world in
      cc

  abbrev pub added : String → (O.Args → Returned O) → Proxy O → Proxy O
  added name original p = record {
    breakers = (name, (made name original p.world).0) ∷ p.breakers;
    world = (made name original p.world).1;
  }

  pub added-IsApart :
      (name : String) (original : O.Args → Returned O) (p : Proxy O)
      → IsApart p
      → IsApart (added name original p)
  added-IsApart name original p h = record {
    live = λ n b e. elim (found name n (made name original p.world).0 b p.breakers e) [
      | inl (is, same) ↦
          ap (O.is_live (made name original p.world).1) (sym same) ∙ made_live name original p.world
      | inr old ↦ live-made name original p.world b (h.live n b old)
    ];
    apart = λ n m b e f. elim (found name n (made name original p.world).0 b p.breakers e) [
      | inl (is, same) ↦ elim (found name m (made name original p.world).0 b p.breakers f) [
        | inl (is', same') ↦ sym is ∙ is'
        | inr old' ↦ absurd (not_made p m b name original h old' same)
      ]
      | inr old ↦ elim (found name m (made name original p.world).0 b p.breakers f) [
        | inl (is', same') ↦ absurd (not_made p n b name original h old same')
        | inr old' ↦ h.apart n m b old old'
      ]
    ];
  }
