-- ===== src/Throttle/Window.antt =====
-- How many requests pass in a window.
use Prim.Native.Nat.{min}
use workflowhub.Prelude.{
  ◌≡◌, refl, ◌∙◌, ap, sym, subst, ◌⊎◌, ℕ, zero, suc, ◌+◌, ◌-◌, ◌<◌, ltb, String, Bool, true, false,
  arith, Error, Result, ok, err, Promise, after, after_ind, after-ok, after-err, Cases,
  if◌then◌else◌, Bool-cases, inl, inr,
}
use workflowhub.Throttle.{
  Redis, IsLawful, ThrottleOptions, Ttl, no_key, no_expiry, seconds, too_many, is_http_exception,
  start_window, count_request, limit_request, Context, can_activate, redis_key, options_of,
}

-- Redis answers every call.
pub record IsHealthy (R : Redis) : Type 0 where
  pub incr_works : (k : String) (s : R.State) → (n : ℕ) × ((R.incr k s).0 ≡ ok n)
  pub ttl_works : (k : String) (s : R.State) → (t : Ttl) × ((R.ttl k s).0 ≡ ok t)
  pub expire_works : (k : String) (n : ℕ) (s : R.State) → (R.expire k n s).0 ≡ ok tt

module _ (R : Redis) (key : String) (o : ThrottleOptions) where
  -- How many of `n` requests in a row pass.
  unfoldable pub passes : ℕ → R.State → ℕ
  passes zero s = 0
  passes (suc n) s = after (limit_request R key o s) (λ _ w. suc (passes n w)) (λ _ w. passes n w)

module _ (R : Redis) (L : IsLawful R) (key : String) (o : ThrottleOptions) where
  -- What a request may end in: it passes, or it is refused by 429 over the limit.
  abbrev pub Answered : Result Bool × R.State → Type 0
  Answered = Cases (λ b s. b ≡ true) (λ e s. (e ≡ too_many) × (o.limit < R.hits s key))

  abbrev Counted : Result (Unit {0}) × R.State → Type 0
  Counted =
      Cases (λ _ s. Unit {0})
        (λ e s. (is_http_exception e ≡ false) ⊎ ((e ≡ too_many) × (o.limit < R.hits s key)))

  start_window-hits :
      (t : Ttl) (s : R.State) → R.hits (start_window R key o.ttl t s).1 key ≡ R.hits s key
  unfolding start_window
  start_window-hits no_key s = refl
  start_window-hits no_expiry s = L.hits-expire key key o.ttl s
  start_window-hits (seconds n) s = refl

  start_window_err :
      (t : Ttl) (s : R.State) (e : Error)
      → (start_window R key o.ttl t s).0 ≡ err e
      → is_http_exception e ≡ false
  unfolding start_window
  start_window_err no_key s e h = absurd (cc)
  start_window_err no_expiry s e h = L.expire_err key o.ttl s e h
  start_window_err (seconds n) s e h = absurd (cc)

  count_request-Counted : (s : R.State) → Counted (count_request R key o s)
  unfolding count_request
  count_request-Counted s =
      after_ind Counted (R.incr key s) _ _
        (λ n e.
          let (number, added) = L.incr_ok key s n e in
          let w = (R.incr key s).1 in
          after_ind Counted (R.ttl key w) _ _
            (λ t _.
              let v = (R.ttl key w).1 in
              after_ind Counted (start_window R key o.ttl t v) _ _
                (λ _ _. elim (Bool-cases (ltb o.limit n)) [
                  | inl over ↦
                      let kept : R.hits (start_window R key o.ttl t v).1 key ≡ n =
                        start_window-hits t v ∙ L.hits-ttl key key w ∙ added ∙ sym number in
                      rw over (inr (refl, subst (λ h. o.limit < h) (sym kept) (ground arith)))
                  | inr within ↦ rw within tt
                ])
                (λ error h. inl (start_window_err t v error h)))
            (λ error h. inl (L.ttl_err key w error h)))
        (λ error h. inl (L.incr_err key s error h))

  answered :
      (r : Result (Unit {0}) × R.State)
      → Counted r
      → Answered (
          after r
            (λ _ w. (ok true, w))
            (λ error. if is_http_exception error then (λ w. (err error, w)) else λ w. (ok true, w)))
  answered (ok u, w) c = refl
  answered (err e, w) (inl other) = rw other refl
  answered (err e, w) (inr (refused, over)) = rw refused (refl, over)

  -- Whatever Redis answers, and also where it fails, a request passes or it is refused by 429, and it
  -- is refused only when the counter of its key is over the limit.
  pub limit_request-Answered : (s : R.State) → Answered (limit_request R key o s)
  unfolding limit_request
  limit_request-Answered s = answered (count_request R key o s) (count_request-Counted s)

  module _ (H : IsHealthy R) where
    IsCounted : R.State → Result (Unit {0}) × R.State → Type 0
    IsCounted s r =
        (r.0 ≡ (if ltb o.limit (R.hits s key + 1) then err too_many else ok tt))
        × (R.hits r.1 key ≡ R.hits s key + 1)
        × (R.expires r.1 key ≡ true)

    start_window_ok :
        (t : Ttl) (s : R.State) (n : ℕ)
        → (R.expires s key ≡ (elim t [ seconds m ↦ true | _ ↦ false ]))
        → (t ≡ no_key → ⊥)
        → ((start_window R key o.ttl t s).0 ≡ ok tt)
          × (R.expires (start_window R key o.ttl t s).1 key ≡ true)
    unfolding start_window
    start_window_ok no_key s n h a = absurd (a refl)
    start_window_ok no_expiry s n h a =
        (H.expire_works key o.ttl s, L.expires-expire key o.ttl s (H.expire_works key o.ttl s))
    start_window_ok (seconds m) s n h a = (refl, h)

    settled :
        (b : Bool) (s : R.State) (h : ℕ)
        → R.hits s key ≡ h
        → R.expires s key ≡ true
        → let r : Result (Unit {0}) × R.State =
            if◌then◌else◌ {A = Promise R.State (Unit {0})} b
              (λ w. (err too_many, w))
              (λ w. (ok tt, w))
              s in
          (r.0 ≡ (if b then err too_many else ok tt))
          × (R.hits r.1 key ≡ h)
          × (R.expires r.1 key ≡ true)
    settled true s h p q = (refl, p, q)
    settled false s h p q = (refl, p, q)

    count_request-IsCounted : (s : R.State) → IsCounted s (count_request R key o s)
    unfolding IsCounted count_request
    count_request-IsCounted s =
        let (n, i) = H.incr_works key s in
        let w = (R.incr key s).1 in
        let (t, j) = H.ttl_works key w in
        let v = (R.ttl key w).1 in
        let (number, added) = L.incr_ok key s n i in
        let (done, fresh) =
          start_window_ok t v n (L.expires-ttl key key w ∙ L.ttl_ok key w t j)
            (L.ttl_key key w t (R.hits s key) j added) in
        let kept : R.hits (start_window R key o.ttl t v).1 key ≡ R.hits s key + 1 =
          start_window-hits t v ∙ L.hits-ttl key key w ∙ added in
        subst (IsCounted s)
          (sym (
            after-ok (R.incr key s) _ _ i
            ∙ after-ok (R.ttl key w) _ _ j
            ∙ after-ok (start_window R key o.ttl t v) _ _ done))
          (let (answer, hits, expires) =
              settled (ltb o.limit n) (start_window R key o.ttl t v).1 (R.hits s key + 1) kept
                fresh in
            (
              answer ∙ ap (λ k. if ltb o.limit k then err too_many else ok tt) number,
              hits,
              expires,
            ))

    limited :
        (b : Bool) (h : ℕ) (r : Result (Unit {0}) × R.State)
        → r.0 ≡ (if b then err too_many else ok tt)
        → R.hits r.1 key ≡ h
        → R.expires r.1 key ≡ true
        → let end : Result Bool × R.State =
            after r
              (λ _ w. (ok true, w))
              (λ error.
                if is_http_exception error then (λ w. (err error, w)) else λ w. (ok true, w)) in
          (end.0 ≡ (if b then err too_many else ok true))
          × (R.hits end.1 key ≡ h)
          × (R.expires end.1 key ≡ true)
    limited true h (x, w) e p q = rw e (refl, p, q)
    limited false h (x, w) e p q = rw e (refl, p, q)

    -- While Redis answers every call, a request is refused by 429 exactly when it takes the counter of
    -- its key over the limit, it is counted in both cases, and afterwards the key will expire, also
    -- if an earlier request failed to set its window.
    pub limit_request-Counts :
        (s : R.State)
        → ((limit_request R key o s).0
            ≡ (if ltb o.limit (R.hits s key + 1) then err too_many else ok true))
          × (R.hits (limit_request R key o s).1 key ≡ R.hits s key + 1)
          × (R.expires (limit_request R key o s).1 key ≡ true)
    unfolding limit_request IsCounted
    limit_request-Counts s =
        let (answer, hits, expires) = count_request-IsCounted s in
        limited (ltb o.limit (R.hits s key + 1)) (R.hits s key + 1) (count_request R key o s) answer
          hits expires

    passes-room : (n : ℕ) (s : R.State) → passes R key o n s ≡ min n (o.limit - R.hits s key)
    unfolding passes
    passes-room zero s = omega arith
    passes-room (suc n) s =
        let (answer, hits, expires) = limit_request-Counts s in
        elim (Bool-cases (ltb o.limit (R.hits s key + 1))) [
          | inl over ↦
              after-err (limit_request R key o s) _ _ {e = too_many} (answer ∙ rw over refl)
              ∙ passes-room n (limit_request R key o s).1
              ∙ rw hits (ground arith)
          | inr within ↦
              after-ok (limit_request R key o s) _ _ {a = true} (answer ∙ rw within refl)
              ∙ ap suc (passes-room n (limit_request R key o s).1)
              ∙ rw hits (ground arith)
        ]

    -- While Redis answers every call, of `n` requests of a client to a route in one window, which starts
    -- without a counter, as many pass as the limit allows, and all of them if `n` is within it.
    pub passes-limit_request :
        (n : ℕ) (s : R.State) → R.hits s key ≡ 0 → passes R key o n s ≡ min n o.limit
    passes-limit_request n s new = passes-room n s ∙ rw new (omega arith)

-- A request over HTTP is counted under its key.
pub can_activate_http :
    (R : Redis) (default : ThrottleOptions) (c : Context) (s : R.State)
    → c.is_http ≡ true
    → can_activate R default c s ≡ limit_request R (redis_key c.request) (options_of default c) s
unfolding can_activate
can_activate_http R default c s http = rw http refl
