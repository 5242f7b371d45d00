-- ===== src/Throttle/Tests.antt =====
-- A Redis of one counter in memory, and requests to it.
use workflowhub.Prelude.{
  ◌≡◌, refl, ap, ℕ, ◌+◌, String, Bool, true, false, none, some, Result, ok, err, if◌then◌else◌,
}
use workflowhub.Throttle.{
  Redis, IsLawful, ThrottleOptions, Ttl, no_key, no_expiry, seconds, Request,
}
use workflowhub.Throttle.Window.{IsHealthy, passes, passes-limit_request}

-- The counter and whether it expires.
pub record Memory : Type 0 where
  pub count : ℕ
  pub fresh : Bool

abbrev pub time_left : Memory → Ttl
time_left m = if m.fresh then seconds 60 else no_expiry

abbrev pub memory : Redis
memory = record {
  State = Memory;
  hits = λ m k. m.count;
  expires = λ m k. m.fresh;
  incr = λ k m. (ok (m.count + 1), record m { count = m.count + 1 });
  ttl = λ k m. (ok (time_left m), m);
  expire = λ k n m. (ok tt, record m { fresh = true });
}

value : {A : Type 0} → A → Result A → A
value a (ok b) = b
value a (err e) = a

shown :
    (b : Bool) (t : Ttl)
    → ok (if b then seconds 60 else no_expiry) ≡ ok t
    → b ≡ (elim t [ seconds n ↦ true | _ ↦ false ])
unfolding value
shown true t h = ap (λ r. elim (value t r) [ seconds n ↦ true | _ ↦ false ]) h
shown false t h = ap (λ r. elim (value t r) [ seconds n ↦ true | _ ↦ false ]) h

absent : (b : Bool) (t : Ttl) → ok (if b then seconds 60 else no_expiry) ≡ ok t → t ≡ no_key → ⊥
absent true t h e = cc
absent false t h e = cc

pub memory-IsLawful : IsLawful memory
memory-IsLawful = record {
  incr_ok = λ k m n h. (cc, refl);
  ttl_ok = λ k m t h. shown m.fresh t h;
  ttl_key = λ k m t n h j e. absent m.fresh t h e;
  hits-ttl = λ k j m. refl;
  expires-ttl = λ k j m. refl;
  hits-expire = λ k j n m. refl;
  expires-expire = λ k n m h. refl;
  incr_err = λ k m e h. absurd (cc);
  ttl_err = λ k m e h. absurd (cc);
  expire_err = λ k n m e h. absurd (cc);
}

pub memory-IsHealthy : IsHealthy memory
memory-IsHealthy = record {
  incr_works = λ k m. (m.count + 1, refl);
  ttl_works = λ k m. (time_left m, refl);
  expire_works = λ k n m. refl;
}

abbrev pub two : ThrottleOptions
two = record { limit = 2; ttl = 60 }

abbrev route : String
route = "throttle:/auth/login:ip:10.0.0.1"

abbrev pub empty : Memory
empty = record { count = 0; fresh = false }

abbrev full : Memory
full = record { count = 2; fresh = true }

abbrev forwarded : Request
forwarded = record {
  user_id = none;
  forwarded_for = some "10.0.0.1, 10.0.0.2";
  ip = some "10.0.0.2";
  remote_address = none;
  route_path = some "/auth/login";
  url = "/auth/login";
}

passes-limit_request_example : passes memory route two 5 empty ≡ 2
passes-limit_request_example =
    passes-limit_request memory memory-IsLawful route two memory-IsHealthy 5 empty refl
