-- ===== src/Throttle.antt =====
-- apps/api-gateway/src/common/guards/redis-throttler.guard.ts and the decorator of
-- common/decorators/throttle.decorator.ts: a limit on the requests of a client to a route, counted
-- in Redis.
pub mod Window
pub mod Client
pub mod Tests
use workflowhub.Prelude.{
  ◌≡◌, ℕ, ◌+◌, ltb, String, ◌<>◌, Bool, true, false, Option, none, some, ◌==◌, num, Error, Result,
  ok, err, Promise, ◌>>=◌, ◌>>◌, pure, throw, try_catch, after, or_else, or_string, truthy_value,
  split_on, first, trim, if◌then◌else◌,
}

pub record ThrottleOptions : Type 0 where
  pub limit : ℕ
  pub ttl : ℕ

-- What the guard reads of a request. Each of the headers and addresses may be missing.
pub record Request : Type 0 where
  pub user_id : Option String
  pub forwarded_for : Option String
  pub ip : Option String
  pub remote_address : Option String
  pub route_path : Option String
  pub url : String

-- What the guard reads of the execution context: its type, and the metadata of the decorator on
-- the handler and on the controller.
pub record Context : Type 0 where
  pub is_http : Bool
  pub handler_options : Option ThrottleOptions
  pub controller_options : Option ThrottleOptions
  pub request : Request

-- The answer of `TTL`: -2, -1 or a number of seconds.
pub data Ttl : Type 0 where
  no_key no_expiry : Ttl
  seconds : ℕ → Ttl

-- Redis. `hits` is the counter of a key in its present window, 0 if there is none, and `expires`
-- tells whether the key will expire.
pub record Redis : Type 1 where
  pub State : Type 0
  pub hits : State → String → ℕ
  pub expires : State → String → Bool
  pub incr : String → Promise State ℕ
  pub ttl : String → Promise State Ttl
  pub expire : String → ℕ → Promise State (Unit {0})

pub get_client_identifier : Request → String
get_client_identifier r = elim (truthy_value r.user_id) [
  | some id ↦ "user:" <> id
  | none ↦
      let address = or_string (or_else r.forwarded_for (or_else r.ip r.remote_address)) "unknown" in
      "ip:" <> trim (first (split_on b',' address))
]

-- `getAllAndOverride`: the handler's metadata, or else the controller's, or else the configuration.
abbrev pub options_of : ThrottleOptions → Context → ThrottleOptions
options_of default c = elim c.handler_options [
  | some o ↦ o
  | none ↦ elim c.controller_options [ some o ↦ o | none ↦ default ]
]

pub redis_key : Request → String
unfolding get_client_identifier
redis_key r =
    let route_path = or_string r.route_path r.url in
    "throttle:" <> route_path <> ":" <> get_client_identifier r

abbrev pub too_many : Error
too_many = record {
  name = some "HttpException";
  message = some "Too many requests, please try again later.";
  details = none;
  code = none;
  status = some (num 429);
  status_code = none;
}

-- `error instanceof HttpException`
abbrev pub is_http_exception : Error → Bool
is_http_exception e = elim e.name [ none ↦ false | some n ↦ n == "HttpException" ]

module _ (R : Redis) where
  -- A key that has just been made gets its window.
  pub start_window : String → ℕ → Ttl → Promise R.State (Unit {0})
  start_window key window no_expiry = R.expire key window
  start_window key window no_key = pure tt
  start_window key window (seconds n) = pure tt

  -- The body of the `try` block.
  pub count_request : String → ThrottleOptions → Promise R.State (Unit {0})
  unfolding start_window
  count_request key options = do
    current_requests ← R.incr key
    ttl ← R.ttl key
    start_window key options.ttl ttl
    if ltb options.limit current_requests then throw too_many else pure tt

  -- The rest of `canActivate` for a request over HTTP.
  pub limit_request : String → ThrottleOptions → Promise R.State Bool
  unfolding count_request
  limit_request key options s =
      after (count_request key options s) (λ _. pure true)
        (λ error. if is_http_exception error then throw error else pure true)

  pub can_activate : ThrottleOptions → Context → Promise R.State Bool
  unfolding limit_request redis_key
  can_activate default c =
      if c.is_http then limit_request (redis_key c.request) (options_of default c) else pure true

-- What the guard relies on, within one window of a key.
pub record IsLawful (R : Redis) : Type 0 where
  pub incr_ok :
      (k : String) (s : R.State) (n : ℕ)
      → (R.incr k s).0 ≡ ok n
      → (n ≡ R.hits s k + 1) × (R.hits (R.incr k s).1 k ≡ R.hits s k + 1)
  pub ttl_ok :
      (k : String) (s : R.State) (t : Ttl)
      → (R.ttl k s).0 ≡ ok t
      → R.expires s k ≡ (elim t [ seconds n ↦ true | _ ↦ false ])
  pub ttl_key :
      (k : String) (s : R.State) (t : Ttl) (n : ℕ)
      → (R.ttl k s).0 ≡ ok t
      → R.hits s k ≡ n + 1
      → t ≡ no_key
      → ⊥
  pub hits-ttl : (k j : String) (s : R.State) → R.hits (R.ttl k s).1 j ≡ R.hits s j
  pub expires-ttl : (k j : String) (s : R.State) → R.expires (R.ttl k s).1 j ≡ R.expires s j
  pub hits-expire : (k j : String) (n : ℕ) (s : R.State) → R.hits (R.expire k n s).1 j ≡ R.hits s j
  pub expires-expire :
      (k : String) (n : ℕ) (s : R.State)
      → (R.expire k n s).0 ≡ ok tt
      → R.expires (R.expire k n s).1 k ≡ true
  pub incr_err :
      (k : String) (s : R.State) (e : Error) → (R.incr k s).0 ≡ err e → is_http_exception e ≡ false
  pub ttl_err :
      (k : String) (s : R.State) (e : Error) → (R.ttl k s).0 ≡ err e → is_http_exception e ≡ false
  pub expire_err :
      (k : String) (n : ℕ) (s : R.State) (e : Error)
      → (R.expire k n s).0 ≡ err e
      → is_http_exception e ≡ false
