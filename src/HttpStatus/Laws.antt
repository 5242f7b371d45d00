-- ===== src/HttpStatus/Laws.antt =====
-- What clients of the gateway are told.
use workflowhub.Prelude.{
  ◌≡◌, ◌≢◌, ◌⊎◌, ℕ, String, true, false, Option, none, some, arith, num, Error,
}
use workflowhub.HttpStatus.{error_filter, to_http_status, is_open_circuit}

-- A status that the gateway itself makes up.
abbrev pub IsMapped : ℕ → Type 0
IsMapped n = (n ≡ 400) ⊎ (n ≡ 401) ⊎ (n ≡ 404) ⊎ (n ≡ 409) ⊎ (n ≡ 500) ⊎ (n ≡ 503) ⊎ (n ≡ 504)

module _ (number : String → Option ℕ) where
  -- An error that carries neither `status` nor `statusCode` is answered by one of seven statuses.
  pub to_http_status-IsMapped :
      (e : Error) → e.status ≡ none → e.status_code ≡ none → IsMapped (to_http_status number e)
  unfolding to_http_status
  to_http_status-IsMapped e p q = ground arith

  -- An error that the breaker does not count as a failure of the service, that carries no status and
  -- has none of the breaker's own names, is never answered by 503 or 504.
  pub to_http_status-error_filter :
      (e : Error)
      → error_filter e ≡ true
      → is_open_circuit e ≡ false
      → e.status ≡ none
      → e.status_code ≡ none
      → (to_http_status number e ≢ 503) × (to_http_status number e ≢ 504)
  unfolding to_http_status error_filter
  to_http_status-error_filter e f o p q = ground arith

  -- A business error of a service, which arrives with the gRPC code UNKNOWN and no status, is kept out
  -- of the breaker's failures, and is answered by 500 whatever its message, unless it has one of
  -- the breaker's own names.
  pub to_http_status_unknown :
      (e : Error)
      → e.code ≡ some (num 2)
      → is_open_circuit e ≡ false
      → e.status ≡ none
      → e.status_code ≡ none
      → (error_filter e ≡ true) × (to_http_status number e ≡ 500)
  unfolding to_http_status error_filter
  to_http_status_unknown e c o p q = ground arith

  -- A numeric `status` decides over a numeric `statusCode` that is not 0, also when it is 0 itself: the
  -- `statusCode` only makes the test pass, and the answer is the status.
  pub to_http_status_both :
      (e : Error) (n m : ℕ)
      → e.status ≡ some (num n)
      → e.status_code ≡ some (num m)
      → m ≢ 0
      → to_http_status number e ≡ n
  unfolding to_http_status
  to_http_status_both e n m p q h = ground arith
