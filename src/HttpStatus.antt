-- ===== src/HttpStatus.antt =====
-- libs/shared/src/circuit-breaker/circuit-breaker.helper.ts, `toHttpStatus` and the `errorFilter` of
-- the circuit breaker: which errors count as failures of a service, and what the client is told.
pub mod Laws
mod Tests
use workflowhub.Prelude.{
  ℕ, String, Bool, true, false, not, ◌||◌, nat_beq, truthy, ◌==◌, Option, none, some, Scalar, num,
  str, Error, if◌then◌else◌,
}

abbrev pub truthy_scalar : Option Scalar → Bool
truthy_scalar none = false
truthy_scalar (some (num n)) = not (nat_beq n 0)
truthy_scalar (some (str s)) = truthy s

-- `a ?? b`
abbrev pub coalesce : Option Scalar → Option Scalar → Option Scalar
coalesce none b = b
coalesce (some a) b = some a

-- The numbers in `serverCodes`.
abbrev pub is_server_code : ℕ → Bool
is_server_code n =
    nat_beq n 2 || nat_beq n 3 || nat_beq n 5 || nat_beq n 6 || nat_beq n 7 || nat_beq n 16

-- `true` keeps the error out of the failures that open the breaker.
pub error_filter : Error → Bool
error_filter e = elim e.code [
  | none ↦ false
  | some (num n) ↦ is_server_code n
  | some (str s) ↦ false
]

-- The `switch` on the gRPC code.
pub grpc_status : ℕ → Option ℕ
grpc_status n =
    if nat_beq n 3
    then some 400
    else if nat_beq n 5
    then some 404
    else if nat_beq n 6
    then some 409
    else if nat_beq n 16
    then some 401
    else if nat_beq n 4
    then some 504
    else if nat_beq n 14
    then some 503
    else none

abbrev pub code_status : Option Scalar → Option ℕ
code_status (some (num n)) = grpc_status n
code_status _ = none

abbrev pub is_text : Option String → String → Bool
is_text none t = false
is_text (some s) t = s == t

abbrev pub is_open_code : Option Scalar → Bool
is_open_code (some (str s)) = s == "EOPENBREAKER"
is_open_code _ = false

-- The test for an error of the breaker itself.
unfoldable pub is_open_circuit : Error → Bool
is_open_circuit e =
    is_text e.name "OpenCircuitError"
    || is_text e.message "The circuit is open"
    || is_text e.message "Breaker is open"
    || is_open_code e.code

-- What follows the test of `status` and `statusCode`.
pub mapped_status : Error → ℕ
unfolding grpc_status is_open_circuit
mapped_status e = elim (code_status e.code) [
  | some status ↦ status
  | none ↦ if is_open_circuit e then 503 else 500
]

-- `Number(text)` of JavaScript, where it is a natural number.
module _ (number : String → Option ℕ) where
  abbrev pub integer_of : Option Scalar → Option ℕ
  integer_of none = none
  integer_of (some (num n)) = some n
  integer_of (some (str s)) = number s

  unfoldable pub to_http_status : Error → ℕ
  unfolding mapped_status
  to_http_status e =
      if truthy_scalar e.status || truthy_scalar e.status_code
      then (elim (integer_of (coalesce e.status e.status_code)) [
        | some status ↦ status
        | none ↦ mapped_status e
      ])
      else mapped_status e
