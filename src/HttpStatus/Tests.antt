-- ===== src/HttpStatus/Tests.antt =====
-- The theorems at errors that services and the breaker throw.
use workflowhub.Prelude.{refl, ◌≢◌, ℕ, String, Option, none, some, num, Error}
use workflowhub.HttpStatus.{error_filter, to_http_status, is_open_circuit}
use workflowhub.HttpStatus.Laws.{to_http_status-error_filter}

abbrev no_number : String → Option ℕ
no_number s = none

abbrev grpc_error : ℕ → String → Error
grpc_error n message = record {
  name = some "Error";
  message = some message;
  details = some message;
  code = some (num n);
  status = none;
  status_code = none;
}

to_http_status-error_filter_example :
    (to_http_status no_number (grpc_error 5 "User not found") ≢ 503)
    × (to_http_status no_number (grpc_error 5 "User not found") ≢ 504)
unfolding error_filter is_open_circuit
to_http_status-error_filter_example =
    to_http_status-error_filter no_number (grpc_error 5 "User not found") refl refl refl refl
