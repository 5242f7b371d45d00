-- ===== src/Auth/Guard.antt =====
-- libs/auth/src/jwt-auth.guard.ts and jwt.service.ts: the guard of the routes that need a user.
pub mod Header
use Prim.Native.Char.{Char, code}
use workflowhub.Prelude.{
  ℕ, String, nat_beq, Option, none, some, List, [], ◌∷◌, truthy_value, split_on, second, Error, num,
  Result, ok, err, if◌then◌else◌,
}
use workflowhub.Auth.{JwtPayload}

abbrev pub unauthorized : String → Error
unauthorized message = record {
  name = some "UnauthorizedException";
  message = some message;
  details = none;
  code = none;
  status = some (num 401);
  status_code = none;
}

-- The `catch` of the guard hides what was wrong with the token.
abbrev pub hide_error : Result JwtPayload → Result JwtPayload
hide_error (ok payload) = ok payload
hide_error (err e) = err (unauthorized "Invalid token")

-- The guard sets `request.user` to the payload, or throws. `verify` is that of `@nestjs/jwt`.
pub can_activate : (String → Result JwtPayload) → Option String → Result JwtPayload
unfolding split_on
can_activate verify header = elim (truthy_value header) [
  | none ↦ err (unauthorized "Token missing")
  | some auth_header ↦ elim (truthy_value (second (split_on b' ' auth_header))) [
    | none ↦ err (unauthorized "Invalid token")
    | some token ↦ hide_error (verify token)
  ]
]
