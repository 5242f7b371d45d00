-- ===== src/Auth/Jwt.antt =====
-- libs/auth/src/jwt.module.ts and jwt.service.ts: the tokens of both the auth service and the gateway.
use workflowhub.Prelude.{◌≡◌, ◌<◌, ◌+◌, ◌∙◌, ap, sym, ℕ, arith, String, Option, Result, ok, Promise}
use workflowhub.Auth.{JwtPayload}
use workflowhub.Settings.{Lookup}

pub record JwtOptions : Type 0 where
  pub secret : Option String
  pub expires_in : String

-- The factory of `JwtModule.registerAsync`.
abbrev pub jwt_options : Lookup → JwtOptions
jwt_options config = record { secret = config "JWT_SECRET"; expires_in = "1d" }

-- `JwtService` of @nestjs/jwt, with the options of its module, the clock in seconds, and how many
-- seconds a text such as "1d" is.
pub record JwtService : Type 1 where
  pub State : Type 0
  pub now : State → ℕ
  pub seconds : String → ℕ
  pub sign_with : JwtOptions → JwtPayload → Promise State String
  pub verify_with : JwtOptions → String → State → Result JwtPayload

module _ (J : JwtService) (config : Lookup) where
  abbrev pub sign : JwtPayload → Promise J.State String
  sign payload = J.sign_with (jwt_options config) payload

  abbrev pub verify : String → J.State → Result JwtPayload
  verify token s = J.verify_with (jwt_options config) token s

-- A token holds what was signed, for a reader with the same options, until the time that it was
-- signed for is over. "1d" is a day.
pub record IsSigner (J : JwtService) : Type 0 where
  pub a_day : J.seconds "1d" ≡ 86400
  pub verify_signed :
      (o : JwtOptions) (payload : JwtPayload) (token : String) (s t : J.State)
      → (J.sign_with o payload s).0 ≡ ok token
      → J.now t < J.now s + J.seconds o.expires_in
      → J.verify_with o token t ≡ ok payload

-- A process with one secret reads the tokens of another for a day.
pub verify-sign :
    (J : JwtService) (I : IsSigner J) (signer reader : Lookup) (payload : JwtPayload)
    (token : String) (s t : J.State)
    → signer "JWT_SECRET" ≡ reader "JWT_SECRET"
    → (sign J signer payload s).0 ≡ ok token
    → J.now t < J.now s + 86400
    → verify J reader token t ≡ ok payload
verify-sign J I signer reader payload token s t one signed young =
    let same : jwt_options signer ≡ jwt_options reader =
      ap (λ secret. record { secret = secret; expires_in = "1d" }) one in
    ap (λ o. J.verify_with o token t) (sym same)
    ∙ I.verify_signed (jwt_options signer) payload token s t signed (omega (arith, I.a_day))
