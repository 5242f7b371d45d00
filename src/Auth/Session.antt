-- ===== src/Auth/Session.antt =====
-- The way of a token through the system: issued by the auth service, accepted by the gateway.
use Prim.Native.Char.{Char, code}
use workflowhub.Prelude.{Lacks, ◌≡◌, ◌<◌, ◌+◌, ◌∙◌, ap, sym, String, ◌<>◌, true, some, truthy, ok}
use workflowhub.Auth.Guard.{can_activate, hide_error}
use workflowhub.Auth.Guard.Header.{can_activate_header}
use workflowhub.Auth.Service.{
  Backend, IsLawful, RegisterBody, Registration, LoginResponse, payload_of, register, login,
}
use workflowhub.Auth.Service.Tokens.{IsHealthy, SignsWith, credentials, login-register}
use workflowhub.Auth.Jwt.{JwtService, IsSigner, verify}
use workflowhub.Settings.{Lookup}

module _ (B : Backend) (L : IsLawful B) (J : JwtService) (I : IsSigner J) (config : Lookup)
    (K : SignsWith B J config) (body : RegisterBody) (s : B.State) where
  -- If a registration returns a user, and the services answer, then the token of a login with the same
  -- address and password lets a request through the guard of a gateway with the same secret as that
  -- user, for a day from the start of the registration, in a header with any scheme, if neither the
  -- scheme nor the token is empty or holds a space.
  pub can_activate-login :
      (c : Registration) (l : LoginResponse) (gateway : Lookup) (t : J.State) (space : Char)
      (scheme : String)
      → IsHealthy B c.user
      → config "JWT_SECRET" ≡ gateway "JWT_SECRET"
      → (register B body s).0 ≡ ok c
      → (login B (credentials body) (register B body s).1).0 ≡ ok l
      → J.now t < J.now (K.clock s) + 86400
      → code space ≡ b' '
      → Lacks b' ' scheme
      → truthy scheme ≡ true
      → Lacks b' ' l.token
      → truthy l.token ≡ true
      → can_activate (λ k. verify J gateway k t) (some (scheme <> String.◌∷◌ space l.token))
        ≡ ok (payload_of c.user)
  can_activate-login c l gateway t space scheme H one registered logged_in young blank p shown q
        given =
      let (l', logged_in', verified, _) =
        login-register B L J I config K body s c gateway t H one registered young in
      let same : l'.token ≡ l.token = same_token l' l (sym logged_in' ∙ logged_in) in
      can_activate_header (λ k. verify J gateway k t) space scheme l.token blank p q shown given
      ∙ ap hide_error (ap (λ k. verify J gateway k t) (sym same) ∙ verified)
    where
      same_token : (l' l : LoginResponse) → ok l' ≡ ok l → l'.token ≡ l.token
      same_token l' l e = cc
