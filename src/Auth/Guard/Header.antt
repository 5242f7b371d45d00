-- ===== src/Auth/Guard/Header.antt =====
-- Which headers the guard accepts.
use Prim.Native.Char.{Char, code}
use workflowhub.Prelude.{
  Lacks, split_on-Lacks, split_on-append, truthy-append, ◌≡◌, String, ◌<>◌, true, some, truthy,
  Result,
}
use workflowhub.Auth.{JwtPayload}
use workflowhub.Auth.Guard.{can_activate, hide_error}

-- The header `scheme token` is answered as the verification of the token says, whatever the scheme
-- is, if neither holds a space and neither is empty: a payload is passed on, and an error of the
-- verification becomes the status 401.
pub can_activate_header :
    (verify : String → Result JwtPayload) (space : Char) (scheme token : String)
    → code space ≡ b' '
    → Lacks b' ' scheme
    → Lacks b' ' token
    → truthy scheme ≡ true
    → truthy token ≡ true
    → can_activate verify (some (scheme <> String.◌∷◌ space token)) ≡ hide_error (verify token)
unfolding can_activate
can_activate_header verify space scheme token blank p q shown given =
    let whole = truthy-append scheme (String.◌∷◌ space token) shown in
    let parts = split_on-append b' ' space scheme token blank p in
    rw (can_activate, whole, parts, split_on-Lacks b' ' token q, given)
