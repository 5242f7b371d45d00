-- ===== src/Throttle/Client.antt =====
-- Whom a request is counted for.
use Prim.Native.Char.{Char, code}
use text.Mathlib.TextLemmas.{nil-append, cons-append}
use workflowhub.Prelude.{
  ◌≡◌, refl, String, ◌<>◌, true, none, some, truthy, trim, Lacks, split_on-append,
}
use workflowhub.Throttle.{Request, get_client_identifier}

truthy_list : (w s : String) (c : Char) → truthy (w <> String.◌∷◌ c s) ≡ true
truthy_list String.[] s c = rw nil-append refl
truthy_list (String.◌∷◌ d w) s c = rw cons-append refl

-- A request without a user ID and with an `x-forwarded-for` list of at least two entries is
-- identified by the first entry, trimmed, whatever the other entries, the address of the
-- connection and the rest of the request are.
pub get_client_identifier_forwarded :
    (r : Request) (hop rest : String) (comma : Char)
    → r.user_id ≡ none
    → code comma ≡ b','
    → Lacks b',' hop
    → r.forwarded_for ≡ some (hop <> String.◌∷◌ comma rest)
    → get_client_identifier r ≡ "ip:" <> trim hop
unfolding get_client_identifier
get_client_identifier_forwarded r hop rest comma u c l f =
    rw (u, f, truthy_list hop rest comma)
      (rw (truthy_list hop rest comma) (rw (split_on-append b',' comma hop rest c l) refl))
