-- ===== src/Settings/Cors.antt =====
-- Which web pages may call the gateway: enableCors of apps/api-gateway/src/main.ts, and its port.
use workflowhub.Prelude.{
  ◌≡◌, ◌↔◌, refl, ◌∙◌, ap, inl, inr, String, Bool, true, false, Option, none, some, List, ◌∷◌, map,
  ◌==◌, eq_iff, Scalar, num, str, split_on, split_on-join_with, join_with, AllLack, trim,
  Bool-cases, if◌then◌else◌,
}
use workflowhub.Settings.{Lookup}

-- The option `origin`: true, for every page, or a list.
pub data Origin : Type 0 where
  any : Origin
  these : List String → Origin

pub record CorsOptions : Type 0 where
  pub origin : Origin
  pub credentials : Bool

-- `process.env.CORS_ORIGIN ?? process.env.FRONTEND_URL ?? '*'`
abbrev pub coalesce : Option String → String → String
coalesce none text = text
coalesce (some s) text = s

abbrev pub cors_origins : Lookup → String
cors_origins env = coalesce (env "CORS_ORIGIN") (coalesce (env "FRONTEND_URL") "*")

abbrev pub origin_of : String → Origin
origin_of origins = if origins == "*" then any else these (map trim (split_on b',' origins))

abbrev pub cors_options : Lookup → CorsOptions
cors_options env = record { origin = origin_of (cors_origins env); credentials = true }

-- `process.env.PORT ?? 3000`
abbrev pub port_of : Option String → Scalar
port_of none = num 3000
port_of (some port) = str port

abbrev pub gateway_port : Lookup → Scalar
gateway_port env = port_of (env "PORT")

these-written :
    (origin : String) (origins : List String)
    → AllLack b',' (origin ∷ origins)
    → (join_with "," origin origins == "*") ≡ false
    → origin_of (join_with "," origin origins) ≡ these (map trim (origin ∷ origins))
these-written origin origins whole listed =
    rw listed (ap (λ parts. these (map trim parts)) (split_on-join_with "," origin origins whole))

-- Origins that are written with commas between them are the ones that are let in, without the white
-- space around them, if they are not the star alone.
pub cors_options-join_with :
    (env : Lookup) (origin : String) (origins : List String)
    → AllLack b',' (origin ∷ origins)
    → (join_with "," origin origins == "*") ≡ false
    → cors_origins env ≡ join_with "," origin origins
    → (cors_options env).origin ≡ these (map trim (origin ∷ origins))
cors_options-join_with env origin origins whole listed set =
    ap origin_of set ∙ these-written origin origins whole listed

-- Every page is let in, with credentials, exactly if the setting is the star, which it is where
-- neither variable is set.
pub cors_options-any : (env : Lookup) → ((cors_options env).origin ≡ any) ↔ (cors_origins env ≡ "*")
cors_options-any env = (
  λ open_door. elim (Bool-cases (cors_origins env == "*")) [
    | inl star ↦ (eq_iff (cors_origins env) "*").0 star
    | inr other ↦ absurd (cc (open_door, other))
  ],
  λ star. let same = (eq_iff (cors_origins env) "*").1 star in rw same refl,
)
