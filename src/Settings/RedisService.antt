-- ===== src/Settings/RedisService.antt =====
-- libs/shared/src/redis/redis.service.ts: the client that the guards and the consumers use.
use workflowhub.Prelude.{
  ◌≡◌, refl, String, Option, none, some, or_string, truthy, ℕ, Scalar, num, str, List, [], ◌∷◌,
  ◌++◌, if◌then◌else◌,
}
use workflowhub.Settings.{Lookup}

-- `null` is `none`.
pub record Options : Type 0 where
  pub host : String
  pub port : Scalar
  pub max_retries_per_request : Option ℕ

-- ioredis: clients, and which are connected.
pub record Ioredis : Type 1 where
  pub State : Type 0
  pub Client : Type 0
  pub new_client : Options → State → Client × State
  pub disconnect : Client → State → State
  pub clients : State → List Client

-- A new client is connected; the one that came last can be taken away.
pub record IsLawful (R : Ioredis) : Type 0 where
  pub clients-new_client :
      (o : Options) (s : R.State)
      → R.clients (R.new_client o s).1 ≡ R.clients s ++ (R.new_client o s).0 ∷ []
  pub clients-disconnect :
      (c : R.Client) (cs : List R.Client) (s : R.State)
      → R.clients s ≡ cs ++ c ∷ []
      → R.clients (R.disconnect c s) ≡ cs

-- `config.get<number>('REDIS_PORT') || 6379`: a variable is a text.
abbrev pub or_port : Option String → Scalar
or_port none = num 6379
or_port (some port) = if truthy port then str port else num 6379

abbrev pub options : Lookup → Options
options config = record {
  host = or_string (config "REDIS_HOST") "localhost";
  port = or_port (config "REDIS_PORT");
  max_retries_per_request = none;
}

module _ (R : Ioredis) where
  -- The service, with the world around it. Its listeners only log.
  pub record Service : Type 0 where
    pub redis_client : Option R.Client
    pub world : R.State

  pub on_module_init : Lookup → Service → Service
  on_module_init config s =
      let (client, w) = R.new_client (options config) s.world in
      record { redis_client = some client; world = w }

  abbrev pub disconnect_client : Option R.Client → R.State → R.State
  disconnect_client none w = w
  disconnect_client (some client) w = R.disconnect client w

  pub on_module_destroy : Service → Service
  on_module_destroy s = record s { world = disconnect_client s.redis_client s.world }

  abbrev pub get_client : Service → Option R.Client
  get_client s = s.redis_client

  -- After its start the service has the client that it made, connected to the host and the port of the
  -- settings, and its end closes this connection and no other; an end without a start closes nothing.
  pub on_module_destroy-on_module_init :
      IsLawful R
      → (config : Lookup) (s : Service)
      → (get_client (on_module_init config s) ≡ some (R.new_client (options config) s.world).0)
        × (R.clients (on_module_destroy (on_module_init config s)).world ≡ R.clients s.world)
        × (on_module_destroy (record s { redis_client = none }) ≡ record s { redis_client = none })
  unfolding on_module_init on_module_destroy
  on_module_destroy-on_module_init L config s = (
    refl,
    L.clients-disconnect (R.new_client (options config) s.world).0 (R.clients s.world)
        (R.new_client (options config) s.world).1 (L.clients-new_client (options config) s.world),
    refl,
  )
