-- ===== src/Settings.antt =====
-- What the modules and the bootstraps of the services read of the environment.
mod Tests
pub mod Kafka
pub mod RedisService
pub mod Cors
pub mod Grpc
pub mod RabbitUrl
use workflowhub.Prelude.{String, Option}

-- `process.env` or `ConfigService.get`, by the name of a variable.
abbrev pub Lookup : Type 0
Lookup = String → Option String
