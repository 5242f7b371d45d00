-- ===== src/Auth.antt =====
-- The accounts of WorkflowHub: apps/auth-service and libs/auth.
pub mod Controller
pub mod Service
pub mod Guard
pub mod Jwt
pub mod Session
use workflowhub.Prelude.{String, Option, some, none, truthy, ◌&&◌, if◌then◌else◌}

-- apps/auth-service/src/schema/auth.schema.ts
pub record Auth : Type 0 where
  pub name : String
  pub email : String
  pub password : String

-- The schema: all three fields are required, and an empty one fails the validation.
unfoldable pub auth_document : String → String → String → Option Auth
auth_document name email password =
    if truthy name && truthy email && truthy password
    then some (record { name = name; email = email; password = password })
    else none

-- What a token carries.
pub record JwtPayload : Type 0 where
  pub id : String
  pub email : String
