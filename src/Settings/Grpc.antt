-- ===== src/Settings/Grpc.antt =====
-- The gRPC services and their clients: the main.ts of apps/auth-service, apps/task-service and
-- apps/analytics-service, and the modules of apps/api-gateway/src/{auth,task,analytics}.
use workflowhub.Prelude.{◌≡◌, refl, String, ◌<>◌, Option, or_string}
use workflowhub.Settings.{Lookup}

pub record Options : Type 0 where
  pub package_name : String
  pub proto_path : String
  pub url : String

-- `join` of path, with the directory that it is given first.
pub record Paths : Type 0 where
  pub join : String → String → String
  pub cwd : String
  pub dirname : String

module _ (P : Paths) where
  abbrev pub auth_service : Options
  auth_service = record {
    package_name = "auth";
    proto_path = P.join P.dirname "../../../libs/shared/src/proto/auth.proto";
    url = "0.0.0.0:50051";
  }

  abbrev pub task_service : Options
  task_service = record {
    package_name = "task";
    proto_path = P.join P.dirname "../../../libs/shared/src/proto/task.proto";
    url = "0.0.0.0:50052";
  }

  abbrev pub analytics_service : Options
  analytics_service = record {
    package_name = "analytics";
    proto_path = P.join P.dirname "../../../libs/shared/src/proto/analytics.proto";
    url = "0.0.0.0:50053";
  }

  -- Of the module of authentication.
  abbrev pub auth_client : Lookup → Options
  auth_client config = record {
    package_name = "auth";
    proto_path = P.join P.cwd "libs/shared/src/proto/auth.proto";
    url = or_string (config "AUTH_SERVICE_GRPC_URL") "localhost:50051";
  }

  -- Of the registration saga, and of the controller of tasks.
  abbrev pub saga_task_client : Lookup → Options
  saga_task_client config = record {
    package_name = "task";
    proto_path = P.join P.cwd "libs/shared/src/proto/task.proto";
    url = or_string (config "TASK_SERVICE_GRPC_URL") "localhost:50052";
  }

  abbrev pub task_client : Lookup → Options
  task_client config = record {
    package_name = "task";
    proto_path = P.join P.cwd "libs/shared/src/proto/task.proto";
    url = or_string (config "TASK_SERVICE_GRPC_URL") "localhost:50052";
  }

  abbrev pub analytics_client : Lookup → Options
  analytics_client config = record {
    package_name = "analytics";
    proto_path = P.join P.cwd "libs/shared/src/proto/analytics.proto";
    url = or_string (config "ANALYTICS_SERVICE_GRPC_URL") "localhost:50053";
  }

  -- The client is of the service's package, and its address is the variable's, or else the service's
  -- port on its own machine.
  abbrev pub Serves : Options → Option String → Options → Type 0
  Serves service variable client =
      (client.package_name ≡ service.package_name)
      × ((port : String) × (service.url ≡ "0.0.0.0:" <> port)
          × (client.url ≡ or_string variable ("localhost:" <> port)))

  -- Every client of the gateway finds the service whose package it calls.
  pub clients-Serves :
      (config : Lookup)
      → Serves auth_service (config "AUTH_SERVICE_GRPC_URL") (auth_client config)
        × Serves task_service (config "TASK_SERVICE_GRPC_URL") (saga_task_client config)
        × Serves task_service (config "TASK_SERVICE_GRPC_URL") (task_client config)
        × Serves analytics_service (config "ANALYTICS_SERVICE_GRPC_URL") (analytics_client config)
  clients-Serves config = (
    (refl, ("50051", refl, refl)),
    (refl, ("50052", refl, refl)),
    (refl, ("50052", refl, refl)),
    (refl, ("50053", refl, refl)),
  )
