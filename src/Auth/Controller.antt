-- ===== src/Auth/Controller.antt =====
-- apps/auth-service/src/auth/auth.controller.ts: the gRPC handlers of the auth service.
use workflowhub.Prelude.{String, Promise, ◌>>=◌, pure}
use workflowhub.Auth.Service.{
  Backend, RegisterBody, LoginBody, Registration, LoginResponse, register, login, delete_user,
}

pub record UserResponse : Type 0 where
  pub id : String
  pub name : String
  pub email : String

pub record RegisterResponse : Type 0 where
  pub token : String
  pub message : String
  pub user : UserResponse

pub record DeletionResponse : Type 0 where
  pub message : String

-- The answer to a registration, which leaves the hash of the password out.
abbrev pub to_response : Registration → RegisterResponse
to_response result = record {
  token = result.token;
  message = result.message;
  user = record {
    id = result.user.id;
    name = result.user.fields.name;
    email = result.user.fields.email;
  };
}

module _ (B : Backend) where
  abbrev pub grpc_register : RegisterBody → Promise B.State RegisterResponse
  grpc_register body = do result ← register B body; pure (to_response result)

  abbrev pub grpc_login : LoginBody → Promise B.State LoginResponse
  grpc_login body = do
    result ← login B body
    pure (record { token = result.token; message = result.message })

  abbrev pub grpc_delete_user : String → Promise B.State DeletionResponse
  grpc_delete_user user_id = do
    result ← delete_user B user_id
    pure (record { message = result.message })
