-- ===== src/App/Create.antt =====
-- src/tape_service/main.py: `create_app`, what the application is put together from. The routers
-- stand for the modules of src/tape_service/api.
use s3p_tape_service.Prelude.{Bool, true, Option, none, some, List, [], ◌∷◌}
use s3p_tape_service.Prelude.Text.{Text, codes}
use s3p_tape_service.Stdlib.{Stdlib, Json}
use s3p_tape_service.Api.Cors.{cors_allow_origins_from_env}

pub data Router : Type 0 where
  health_router auth_router config_router tape_router ws_router : Router

-- The arguments of `add_middleware(CORSMiddleware, ...)`
pub record CorsMiddleware : Type 0 where
  pub allow_origins : List Text
  pub allow_credentials : Bool
  pub allow_methods : List Text
  pub allow_headers : List Text

-- `handles_api_error` is whether `api_error_handler` answers an `ApiError`.
pub record App : Type 0 where
  pub title : Text
  pub version : Text
  pub cors : Option CorsMiddleware
  pub handles_api_error : Bool
  pub routers : List Router

-- `if origins: app.add_middleware(...)`
unfoldable pub cors_for : List Text → Option CorsMiddleware
cors_for [] = none
cors_for (o ∷ origins) = some (record {
  allow_origins = o ∷ origins;
  allow_credentials = true;
  allow_methods = codes "GET" ∷ codes "POST" ∷ codes "PUT" ∷ codes "OPTIONS" ∷ [];
  allow_headers = codes "content-type" ∷ [];
})

unfoldable pub create_app : Stdlib → (Text → Text) → (Json → Text) → Option Text → App
unfolding cors_for cors_allow_origins_from_env
create_app lib strip show raw = record {
  title = codes "S3 Platform Tape Service";
  version = codes "0.1.0";
  cors = cors_for (cors_allow_origins_from_env lib strip show raw);
  handles_api_error = true;
  routers = health_router ∷ auth_router ∷ config_router ∷ tape_router ∷ ws_router ∷ [];
}
