-- ===== src/Tests/Config.antt =====
-- The theorem on the configuration at a concrete environment.
use nestjs_team_tasks_api.Prelude.{
  ℕ, String, true, Option, none, some, [], ◌∷◌, List, ◌≡◌, ◌↔◌, refl, ◌==◌, string_eq,
  if◌then◌else◌,
}
use nestjs_team_tasks_api.Config.Env.{Configuration, configuration}
use nestjs_team_tasks_api.Config.Values.{Holds, configuration-eq-some}

abbrev variables : List (String × String)
variables =
    ("NODE_ENV", "test")
    ∷ ("SWAGGER_ENABLED", " Yes ")
    ∷ ("POSTGRES_HOST", "db")
    ∷ ("POSTGRES_PORT", "5432")
    ∷ ("POSTGRES_USER", "app")
    ∷ ("POSTGRES_PASSWORD", "secret")
    ∷ ("POSTGRES_DB", "tasks")
    ∷ ("REDIS_USER", "u")
    ∷ ("REDIS_USER_PASSWORD", "p")
    ∷ ("REDIS_HOST", "redis")
    ∷ ("JWT_ACCESS_SECRET", "a")
    ∷ ("JWT_REFRESH_SECRET", "r")
    ∷ []

abbrev look_up : List (String × String) → String → Option String
look_up [] key = none
look_up ((k, v) ∷ rest) key = if k == key then some v else look_up rest key

abbrev of_nat : ℕ → ℕ
of_nat n = n

abbrev to_number : String → Option ℕ
to_number text = if text == "5432" then some 5432 else none

abbrev from_test : Configuration ℕ
from_test = record {
  node_env = "test";
  port = 3000;
  swagger = record { enabled = true; user = none; password = none };
  database = record { host = "db"; port = 5432; user = "app"; password = "secret"; name = "tasks" };
  shutdown_timeout_ms = 30_000;
  redis = record { user = "u"; user_password = "p"; host = "redis"; port = 6379 };
  jwt = record {
    access_secret = "a";
    refresh_secret = "r";
    access_ttl_sec = 900;
    refresh_ttl_sec = 604800;
  };
  tasks_list_cache_ttl_sec = 300;
}

configuration_run : configuration of_nat to_number (look_up variables) ≡ some from_test
unfolding configuration
configuration_run = refl

configuration-eq-some_example :
    (configuration of_nat to_number (look_up variables) ≡ some from_test)
    ↔ Holds of_nat to_number (look_up variables) from_test
configuration-eq-some_example = configuration-eq-some of_nat to_number (look_up variables) from_test
