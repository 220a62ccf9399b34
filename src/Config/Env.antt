-- ===== src/Config/Env.antt =====
-- src/config/env.schema.ts and confuguration.ts: the configuration that is read from the environment.
-- The schemas of zod are its documented checks; `none` is a `parse` that throws. What a number is, and
-- which texts `Number` converts into one, are parameters.
use nestjs_team_tasks_api.Prelude.{
  ℕ, String, Bool, true, false, Option, none, some, List, [], ◌∷◌, has, string_eq, if◌then◌else◌,
}
use nestjs_team_tasks_api.Js.Case.{to_lower}
use nestjs_team_tasks_api.Js.Trim.{trim}

pub record DatabaseConfig (N : Type 0) : Type 0 where
  pub host : String
  pub port : N
  pub user : String
  pub password : String
  pub name : String

pub record RedisConfig (N : Type 0) : Type 0 where
  pub user : String
  pub user_password : String
  pub host : String
  pub port : N

pub record JwtConfig (N : Type 0) : Type 0 where
  pub access_secret : String
  pub refresh_secret : String
  pub access_ttl_sec : N
  pub refresh_ttl_sec : N

pub record SwaggerConfig : Type 0 where
  pub enabled : Bool
  pub user : Option String
  pub password : Option String

pub record Configuration (N : Type 0) : Type 0 where
  pub node_env : String
  pub port : N
  pub swagger : SwaggerConfig
  pub database : DatabaseConfig N
  pub shutdown_timeout_ms : N
  pub redis : RedisConfig N
  pub jwt : JwtConfig N
  pub tasks_list_cache_ttl_sec : N

-- `z.infer<typeof envSchema>`
pub record EnvSchema (N : Type 0) : Type 0 where
  pub node_env : String
  pub port : N
  pub swagger_enabled : Bool
  pub swagger_user : Option String
  pub swagger_password : Option String
  pub postgres_host : String
  pub postgres_port : N
  pub postgres_user : String
  pub postgres_password : String
  pub postgres_db : String
  pub shutdown_timeout_ms : N
  pub redis_user : String
  pub redis_user_password : String
  pub redis_host : String
  pub redis_port : N
  pub jwt_access_secret : String
  pub jwt_refresh_secret : String
  pub jwt_access_ttl_sec : N
  pub jwt_refresh_ttl_sec : N
  pub tasks_list_cache_ttl_sec : N

infixl 10 ◌>>=◌
unfoldable pub ◌>>=◌ : {A B : Type 0} → Option A → (A → Option B) → Option B
none >>= f = none
some a >>= f = f a

-- the words for `true` and for `false`, after `trim` and `toLowerCase`
abbrev pub words_for_true : List String
words_for_true = "true" ∷ "1" ∷ "yes" ∷ "y" ∷ []

abbrev pub words_for_false : List String
words_for_false = "false" ∷ "0" ∷ "no" ∷ "n" ∷ []

-- the preprocessing, and `z.boolean()`, which refuses a text that is left as it was
unfoldable pub bool_of_text : String → Option Bool
unfolding trim to_lower
bool_of_text text =
    let v = to_lower (trim text) in
    if has words_for_true v then some true else if has words_for_false v then some false else none

-- `boolFromEnv.default(false)`
abbrev pub bool_from_env : Option String → Option Bool
bool_from_env none = some false
bool_from_env (some text) = bool_of_text text

-- `z.enum(…)`
abbrev pub one_of_texts : List String → Option String → Option String
one_of_texts allowed none = none
one_of_texts allowed (some text) = if has allowed text then some text else none

abbrev pub configuration_of : {N : Type 0} → EnvSchema N → Configuration N
configuration_of parsed = record {
  node_env = parsed.node_env;
  port = parsed.port;
  swagger = record {
    enabled = parsed.swagger_enabled;
    user = parsed.swagger_user;
    password = parsed.swagger_password;
  };
  database = record {
    host = parsed.postgres_host;
    port = parsed.postgres_port;
    user = parsed.postgres_user;
    password = parsed.postgres_password;
    name = parsed.postgres_db;
  };
  shutdown_timeout_ms = parsed.shutdown_timeout_ms;
  redis = record {
    user = parsed.redis_user;
    user_password = parsed.redis_user_password;
    host = parsed.redis_host;
    port = parsed.redis_port;
  };
  jwt = record {
    access_secret = parsed.jwt_access_secret;
    refresh_secret = parsed.jwt_refresh_secret;
    access_ttl_sec = parsed.jwt_access_ttl_sec;
    refresh_ttl_sec = parsed.jwt_refresh_ttl_sec;
  };
  tasks_list_cache_ttl_sec = parsed.tasks_list_cache_ttl_sec;
}

module _ {N : Type 0} (of_nat : ℕ → N) (to_number : String → Option N) where
  -- `z.coerce.number()`, which refuses the `NaN` of a variable that is not set
  abbrev pub number : Option String → Option N
  number none = none
  number (some text) = to_number text

  -- `z.coerce.number().default(n)`
  abbrev pub number_or : ℕ → Option String → Option N
  number_or n none = some (of_nat n)
  number_or n (some text) = to_number text

  -- `envSchema.parse(process.env)`
  unfoldable pub env_schema : (String → Option String) → Option (EnvSchema N)
  unfolding bool_of_text ◌>>=◌
  env_schema env = do
    node_env ← one_of_texts ("development" ∷ "production" ∷ "test" ∷ []) (env "NODE_ENV")
    port ← number_or 3000 (env "PORT")
    swagger_enabled ← bool_from_env (env "SWAGGER_ENABLED")
    postgres_host ← env "POSTGRES_HOST"
    postgres_port ← number (env "POSTGRES_PORT")
    postgres_user ← env "POSTGRES_USER"
    postgres_password ← env "POSTGRES_PASSWORD"
    postgres_db ← env "POSTGRES_DB"
    shutdown_timeout_ms ← number_or 30_000 (env "SHUTDOWN_TIMEOUT_MS")
    redis_user ← env "REDIS_USER"
    redis_user_password ← env "REDIS_USER_PASSWORD"
    redis_host ← env "REDIS_HOST"
    redis_port ← number_or 6379 (env "REDIS_PORT")
    jwt_access_secret ← env "JWT_ACCESS_SECRET"
    jwt_refresh_secret ← env "JWT_REFRESH_SECRET"
    jwt_access_ttl_sec ← number_or 900 (env "JWT_ACCESS_TTL_SEC")
    jwt_refresh_ttl_sec ← number_or 604800 (env "JWT_REFRESH_TTL_SEC")
    tasks_list_cache_ttl_sec ← number_or 300 (env "TASKS_LIST_CACHE_TTL_SEC")
    some (record {
      node_env = node_env;
      port = port;
      swagger_enabled = swagger_enabled;
      swagger_user = env "SWAGGER_USER";
      swagger_password = env "SWAGGER_PASSWORD";
      postgres_host = postgres_host;
      postgres_port = postgres_port;
      postgres_user = postgres_user;
      postgres_password = postgres_password;
      postgres_db = postgres_db;
      shutdown_timeout_ms = shutdown_timeout_ms;
      redis_user = redis_user;
      redis_user_password = redis_user_password;
      redis_host = redis_host;
      redis_port = redis_port;
      jwt_access_secret = jwt_access_secret;
      jwt_refresh_secret = jwt_refresh_secret;
      jwt_access_ttl_sec = jwt_access_ttl_sec;
      jwt_refresh_ttl_sec = jwt_refresh_ttl_sec;
      tasks_list_cache_ttl_sec = tasks_list_cache_ttl_sec;
    })

  unfoldable pub configuration : (String → Option String) → Option (Configuration N)
  unfolding env_schema ◌>>=◌
  configuration env = do parsed ← env_schema env; some (configuration_of parsed)
