-- ===== src/Config/Values.antt =====
-- What a configuration that was read holds.
use nestjs_team_tasks_api.Prelude.{
  ℕ, String, true, Option, none, some, List, [], ◌∷◌, has, ◌≡◌, refl, ◌∙◌, inl, inr, ap, ◌↔◌, arith,
  string_eq, Bool-cases,
}
use nestjs_team_tasks_api.Config.Env.{
  ◌>>=◌, EnvSchema, Configuration, configuration_of, env_schema, bool_from_env, one_of_texts,
  number, number_or, configuration,
}

same_some : {A : Type 0} {a b : A} → some a ≡ some b → a ≡ b
same_some h = ground (arith, h)

>>=-eq-some :
    {A B : Type 0} (m : Option A) (f : A → Option B) {b : B}
    → (m >>= f) ≡ some b
    → (a : A) × (m ≡ some a) × (f a ≡ some b)
unfolding ◌>>=◌
>>=-eq-some none f h = ground (arith, h)
>>=-eq-some (some a) f h = (a, refl, h)

module _ {N : Type 0} (of_nat : ℕ → N) (to_number : String → Option N)
    (env : String → Option String) where
  -- a variable that must be set gives its text; one that is a number gives the number that it is
  -- converted into, or its default where it is not set
  pub record Holds (c : Configuration N) : Type 0 where
    pub node_env : env "NODE_ENV" ≡ some c.node_env
    pub node_env_known : has ("development" ∷ "production" ∷ "test" ∷ []) c.node_env ≡ true
    pub port : number_or of_nat to_number 3000 (env "PORT") ≡ some c.port
    pub swagger_enabled : bool_from_env (env "SWAGGER_ENABLED") ≡ some c.swagger.enabled
    pub swagger_user : env "SWAGGER_USER" ≡ c.swagger.user
    pub swagger_password : env "SWAGGER_PASSWORD" ≡ c.swagger.password
    pub postgres_host : env "POSTGRES_HOST" ≡ some c.database.host
    pub postgres_port : number of_nat to_number (env "POSTGRES_PORT") ≡ some c.database.port
    pub postgres_user : env "POSTGRES_USER" ≡ some c.database.user
    pub postgres_password : env "POSTGRES_PASSWORD" ≡ some c.database.password
    pub postgres_db : env "POSTGRES_DB" ≡ some c.database.name
    pub shutdown :
        number_or of_nat to_number 30_000 (env "SHUTDOWN_TIMEOUT_MS") ≡ some c.shutdown_timeout_ms
    pub redis_user : env "REDIS_USER" ≡ some c.redis.user
    pub redis_user_password : env "REDIS_USER_PASSWORD" ≡ some c.redis.user_password
    pub redis_host : env "REDIS_HOST" ≡ some c.redis.host
    pub redis_port : number_or of_nat to_number 6379 (env "REDIS_PORT") ≡ some c.redis.port
    pub access_secret : env "JWT_ACCESS_SECRET" ≡ some c.jwt.access_secret
    pub refresh_secret : env "JWT_REFRESH_SECRET" ≡ some c.jwt.refresh_secret
    pub access_ttl :
        number_or of_nat to_number 900 (env "JWT_ACCESS_TTL_SEC") ≡ some c.jwt.access_ttl_sec
    pub refresh_ttl :
        number_or of_nat to_number 604800 (env "JWT_REFRESH_TTL_SEC") ≡ some c.jwt.refresh_ttl_sec
    pub cache_ttl :
        number_or of_nat to_number 300 (env "TASKS_LIST_CACHE_TTL_SEC")
        ≡ some c.tasks_list_cache_ttl_sec

  known :
      (allowed : List String) (o : Option String) (text : String)
      → one_of_texts allowed o ≡ some text
      → (o ≡ some text) × (has allowed text ≡ true)
  known allowed none text h = ground (arith, h)
  known allowed (some other) text h = elim (Bool-cases (has allowed other)) [
    | inl e ↦ let same : other ≡ text = ground (arith, e, h) in (ap some same, rw (← same) e)
    | inr e ↦ ground (arith, e, h)
  ]

  of_result : (made c : Configuration N) → Holds made → some made ≡ some c → Holds c
  of_result made c v e = let same : made ≡ c = same_some e in rw (← same) v

  configuration-Holds :
      (c : Configuration N) → configuration of_nat to_number env ≡ some c → Holds c
  unfolding configuration env_schema
  configuration-Holds c h =
      let (parsed, h0, made) = >>=-eq-some _ _ h in
      let (x1, e1, h1) = >>=-eq-some _ _ h0 in
      let (x2, e2, h2) = >>=-eq-some _ _ h1 in
      let (x3, e3, h3) = >>=-eq-some _ _ h2 in
      let (x4, e4, h4) = >>=-eq-some _ _ h3 in
      let (x5, e5, h5) = >>=-eq-some _ _ h4 in
      let (x6, e6, h6) = >>=-eq-some _ _ h5 in
      let (x7, e7, h7) = >>=-eq-some _ _ h6 in
      let (x8, e8, h8) = >>=-eq-some _ _ h7 in
      let (x9, e9, h9) = >>=-eq-some _ _ h8 in
      let (x10, e10, h10) = >>=-eq-some _ _ h9 in
      let (x11, e11, h11) = >>=-eq-some _ _ h10 in
      let (x12, e12, h12) = >>=-eq-some _ _ h11 in
      let (x13, e13, h13) = >>=-eq-some _ _ h12 in
      let (x14, e14, h14) = >>=-eq-some _ _ h13 in
      let (x15, e15, h15) = >>=-eq-some _ _ h14 in
      let (x16, e16, h16) = >>=-eq-some _ _ h15 in
      let (x17, e17, h17) = >>=-eq-some _ _ h16 in
      let (x18, e18, h18) = >>=-eq-some _ _ h17 in
      let (text, allowed) =
        known ("development" ∷ "production" ∷ "test" ∷ []) (env "NODE_ENV") x1 e1 in
      of_result _ c
        (record {
          node_env = text;
          node_env_known = allowed;
          port = e2;
          swagger_enabled = e3;
          swagger_user = refl;
          swagger_password = refl;
          postgres_host = e4;
          postgres_port = e5;
          postgres_user = e6;
          postgres_password = e7;
          postgres_db = e8;
          shutdown = e9;
          redis_user = e10;
          redis_user_password = e11;
          redis_host = e12;
          redis_port = e13;
          access_secret = e14;
          refresh_secret = e15;
          access_ttl = e16;
          refresh_ttl = e17;
          cache_ttl = e18;
        })
        (ap (λ (o : Option (EnvSchema N)). o >>= λ x. some (configuration_of x)) h18 ∙ made)

  Holds-configuration :
      (c : Configuration N) → Holds c → configuration of_nat to_number env ≡ some c
  unfolding configuration env_schema ◌>>=◌
  Holds-configuration c v = ground (arith, v)

  -- A configuration is read from the environment exactly if the environment names one of the three modes,
  -- sets every variable that is required, and each value is that of its variable, or the default of a
  -- variable with one that is not set.
  pub configuration-eq-some :
      (c : Configuration N) → (configuration of_nat to_number env ≡ some c) ↔ Holds c
  configuration-eq-some c = (configuration-Holds c, Holds-configuration c)
