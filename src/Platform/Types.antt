-- ===== src/Platform/Types.antt =====
-- What the program calls and does not implement: TypeORM's repositories over PostgreSQL, the Redis
-- client, JSON texts, and the hashes of node:crypto and bcrypt. They are operations that the
-- services take as a parameter, the record `Platform`; `Platform.Laws` states the documented
-- behaviour that theorems assume.
use nestjs_team_tasks_api.Prelude.{ℕ, String, Bool, Option, none, List}
use nestjs_team_tasks_api.Entities.{
  Organization, User, Project, Task, OrganizationObject, UserObject, ProjectObject, TaskObject,
  UserRole, TaskStatus, TaskPriority, Date,
}
use nestjs_team_tasks_api.Tasks.Dto.{ListTasksResponseDto}
use nestjs_team_tasks_api.Exec.{Result, Exec}

-- A condition on a column in a `where`: a plain value, or one of TypeORM's find operators.
pub data FindOperator (A : Type 0) : Type 0 where
  equal : A → FindOperator A
  is_null : FindOperator A
  one_of : List A → FindOperator A
  less_than : A → FindOperator A
  negated : FindOperator A → FindOperator A

-- The columns that a `where` of this program may constrain; `none` constrains nothing.
pub record Criteria : Type 0 where
  pub id : Option (FindOperator String)
  pub name : Option (FindOperator String)
  pub email : Option (FindOperator String)
  pub role : Option (FindOperator UserRole)
  pub organization_id : Option (FindOperator String)
  pub assignee_id : Option (FindOperator String)
  pub status : Option (FindOperator TaskStatus)
  pub priority : Option (FindOperator TaskPriority)
  pub due_date : Option (FindOperator Date)
  pub deleted_at : Option (FindOperator Date)

pub data Order : Type 0 where
  created_at_desc : Order

-- the argument of `findAndCount`
pub record FindOptions : Type 0 where
  pub criteria : Criteria
  pub skip : ℕ
  pub take : ℕ
  pub order : Order

-- A repository of rows `Row`, saved from objects `Object`. `rows` is what the table holds, the
-- soft-deleted rows too; the program never calls it.
pub record Repository (Db Row Object : Type 0) : Type 0 where
  pub rows : Db → List Row
  pub find_one : Criteria → Db → Result (Option Row)
  pub exists : Criteria → Db → Result Bool
  pub find : Criteria → Db → Result (List Row)
  pub find_and_count : FindOptions → Db → Result (List Row × ℕ)
  pub create : Object → Object
  pub save : Object → Db → Result Object × Db
  pub update : Criteria → Object → Db → Result ℕ × Db
  pub soft_delete : Criteria → Db → Result (Unit {0}) × Db

-- The ioredis client. An operation may throw when Redis is down. `stored` is the text that lives
-- at a key; the program never calls it.
pub record RedisClient (Redis : Type 0) : Type 0 where
  pub stored : Redis → String → Option String
  pub get : String → Redis → Result (Option String)
  pub set_ex : String → String → ℕ → Redis → Result (Unit {0}) × Redis
  pub incr : String → Redis → Result ℕ × Redis
  pub exists : String → Redis → Result ℕ
  pub del : String → Redis → Result ℕ × Redis

pub record World (Db Redis : Type 0) : Type 0 where
  pub db : Db
  pub redis : Redis

-- a value in a JSON text
pub data Part : Type 0 where
  num : ℕ → Part
  txt : String → Part

pub record Platform : Type 1 where
  pub Db : Type 0
  pub Redis : Type 0
  pub organizations : Repository Db Organization OrganizationObject
  pub users : Repository Db User UserObject
  pub projects : Repository Db Project ProjectObject
  pub tasks : Repository Db Task TaskObject
  pub client : RedisClient Redis
  -- `JSON.stringify` of a list response, and `JSON.parse`, which throws on a malformed text
  pub stringify_list : ListTasksResponseDto → String
  pub parse_list : String → Result ListTasksResponseDto
  -- `createHash('sha1').update(JSON.stringify(parts)).digest('hex').slice(0, 16)`
  pub digest : List (String × Part) → String
  -- `bcrypt.hash(password, 10)`
  pub hash_password : String → Result String
  -- `configService.getOrThrow('tasksListCacheTtlSec')`
  pub tasks_list_cache_ttl_sec : Result ℕ

-- a query, and a write, of one of the two stores
module _ {Db Redis A : Type 0} where
  abbrev pub query : (Db → Result A) → Exec (World Db Redis) A
  query f w = (f w.db, w)

  abbrev pub run : (Db → Result A × Db) → Exec (World Db Redis) A
  run f w = let (r, db') = f w.db in (r, record w { db = db' })

  abbrev pub ask_redis : (Redis → Result A) → Exec (World Db Redis) A
  ask_redis f w = (f w.redis, w)

  abbrev pub run_redis : (Redis → Result A × Redis) → Exec (World Db Redis) A
  run_redis f w = let (r, redis') = f w.redis in (r, record w { redis = redis' })

-- a `where` with no condition, to which the code adds its own
abbrev pub any_row : Criteria
any_row = record {
  id = none;
  name = none;
  email = none;
  role = none;
  organization_id = none;
  assignee_id = none;
  status = none;
  priority = none;
  due_date = none;
  deleted_at = none;
}
