-- ===== src/Memory/World.antt =====
-- The in-memory platform: four tables and a map of texts.
pub mod Laws
use mathlib.Core.List.{Memᴰ}
use nestjs_team_tasks_api.Prelude.{
  ℕ, zero, suc, String, Bool, true, false, Option, none, some, List, [], ◌∷◌, map, ◌≡◌, refl, sym,
  ap, arith, ◌==◌, string_eq, nat_eq, if◌then◌else◌,
}
use nestjs_team_tasks_api.Js.{absent, value, template}
use nestjs_team_tasks_api.Js.Number.{ℤ, pos, show_int, parse_int}
use nestjs_team_tasks_api.Entities.{
  Organization, User, Project, Task, TaskObject, UserObject, ProjectObject, OrganizationObject,
}
use nestjs_team_tasks_api.Exec.{Result, ok, throw, other_error, Failure}
use nestjs_team_tasks_api.Platform.{
  Repository, RedisClient, Platform, World, Criteria, Part, num, txt, matches_task,
}
use nestjs_team_tasks_api.Memory.Repository.{Store, repository}
use nestjs_team_tasks_api.Memory.Kinds.{organization_kind, user_kind, project_kind, task_kind}

pub record Db : Type 0 where
  pub organizations : Store organization_kind
  pub users : Store user_kind
  pub projects : Store project_kind
  pub tasks : Store task_kind

-- a repository over one table of a database
abbrev pub on_table : {S A : Type 0} → (S → Db → Db) → Result A × S → Db → Result A × Db
on_table put (a, s) db = (a, put s db)

module _ {S Row Object : Type 0} (get : Db → S) (put : S → Db → Db)
    (r : Repository S Row Object) where
  abbrev pub part_of : Repository Db Row Object
  part_of = record {
    rows = λ db. r.rows (get db);
    find_one = λ c db. r.find_one c (get db);
    exists = λ c db. r.exists c (get db);
    find = λ c db. r.find c (get db);
    find_and_count = λ o db. r.find_and_count o (get db);
    create = r.create;
    save = λ o db. on_table put (r.save o (get db)) db;
    update = λ c o db. on_table put (r.update c o (get db)) db;
    soft_delete = λ c db. on_table put (r.soft_delete c (get db)) db;
  }

abbrev pub tasks_table : Repository Db Task TaskObject
tasks_table = part_of (λ db. db.tasks) (λ s db. record db { tasks = s }) (repository task_kind)

abbrev pub users_table : Repository Db User UserObject
users_table = part_of (λ db. db.users) (λ s db. record db { users = s }) (repository user_kind)

abbrev pub projects_table : Repository Db Project ProjectObject
projects_table =
    part_of (λ db. db.projects) (λ s db. record db { projects = s }) (repository project_kind)

abbrev pub organizations_table : Repository Db Organization OrganizationObject
organizations_table =
    part_of (λ db. db.organizations) (λ s db. record db { organizations = s })
      (repository organization_kind)

-- Redis, with no expiry
abbrev pub Redis : Type 0
Redis = String → Option String

abbrev pub put_key : String → String → Redis → Redis
put_key k v redis j = if k == j then some v else redis j

-- INCR of a key that holds an integer, or nothing
abbrev pub incr_parsed : Option ℤ → String → Redis → Result ℕ × Redis
incr_parsed (some (pos n)) k redis = (ok (suc n), put_key k (show_int (pos (suc n))) redis)
incr_parsed _ k redis = (throw (other_error "ERR value is not an integer"), redis)

abbrev pub incr_held : Option String → String → Redis → Result ℕ × Redis
incr_held none k redis = (ok 1, put_key k (show_int (pos 1)) redis)
incr_held (some raw) k redis = incr_parsed (parse_int raw) k redis

abbrev pub redis_client : RedisClient Redis
redis_client = record {
  stored = λ redis k. redis k;
  get = λ k redis. ok (redis k);
  set_ex = λ k v ttl redis. (ok tt, put_key k v redis);
  incr = λ k redis. incr_held (redis k) k redis;
  exists = λ k redis. ok (elim (redis k) [ none ↦ 0 | some v ↦ 1 ]);
  del = λ k redis. (ok 1, λ j. if k == j then none else redis j);
}

pub part_text : String × Part → String
part_text (k, num n) = template (k ∷ "=" ∷ show_int (pos n) ∷ ";" ∷ [])
part_text (k, txt s) = template (k ∷ "=" ∷ s ∷ ";" ∷ [])

pub parts_text : List (String × Part) → String
unfolding part_text
parts_text [] = ""
parts_text (e ∷ es) = template (part_text e ∷ parts_text es ∷ [])

-- list responses are not kept: each text is malformed
abbrev pub platform : Platform
platform = record {
  Db = Db;
  Redis = Redis;
  organizations = organizations_table;
  users = users_table;
  projects = projects_table;
  tasks = tasks_table;
  client = redis_client;
  stringify_list = λ v. "";
  parse_list = λ raw. throw (other_error "malformed");
  digest = parts_text;
  hash_password = λ password. ok password;
  tasks_list_cache_ttl_sec = ok 300;
}
