-- ===== src/Platform/Laws.antt =====
-- The documented behaviour of TypeORM and of PostgreSQL's primary keys, as hypotheses of theorems.
use nestjs_team_tasks_api.Prelude.{
  ℕ, suc, String, Bool, true, false, none, Option, some, List, ◌∷◌, map, ◌≡◌, ◌≢◌, ◌⊎◌, All, keep,
  take, drop, length, ◌==◌, string_eq, if◌then◌else◌,
}
use mathlib.Core.List.{Memᴰ, Permᴰ}
use nestjs_team_tasks_api.Js.{absent, value}
use nestjs_team_tasks_api.Js.Number.{pos, show_int, parse_int}
use nestjs_team_tasks_api.Entities.{
  Date, Task, TaskObject, User, UserObject, Project, ProjectObject, Organization,
  OrganizationObject,
}
use nestjs_team_tasks_api.Exec.{Failure, ok, throw}
use nestjs_team_tasks_api.Platform.Types.{Repository, RedisClient, Criteria, FindOptions}
use nestjs_team_tasks_api.Platform.Rows.{
  Shape, task_shape, user_shape, project_shape, organization_shape,
}

-- What the queries of a repository return, if they return.
pub record QueryLaws {Db Row Object : Type 0} (r : Repository Db Row Object) (id_of : Row → String)
    (matches : Criteria → Row → Bool) : Type 0 where
  pub primary_key :
      (db : Db) (a b : Row) → Memᴰ a (r.rows db) → Memᴰ b (r.rows db) → id_of a ≡ id_of b → a ≡ b
  pub find_one_some :
      (c : Criteria) (db : Db) (row : Row)
      → r.find_one c db ≡ ok (some row)
      → Memᴰ row (r.rows db) × (matches c row ≡ true)
  pub find_one_none :
      (c : Criteria) (db : Db) (row : Row)
      → r.find_one c db ≡ ok none
      → Memᴰ row (r.rows db)
      → matches c row ≡ false
  pub exists_true :
      (c : Criteria) (db : Db)
      → r.exists c db ≡ ok true
      → (row : Row) × Memᴰ row (r.rows db) × (matches c row ≡ true)
  pub exists_false :
      (c : Criteria) (db : Db) (row : Row)
      → r.exists c db ≡ ok false
      → Memᴰ row (r.rows db)
      → matches c row ≡ false
  pub find_perm :
      (c : Criteria) (db : Db) (found : List Row)
      → r.find c db ≡ ok found
      → Permᴰ found (keep (matches c) (r.rows db))
  pub page_of :
      (o : FindOptions) (db : Db) (page : List Row) (total : ℕ)
      → r.find_and_count o db ≡ ok (page, total)
      → (listed : List Row) × Permᴰ listed (keep (matches o.criteria) (r.rows db))
        × (page ≡ take o.take (drop o.skip listed))
        × (total ≡ length listed)

-- what the queries and the writes of a repository do
pub record RowLaws {Db Row Object : Type 0} (r : Repository Db Row Object)
    (shape : Shape Row Object) : Type 0 where
  pub queries : QueryLaws r shape.id_of shape.matches
  pub open queries use *
  -- a statement that fails is rolled back
  pub save_throws :
      (o : Object) (db db' : Db) (e : Failure)
      → r.save o db ≡ (throw e, db')
      → r.rows db' ≡ r.rows db
  pub save_new :
      (o o' : Object) (db db' : Db)
      → shape.object_id o ≡ absent
      → r.save (r.create o) db ≡ (ok o', db')
      → (t : Row) × shape.Inserted o t
        × (o' ≡ shape.load t)
        × (r.rows db' ≡ t ∷ r.rows db)
        × All (λ s. shape.id_of s ≢ shape.id_of t) (r.rows db)
  pub save_old :
      (o o' : Object) (db db' : Db) (t : Row)
      → Memᴰ t (r.rows db)
      → shape.object_id o ≡ value (shape.id_of t)
      → r.save o db ≡ (ok o', db')
      → (now : Date) × (o' ≡ shape.stamp now o)
        × (r.rows db'
            ≡ map
                (λ s. if shape.id_of s == shape.id_of t then shape.write now o s else s)
                (r.rows db))
  pub soft_delete_throws :
      (c : Criteria) (db db' : Db) (e : Failure)
      → r.soft_delete c db ≡ (throw e, db')
      → r.rows db' ≡ r.rows db
  pub soft_delete_ok :
      (c : Criteria) (db db' : Db)
      → r.soft_delete c db ≡ (ok tt, db')
      → (now : Date) × (r.rows db'
          ≡ map (λ s. if shape.matches c s then shape.retire now s else s) (r.rows db))
  pub update_throws :
      (c : Criteria) (o : Object) (db db' : Db) (e : Failure)
      → r.update c o db ≡ (throw e, db')
      → r.rows db' ≡ r.rows db
  pub update_ok :
      (c : Criteria) (o : Object) (db db' : Db) (n : ℕ)
      → r.update c o db ≡ (ok n, db')
      → (now : Date) × (n ≡ length (keep (shape.matches c) (r.rows db)))
        × (r.rows db' ≡ map (λ s. if shape.matches c s then shape.write now o s else s) (r.rows db))

abbrev pub TaskLaws : {Db : Type 0} → Repository Db Task TaskObject → Type 0
TaskLaws r = RowLaws r task_shape

abbrev pub UserLaws : {Db : Type 0} → Repository Db User UserObject → Type 0
UserLaws r = RowLaws r user_shape

abbrev pub ProjectLaws : {Db : Type 0} → Repository Db Project ProjectObject → Type 0
ProjectLaws r = RowLaws r project_shape

abbrev pub OrganizationLaws : {Db : Type 0} → Repository Db Organization OrganizationObject → Type 0
OrganizationLaws r = RowLaws r organization_shape

-- What a Redis client documents of GET, SET, INCR, DEL and EXISTS. A key that holds no integer makes INCR fail.
pub record RedisLaws {Redis : Type 0} (client : RedisClient Redis) : Type 0 where
  pub get_stored :
      (k : String) (redis : Redis) (found : Option String)
      → client.get k redis ≡ ok found
      → found ≡ client.stored redis k
  pub incr_writes :
      (k : String) (redis redis' : Redis) (n : ℕ)
      → client.incr k redis ≡ (ok n, redis')
      → client.stored redis' k ≡ some (show_int (pos n))
  pub incr_new :
      (k : String) (redis redis' : Redis) (n : ℕ)
      → client.incr k redis ≡ (ok n, redis')
      → client.stored redis k ≡ none
      → n ≡ 1
  pub incr_old :
      (k : String) (redis redis' : Redis) (n m : ℕ) (raw : String)
      → client.incr k redis ≡ (ok n, redis')
      → client.stored redis k ≡ some raw
      → parse_int raw ≡ some (pos m)
      → n ≡ suc m
  pub incr_integer :
      (k : String) (redis redis' : Redis) (n : ℕ) (raw : String)
      → client.incr k redis ≡ (ok n, redis')
      → client.stored redis k ≡ some raw
      → parse_int raw ≢ none
  pub set_ex_writes :
      (k v : String) (ttl : ℕ) (redis redis' : Redis)
      → client.set_ex k v ttl redis ≡ (ok tt, redis')
      → client.stored redis' k ≡ some v
  -- a write of one key adds no other, also when it throws
  pub set_ex_others :
      (k v : String) (ttl : ℕ) (redis : Redis) (other held : String)
      → client.stored (client.set_ex k v ttl redis).1 other ≡ some held
      → (other ≡ k) ⊎ (client.stored redis other ≡ some held)
  pub del_others :
      (k : String) (redis : Redis) (other held : String)
      → client.stored (client.del k redis).1 other ≡ some held
      → client.stored redis other ≡ some held
  pub del_removes :
      (k : String) (redis redis' : Redis) (n : ℕ)
      → client.del k redis ≡ (ok n, redis')
      → client.stored redis' k ≡ none
  pub exists_none :
      (k : String) (redis : Redis) (n : ℕ)
      → client.exists k redis ≡ ok n
      → client.stored redis k ≡ none
      → n ≡ 0
  pub exists_some :
      (k v : String) (redis : Redis) (n : ℕ)
      → client.exists k redis ≡ ok n
      → client.stored redis k ≡ some v
      → n ≡ 1
