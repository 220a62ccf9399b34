-- ===== src/Memory/World/Laws.antt =====
-- The tables of the in-memory platform have the laws of TypeORM's repositories.
use nestjs_team_tasks_api.Js.Number.{ℤ, pos, negsuc, show_int, parse_int}
use nestjs_team_tasks_api.Prelude.{
  ℕ, suc, String, Option, none, some, ◌≢◌, arith, eq_iff, ◌≡◌, refl, ap, sym, ◌∙◌, inl, inr,
  Bool-cases, ◌==◌, string_eq,
}
use nestjs_team_tasks_api.Exec.{Result, ok}
use nestjs_team_tasks_api.Platform.{Repository, Shape}
use nestjs_team_tasks_api.Platform.Laws.{
  RedisLaws, RowLaws, TaskLaws, UserLaws, ProjectLaws, OrganizationLaws,
}
use nestjs_team_tasks_api.Memory.Repository.Laws.{repository-RowLaws}
use nestjs_team_tasks_api.Memory.Kinds.{organization_kind, user_kind, project_kind, task_kind}
use nestjs_team_tasks_api.Memory.World.{
  Redis, put_key, incr_parsed, incr_held, redis_client, Db, on_table, part_of, tasks_table,
  users_table, projects_table, organizations_table,
}

module _ {S : Type 0} (get : Db → S) (put : S → Db → Db)
    (get-put : (s : S) (db : Db) → get (put s db) ≡ s) where
  on_table_inv :
      {A : Type 0} (x : Result A × S) (db db' : Db) (r : Result A)
      → on_table put x db ≡ (r, db')
      → x ≡ (r, get db')
  on_table_inv (a, s) db db' r h =
      let first : a ≡ r = ap (λ y. y.0) h in
      let second : s ≡ get db' = sym (get-put s db) ∙ ap (λ y. get y.1) h in cc

  pub part_of-RowLaws :
      {Row Object : Type 0} (r : Repository S Row Object) (shape : Shape Row Object)
      → RowLaws r shape
      → RowLaws (part_of get put r) shape
  part_of-RowLaws r shape laws = record {
    queries = record {
      primary_key = λ db. laws.primary_key (get db);
      find_one_some = λ c db. laws.find_one_some c (get db);
      find_one_none = λ c db. laws.find_one_none c (get db);
      exists_true = λ c db. laws.exists_true c (get db);
      exists_false = λ c db. laws.exists_false c (get db);
      find_perm = λ c db. laws.find_perm c (get db);
      page_of = λ o db. laws.page_of o (get db);
    };
    save_throws =
        λ o db db' e h. laws.save_throws o (get db) (get db') e (on_table_inv _ db db' _ h);
    save_new =
        λ o o' db db' new h. laws.save_new o o' (get db) (get db') new (on_table_inv _ db db' _ h);
    save_old = λ o o' db db' t m same h.
        laws.save_old o o' (get db) (get db') t m same (on_table_inv _ db db' _ h);
    soft_delete_throws =
        λ c db db' e h. laws.soft_delete_throws c (get db) (get db') e (on_table_inv _ db db' _ h);
    soft_delete_ok =
        λ c db db' h. laws.soft_delete_ok c (get db) (get db') (on_table_inv _ db db' _ h);
    update_throws =
        λ c o db db' e h. laws.update_throws c o (get db) (get db') e (on_table_inv _ db db' _ h);
    update_ok =
        λ c o db db' n h. laws.update_ok c o (get db) (get db') n (on_table_inv _ db db' _ h);
  }

pub tasks_table-TaskLaws : TaskLaws tasks_table
tasks_table-TaskLaws =
    part_of-RowLaws (λ db. db.tasks) (λ s db. record db { tasks = s }) (λ s db. refl) _ _
      (repository-RowLaws task_kind)

pub users_table-UserLaws : UserLaws users_table
users_table-UserLaws =
    part_of-RowLaws (λ db. db.users) (λ s db. record db { users = s }) (λ s db. refl) _ _
      (repository-RowLaws user_kind)

pub projects_table-ProjectLaws : ProjectLaws projects_table
projects_table-ProjectLaws =
    part_of-RowLaws (λ db. db.projects) (λ s db. record db { projects = s }) (λ s db. refl) _ _
      (repository-RowLaws project_kind)

pub organizations_table-OrganizationLaws : OrganizationLaws organizations_table
organizations_table-OrganizationLaws =
    part_of-RowLaws (λ db. db.organizations) (λ s db. record db { organizations = s })
      (λ s db. refl) _ _ (repository-RowLaws organization_kind)

put_key-here : (k v : String) (redis : Redis) → put_key k v redis k ≡ some v
put_key-here k v redis = ground (arith, eq_iff k k)

incr_parsed_lem :
    (z : Option ℤ) (k : String) (redis redis' : Redis) (n : ℕ)
    → incr_parsed z k redis ≡ (ok n, redis')
    → (z ≢ none) × (redis' k ≡ some (show_int (pos n))) × ((m : ℕ) → z ≡ some (pos m) → n ≡ suc m)
incr_parsed_lem (some (pos m)) k redis redis' n h =
    let count : suc m ≡ n = ground (arith, ap (λ x. x.0) h) in
    let after : put_key k (show_int (pos (suc m))) redis ≡ redis' = ap (λ x. x.1) h in
    (
      (λ q. ground (arith, q)),
      sym (ap (λ r. r k) after) ∙ put_key-here k _ redis ∙ ap (λ c. some (show_int (pos c))) count,
      λ m' q. ground (arith, q, count),
    )
incr_parsed_lem (some (negsuc m)) k redis redis' n h = absurd (ground (arith, ap (λ x. x.0) h))
incr_parsed_lem none k redis redis' n h = absurd (ground (arith, ap (λ x. x.0) h))

incr_held_lem :
    (held : Option String) (k : String) (redis redis' : Redis) (n : ℕ)
    → incr_held held k redis ≡ (ok n, redis')
    → (redis' k ≡ some (show_int (pos n)))
      × (held ≡ none → n ≡ 1)
      × ((raw : String)
          → held ≡ some raw
          → (parse_int raw ≢ none) × ((m : ℕ) → parse_int raw ≡ some (pos m) → n ≡ suc m))
incr_held_lem none k redis redis' n h =
    let count : 1 ≡ n = ground (arith, ap (λ x. x.0) h) in
    let after : put_key k (show_int (pos 1)) redis ≡ redis' = ap (λ x. x.1) h in
    (
      sym (ap (λ r. r k) after) ∙ put_key-here k _ redis ∙ ap (λ c. some (show_int (pos c))) count,
      (λ fresh. sym count),
      λ raw q. absurd (ground (arith, q)),
    )
incr_held_lem (some raw) k redis redis' n h =
    let (integer, holds, counts) = incr_parsed_lem (parse_int raw) k redis redis' n h in
    (
      holds,
      (λ q. absurd (ground (arith, q))),
      λ raw' q.
          let same : raw ≡ raw' = ground (arith, q) in
          (
            (λ bad. integer (ap parse_int same ∙ bad)),
            λ m read. counts m (ap parse_int same ∙ read),
          ),
    )

pub redis_client-RedisLaws : RedisLaws redis_client
redis_client-RedisLaws = record {
  del_removes = λ k redis redis' n h. ground (arith, ap (λ x. x.1 k) h, eq_iff k k);
  set_ex_writes = λ k v ttl redis redis' h. ground (arith, ap (λ x. x.1 k) h, eq_iff k k);
  set_ex_others = λ k v ttl redis other held h. elim (Bool-cases (k == other)) [
    | inl same ↦ inl (sym ((eq_iff k other).0 same))
    | inr apart ↦ inr (ground (arith, h, apart))
  ];
  del_others = λ k redis other held h. ground (arith, h);
  exists_some = λ k v redis n h held. ground (arith, h, held);
  exists_none = λ k redis n h gone. ground (arith, h, gone);
  get_stored = λ k redis found h. ground (arith, h);
  incr_writes = λ k redis redis' n h. (incr_held_lem (redis k) k redis redis' n h).0;
  incr_new = λ k redis redis' n h fresh. (incr_held_lem (redis k) k redis redis' n h).1 fresh;
  incr_old = λ k redis redis' n m raw h held read.
      ((incr_held_lem (redis k) k redis redis' n h).2 raw held).1 m read;
  incr_integer =
      λ k redis redis' n raw h held. ((incr_held_lem (redis k) k redis redis' n h).2 raw held).0;
}
