-- ===== src/Memory/Repository.antt =====
-- The repository over a table: queries filter, a save inserts or updates, by the rules `Kind`.
pub mod Laws
use mathlib.Core.List.{Memᴰ, Permᴰ}
use mathlib.Core.List.Permᴰ
use mathlib.Core.Path.{subst}
use nestjs_team_tasks_api.Prelude.{
  ℕ, String, Bool, true, false, Option, none, some, List, [], ◌∷◌, map, ◌≡◌, ◌≢◌, refl, sym, ap,
  ◌∙◌, ◌⊎◌, inl, inr, arith, eq_iff, All, keep, take, drop, length, has, ◌==◌, string_eq,
  if◌then◌else◌, Bool-cases,
}
use nestjs_team_tasks_api.Js.{Field, absent, undefined, null, value}
use nestjs_team_tasks_api.Js.Number.{show_nat}
use nestjs_team_tasks_api.Entities.{Date}
use nestjs_team_tasks_api.Exec.{Failure, Result, ok, throw, query_failed}
use nestjs_team_tasks_api.Platform.{Criteria, FindOptions, Repository, Shape}
use nestjs_team_tasks_api.Platform.Laws.{QueryLaws}
use nestjs_team_tasks_api.Memory.Table.{
  Table, Unique, Unique-map, first, first-some, first-none, fresh_of_has, has_of_mem,
  primary_key_of, not_empty, exists_true_of, exists_false_of,
}

-- how rows of one kind are selected, built and written
pub record Kind (Row Object : Type 0) : Type 1 where
  pub shape : Shape Row Object
  pub open shape use *
  -- `none` if a column that has no default is missing
  pub build : String → Object → Option Row
  -- whether a unique index rules the row out
  pub clashes : Row → List Row → Bool
  pub id-write : (now : Date) (o : Object) (r : Row) → id_of (write now o r) ≡ id_of r
  pub id-retire : (now : Date) (r : Row) → id_of (retire now r) ≡ id_of r
  pub build-Inserted : (id : String) (o : Object) (r : Row) → build id o ≡ some r → Inserted o r

module _ {Row Object : Type 0} (k : Kind Row Object) where
  open k use {
    id_of, object_id, stamp, load, matches, build, clashes, write, retire, id-write, id-retire,
  }

  abbrev pub Store : Type 0
  Store = Table id_of

  -- the rows that a test accepts, changed
  abbrev change : (Row → Bool) → (Row → Row) → Row → Row
  change test f r = if test r then f r else r

  pub id-change :
      (test : Row → Bool) (f : Row → Row)
      → ((r : Row) → id_of (f r) ≡ id_of r)
      → (r : Row) → id_of (change test f r) ≡ id_of r
  id-change test f h r = ground (arith, h r)

  pub change_rows :
      (test : Row → Bool) (f : Row → Row) → ((r : Row) → id_of (f r) ≡ id_of r) → Store → Store
  change_rows test f h t = record {
    held = map (change test f) t.held;
    unique = Unique-map id_of (change test f) t.held (id-change test f h) t.unique;
  }

  -- the insertion of a row whose id is not taken, unless a unique index rules it out
  pub insert_free :
      Bool → (r : Row) (t : Store) → All (λ s. id_of s ≢ id_of r) t.held → Result Object × Store
  insert_free true r t fresh = (throw (query_failed "23505"), t)
  insert_free false r t fresh =
      (ok (load r), record { held = r ∷ t.held; unique = (fresh, t.unique) })

  pub insert_if :
      (r : Row) (t : Store)
      → (has (map id_of t.held) (id_of r) ≡ true) ⊎ (has (map id_of t.held) (id_of r) ≡ false)
      → Result Object × Store
  unfolding insert_free
  insert_if r t (inl taken) = (throw (query_failed "23505"), t)
  insert_if r t (inr free) =
      insert_free (clashes r t.held) r t (fresh_of_has id_of (id_of r) t.held free)

  pub insert : Row → Store → Result Object × Store
  unfolding insert_if
  insert r t = insert_if r t (Bool-cases (has (map id_of t.held) (id_of r)))

  pub insert_new : Option Row → Store → Result Object × Store
  unfolding insert
  insert_new none t = (throw (query_failed "23502"), t)
  insert_new (some r) t = insert r t

  pub save_by : Field String → Object → Store → Result Object × Store
  unfolding insert_new change_rows
  save_by (value i) o t =
      if has (map id_of t.held) i
      then (ok (stamp 0 o), change_rows (λ r. id_of r == i) (write 0 o) (id-write 0 o) t)
      else (throw (query_failed "23503"), t)
  save_by null o t = (throw (query_failed "23502"), t)
  save_by _ o t = insert_new (build (show_nat (length t.held)) o) t

  unfoldable pub repository : Repository Store Row Object
  unfolding save_by
  repository = record {
    rows = λ t. t.held;
    find_one = λ c t. ok (first id_of (matches c) t.held);
    exists = λ c t. ok (not_empty (keep (matches c) t.held));
    find = λ c t. ok (keep (matches c) t.held);
    find_and_count = λ o t. ok (
      take o.take (drop o.skip (keep (matches o.criteria) t.held)),
      length (keep (matches o.criteria) t.held),
    );
    create = λ o. o;
    save = λ o t. save_by (object_id o) o t;
    update = λ c o t. (
      ok (length (keep (matches c) t.held)),
      change_rows (matches c) (write 0 o) (id-write 0 o) t,
    );
    soft_delete = λ c t. (ok tt, change_rows (matches c) (retire 0) (id-retire 0) t);
  }
