-- ===== src/Memory/Repository/Laws.antt =====
-- The repository over a table has the laws of TypeORM's repositories.
use mathlib.Core.List.{Memᴰ, Permᴰ}
use mathlib.Core.List.Permᴰ
use mathlib.Core.Path.{subst}
use nestjs_team_tasks_api.Prelude.{
  ℕ, String, Bool, true, false, Option, none, some, ◌∷◌, map, ◌≡◌, ◌≢◌, refl, sym, ap, ◌⊎◌, inl,
  inr, arith, All, keep, length, has, ◌==◌, string_eq, if◌then◌else◌, Bool-cases,
}
use nestjs_team_tasks_api.Js.{Field, absent, null, value}
use nestjs_team_tasks_api.Js.Number.{show_nat}
use nestjs_team_tasks_api.Exec.{Failure, Result, ok, throw}
use nestjs_team_tasks_api.Platform.{Criteria}
use nestjs_team_tasks_api.Platform.Laws.{QueryLaws, RowLaws}
use nestjs_team_tasks_api.Memory.Table.{
  first-some, first-none, fresh_of_has, has_of_mem, primary_key_of, exists_true_of, exists_false_of,
}
use nestjs_team_tasks_api.Memory.Repository.{
  Kind, Store, repository, change_rows, insert_free, insert_if, insert, insert_new, save_by,
}

not_ok : {A : Type 0} {f : Failure} {a : A} → throw f ≡ ok a → ⊥
not_ok h = cc

not_throw : {A : Type 0} {f : Failure} {a : A} → ok a ≡ throw f → ⊥
not_throw h = cc

ok_pair :
    {A W : Type 0} {a b : A} {v w : W}
    → ◌≡◌ {A = Result A × W} (ok a, v) (ok b, w)
    → (a ≡ b) × (v ≡ w)
ok_pair {A} {a = a} {b = b} h =
    let e : ◌≡◌ {A = Result A} (ok a) (ok b) = ap (λ x. x.0) h in (cc, ap (λ x. x.1) h)

ok-injective : {A : Type 0} {a b : A} → ok a ≡ ok b → a ≡ b
ok-injective h = cc

module _ {Row Object : Type 0} (k : Kind Row Object) where
  open k use {
    id_of, object_id, stamp, load, matches, build, clashes, write, retire, Inserted, shape,
  }

  pub repository-QueryLaws : QueryLaws (repository k) id_of matches
  unfolding repository
  repository-QueryLaws = record {
    primary_key = λ t a b ma mb e. primary_key_of id_of t.held a b t.unique ma mb e;
    find_one_some = λ c t r e. first-some id_of (matches c) t.held r (ground arith);
    find_one_none = λ c t r e m. first-none id_of (matches c) t.held r (ground arith) m;
    exists_true = λ c t e. exists_true_of (matches c) t.held (ground arith);
    exists_false = λ c t r e m. exists_false_of (matches c) t.held r (ground arith) m;
    find_perm = λ c t found e.
        let same : keep (matches c) t.held ≡ found = ground arith in
        subst (λ l. Permᴰ l (keep (matches c) t.held)) same (Permᴰ.refl _);
    page_of = λ o t page total e.
        (keep (matches o.criteria) t.held, Permᴰ.refl _, ground arith, ground arith);
  }

  pub repository-save_old :
      (o o' : Object) (db db' : Store k) (t : Row)
      → Memᴰ t db.held
      → object_id o ≡ value (id_of t)
      → (repository k).save o db ≡ (ok o', db')
      → (o' ≡ stamp 0 o)
        × (db'.held ≡ map (λ s. if id_of s == id_of t then write 0 o s else s) db.held)
  unfolding repository
  repository-save_old o o' db db' t m e h =
      let stored = has_of_mem id_of db.held t m in
      let (same, after) =
        ok_pair (rw stored at (subst (λ f. save_by k f o db ≡ (ok o', db')) e h)) in
      (sym same, sym (ap (λ t. t.held) after))

  insert_free_inv :
      (b : Bool) (r : Row) (o' : Object) (db db' : Store k)
      (fresh : All (λ s. id_of s ≢ id_of r) db.held)
      → insert_free k b r db fresh ≡ (ok o', db')
      → (o' ≡ load r) × (db'.held ≡ r ∷ db.held) × All (λ s. id_of s ≢ id_of r) db.held
  unfolding insert_free
  insert_free_inv true r o' db db' fresh h = absurd (not_ok (ap (λ x. x.0) h))
  insert_free_inv false r o' db db' fresh h =
      let (same, after) = ok_pair h in (sym same, sym (ap (λ t. t.held) after), fresh)

  insert_if_inv :
      (r : Row) (o' : Object) (db db' : Store k)
      (c : (has (map id_of db.held) (id_of r) ≡ true) ⊎ (has (map id_of db.held) (id_of r) ≡ false))
      → insert_if k r db c ≡ (ok o', db')
      → (o' ≡ load r) × (db'.held ≡ r ∷ db.held) × All (λ s. id_of s ≢ id_of r) db.held
  unfolding insert_if
  insert_if_inv r o' db db' (inl taken) h = absurd (not_ok (ap (λ x. x.0) h))
  insert_if_inv r o' db db' (inr free) h =
      insert_free_inv (clashes r db.held) r o' db db' (fresh_of_has id_of (id_of r) db.held free) h

  insert_inv :
      (r : Row) (o' : Object) (db db' : Store k)
      → insert k r db ≡ (ok o', db')
      → (o' ≡ load r) × (db'.held ≡ r ∷ db.held) × All (λ s. id_of s ≢ id_of r) db.held
  unfolding insert
  insert_inv r o' db db' h =
      insert_if_inv r o' db db' (Bool-cases (has (map id_of db.held) (id_of r))) h

  repository-save_new_of :
      (b : Option Row) (o' : Object) (db db' : Store k)
      → insert_new k b db ≡ (ok o', db')
      → (r : Row) × (b ≡ some r)
        × (o' ≡ load r)
        × (db'.held ≡ r ∷ db.held)
        × All (λ s. id_of s ≢ id_of r) db.held
  unfolding insert_new
  repository-save_new_of none o' db db' h = absurd (not_ok (ap (λ x. x.0) h))
  repository-save_new_of (some r) o' db db' h =
      let (load', rows, fresh) = insert_inv r o' db db' h in (r, refl, load', rows, fresh)

  pub repository-save_new :
      (o o' : Object) (db db' : Store k)
      → object_id o ≡ absent
      → (repository k).save o db ≡ (ok o', db')
      → (r : Row) × (build (show_nat (length db.held)) o ≡ some r)
        × (o' ≡ load r)
        × (db'.held ≡ r ∷ db.held)
        × All (λ s. id_of s ≢ id_of r) db.held
  unfolding repository
  repository-save_new o o' db db' e h =
      repository-save_new_of (build (show_nat (length db.held)) o) o' db db'
        (subst (λ f. save_by k f o db ≡ (ok o', db')) e h)

  insert_free-throws :
      (b : Bool) (r : Row) (db db' : Store k) (f : Failure)
      (fresh : All (λ s. id_of s ≢ id_of r) db.held)
      → insert_free k b r db fresh ≡ (throw f, db')
      → db'.held ≡ db.held
  unfolding insert_free
  insert_free-throws true r db db' f fresh h = ap (λ x. x.1.held) (sym h)
  insert_free-throws false r db db' f fresh h = absurd (not_throw (ap (λ x. x.0) h))

  insert_if-throws :
      (r : Row) (db db' : Store k) (f : Failure)
      (c : (has (map id_of db.held) (id_of r) ≡ true) ⊎ (has (map id_of db.held) (id_of r) ≡ false))
      → insert_if k r db c ≡ (throw f, db')
      → db'.held ≡ db.held
  unfolding insert_if
  insert_if-throws r db db' f (inl taken) h = ap (λ x. x.1.held) (sym h)
  insert_if-throws r db db' f (inr free) h =
      insert_free-throws (clashes r db.held) r db db' f (fresh_of_has id_of (id_of r) db.held free)
        h

  insert-throws :
      (r : Row) (db db' : Store k) (f : Failure)
      → insert k r db ≡ (throw f, db')
      → db'.held ≡ db.held
  unfolding insert
  insert-throws r db db' f h =
      insert_if-throws r db db' f (Bool-cases (has (map id_of db.held) (id_of r))) h

  insert_new-throws :
      (b : Option Row) (db db' : Store k) (f : Failure)
      → insert_new k b db ≡ (throw f, db')
      → db'.held ≡ db.held
  unfolding insert_new
  insert_new-throws none db db' f h = ap (λ x. x.1.held) (sym h)
  insert_new-throws (some r) db db' f h = insert-throws r db db' f h

  save_by-throws :
      (i : Field String) (o : Object) (db db' : Store k) (f : Failure)
      → save_by k i o db ≡ (throw f, db')
      → db'.held ≡ db.held
  unfolding save_by
  save_by-throws (value i) o db db' f h = elim (Bool-cases (has (map id_of db.held) i)) [
    | inl there ↦ absurd (not_throw (ap (λ x. x.0) (rw there at h)))
    | inr gone ↦ ap (λ x. x.1.held) (sym (rw gone at h))
  ]
  save_by-throws null o db db' f h = ap (λ x. x.1.held) (sym h)
  save_by-throws _ o db db' f h = insert_new-throws (build (show_nat (length db.held)) o) db db' f h

  pub repository-save_throws :
      (o : Object) (db db' : Store k) (f : Failure)
      → (repository k).save o db ≡ (throw f, db')
      → db'.held ≡ db.held
  unfolding repository
  repository-save_throws o db db' f h = save_by-throws (object_id o) o db db' f h

  pub repository-update :
      (c : Criteria) (o : Object) (db db' : Store k) (r : Result ℕ)
      → (repository k).update c o db ≡ (r, db')
      → (r ≡ ok (length (keep (matches c) db.held)))
        × (db'.held ≡ map (λ s. if matches c s then write 0 o s else s) db.held)
  unfolding repository change_rows
  repository-update c o db db' r h = (sym (ap (λ x. x.0) h), sym (ap (λ x. x.1.held) h))

  pub repository-retire :
      (c : Criteria) (db db' : Store k) (r : Result (Unit {0}))
      → (repository k).soft_delete c db ≡ (r, db')
      → (r ≡ ok tt) × (db'.held ≡ map (λ s. if matches c s then retire 0 s else s) db.held)
  unfolding repository change_rows
  repository-retire c db db' r h = (sym (ap (λ x. x.0) h), sym (ap (λ x. x.1.held) h))

  pub repository-RowLaws : RowLaws (repository k) shape
  unfolding repository
  repository-RowLaws = record {
    queries = repository-QueryLaws;
    save_throws = repository-save_throws;
    save_new = λ o o' db db' new h.
        let (t, built, loaded, rows, fresh) = repository-save_new o o' db db' new h in
        (t, k.build-Inserted _ o t built, loaded, rows, fresh);
    save_old = λ o o' db db' t m same h.
        let (stamped, rows) = repository-save_old o o' db db' t m same h in (0, stamped, rows);
    soft_delete_throws = λ c db db' e h. absurd (not_ok (repository-retire c db db' _ h).0);
    soft_delete_ok = λ c db db' h. (0, (repository-retire c db db' _ h).1);
    update_throws = λ c o db db' e h. absurd (not_ok (repository-update c o db db' _ h).0);
    update_ok = λ c o db db' n h.
        let (same, rows) = repository-update c o db db' _ h in (0, ok-injective same, rows);
  }
