-- ===== src/Platform/Frame.antt =====
-- What a write leaves alone: the rows that pass a test which no changed row passes, before or after.
use mathlib.Core.List.{Memᴰ}
use nestjs_team_tasks_api.Prelude.{
  Bool, true, false, ◌≡◌, inl, inr, arith, eq_iff, keep, keep-map, string_eq,
}
use nestjs_team_tasks_api.Js.{absent, value}
use nestjs_team_tasks_api.Entities.{Date}
use nestjs_team_tasks_api.Exec.Cases.{saved_cases}
use nestjs_team_tasks_api.Platform.Types.{Repository, Criteria}
use nestjs_team_tasks_api.Platform.Rows.{Shape}
use nestjs_team_tasks_api.Platform.Laws.{RowLaws}

module _ {Db Row Object : Type 0} (r : Repository Db Row Object) (shape : Shape Row Object)
    (laws : RowLaws r shape) (p : Row → Bool) where
  open shape use {id_of, object_id, matches, write, retire, Inserted}

  pub keep-insert :
      (o : Object) (db : Db)
      → object_id o ≡ absent
      → ((t : Row) → Inserted o t → p t ≡ false)
      → keep p (r.rows (r.save (r.create o) db).1) ≡ keep p (r.rows db)
  keep-insert o db new outside = elim (saved_cases (r.save (r.create o) db)) [
    | inl (o', db', e) ↦
        let (t, ins, _, rows, _) = laws.save_new o o' db db' new e in rw (e, rows, outside t ins)
    | inr (f, db', e) ↦ rw (e, laws.save_throws (r.create o) db db' f e)
  ]

  pub keep-soft_delete :
      (c : Criteria) (db : Db)
      → ((now : Date) (s : Row)
          → Memᴰ s (r.rows db)
          → matches c s ≡ true
          → (p s ≡ false) × (p (retire now s) ≡ false))
      → keep p (r.rows (r.soft_delete c db).1) ≡ keep p (r.rows db)
  keep-soft_delete c db outside = elim (saved_cases (r.soft_delete c db)) [
    | inl (tt, db', e) ↦
        let (now, rows) = laws.soft_delete_ok c db db' e in
        rw (e, rows)
          (keep-map p _ (r.rows db) λ s m. let away = outside now s m in ground (arith, away))
    | inr (f, db', e) ↦ rw (e, laws.soft_delete_throws c db db' f e)
  ]

  pub keep-save :
      (o : Object) (t : Row) (db : Db)
      → Memᴰ t (r.rows db)
      → object_id o ≡ value (id_of t)
      → ((now : Date) → (p t ≡ false) × (p (write now o t) ≡ false))
      → keep p (r.rows (r.save o db).1) ≡ keep p (r.rows db)
  keep-save o t db stored same outside = elim (saved_cases (r.save o db)) [
    | inl (o', db', e) ↦
        let (now, _, rows) = laws.save_old o o' db db' t stored same e in
        let (before, after) = outside now in
        rw (e, rows)
          (keep-map p _ (r.rows db) λ s m.
            let key = laws.primary_key db s t m stored in
            ground (arith, eq_iff (id_of s) (id_of t), key, before, after))
    | inr (f, db', e) ↦ rw (e, laws.save_throws o db db' f e)
  ]
