-- ===== src/Tests/Data.antt =====
-- A small world: two organizations with an owner and employees, a project each, and tasks.
use nestjs_team_tasks_api.Prelude.{String, none, some, [], ◌∷◌, ◌≢◌, arith, eq_iff}
use nestjs_team_tasks_api.Entities.{
  Organization, User, UserRole, Project, Task, AccessTokenPayload, owner, manager, employee,
  TaskStatus, todo, overdue, low,
}
use nestjs_team_tasks_api.Platform.{World}
use nestjs_team_tasks_api.Memory.World.{Db, Redis}

abbrev user_of : String → String → UserRole → String → User
user_of id email role org = record {
  id = id;
  email = email;
  password = "hash";
  role = role;
  organization_id = org;
  created_at = 0;
  updated_at = 0;
  deleted_at = none;
}

abbrev task_of : String → String → String → TaskStatus → Task
task_of id org assignee status = record {
  id = id;
  title = "t";
  description = "d";
  status = status;
  priority = low;
  organization_id = org;
  assignee_id = assignee;
  project_id = "p1";
  due_date = 10;
  created_at = 0;
  updated_at = 5;
  deleted_at = none;
}

abbrev pub ann : AccessTokenPayload
ann = record { sub = "ann"; organization_id = "acme"; role = owner }

abbrev pub eve : AccessTokenPayload
eve = record { sub = "eve"; organization_id = "acme"; role = employee }

abbrev pub bob : AccessTokenPayload
bob = record { sub = "bob"; organization_id = "beta"; role = owner }

abbrev pub ann_task : Task
ann_task = task_of "t1" "acme" "ann" todo

abbrev pub eve_task : Task
eve_task = task_of "t2" "acme" "eve" todo

abbrev pub bob_task : Task
bob_task = task_of "t3" "beta" "bob" overdue

pub t2-ne-t1 : ◌≢◌ {A = String} "t2" "t1"
t2-ne-t1 = ground (arith, eq_iff "t2" "t1")

pub t3-ne-t1 : ◌≢◌ {A = String} "t3" "t1"
t3-ne-t1 = ground (arith, eq_iff "t3" "t1")

pub t3-ne-t2 : ◌≢◌ {A = String} "t3" "t2"
t3-ne-t2 = ground (arith, eq_iff "t3" "t2")

pub eve-ne-ann : ◌≢◌ {A = String} "eve" "ann"
eve-ne-ann = ground (arith, eq_iff "eve" "ann")

abbrev pub max : AccessTokenPayload
max = record { sub = "max"; organization_id = "acme"; role = manager }

abbrev pub acme : Organization
acme = record {
  id = "acme";
  name = "Acme";
  owner_id = some "ann";
  created_at = 0;
  updated_at = 0;
  deleted_at = none;
}

abbrev pub board : Project
board = record {
  id = "p1";
  name = "Board";
  organization_id = "acme";
  created_at = 0;
  updated_at = 0;
  deleted_at = none;
}

abbrev pub ann_user : User
ann_user = user_of "ann" "ann@acme.test" owner "acme"

pub acme-ne-beta : ◌≢◌ {A = String} "acme" "beta"
acme-ne-beta = ground (arith, eq_iff "acme" "beta")

abbrev pub db : Db
db = record {
  organizations = record { held = acme ∷ []; unique = (tt, tt) };
  users = record {
    held = ann_user ∷ user_of "eve" "eve@acme.test" employee "acme" ∷ [];
    unique = ((eve-ne-ann, tt), (tt, tt));
  };
  projects = record { held = board ∷ []; unique = (tt, tt) };
  tasks = record {
    held = ann_task ∷ eve_task ∷ bob_task ∷ [];
    unique = ((t2-ne-t1, (t3-ne-t1, tt)), ((t3-ne-t2, tt), (tt, tt)));
  };
}

abbrev pub world : World Db Redis
world = record { db = db; redis = λ k. none }
