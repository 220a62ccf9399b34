-- ===== src/Platform/Rows.antt =====
-- The rows that a save inserts and writes, for each table.
use nestjs_team_tasks_api.Prelude.{String, Bool, Option, none, some, ◌≡◌}
use nestjs_team_tasks_api.Js.{Field, null, value}
use nestjs_team_tasks_api.Entities.{
  Organization, OrganizationObject, User, UserObject, Project, ProjectObject, Task, TaskObject,
  todo, low, employee, load_task, load_user, load_project, load_organization, Date,
}
use nestjs_team_tasks_api.Platform.Types.{Criteria}
use nestjs_team_tasks_api.Platform.Matching.{
  matches_task, matches_user, matches_project, matches_organization,
}

-- how the rows of a table are identified, selected, loaded and written
pub record Shape (Row Object : Type 0) : Type 1 where
  pub id_of : Row → String
  pub object_id : Object → Field String
  pub stamp : Date → Object → Object
  pub load : Row → Object
  pub matches : Criteria → Row → Bool
  pub write : Date → Object → Row → Row
  pub retire : Date → Row → Row
  -- the row is one that a save of the new object inserts
  pub Inserted : Object → Row → Type 0

-- the column that a save writes: a property that is absent or `undefined` is left alone
abbrev pub column {ℓ} : {A : Type ℓ} → Field A → A → A
column (value a) old = a
column _ old = old

abbrev pub nullable_column {ℓ} : {A : Type ℓ} → Field A → Option A → Option A
nullable_column (value a) old = some a
nullable_column null old = none
nullable_column _ old = old

-- the row that a save of `o` makes of `t`, updated at `now`
abbrev pub write_task : Date → TaskObject → Task → Task
write_task now o t = record {
  id = t.id;
  title = column o.title t.title;
  description = column o.description t.description;
  status = column o.status t.status;
  priority = column o.priority t.priority;
  organization_id = column o.organization_id t.organization_id;
  assignee_id = column o.assignee_id t.assignee_id;
  project_id = column o.project_id t.project_id;
  due_date = column o.due_date t.due_date;
  created_at = column o.created_at t.created_at;
  updated_at = now;
  deleted_at = nullable_column o.deleted_at t.deleted_at;
}

abbrev pub write_user : Date → UserObject → User → User
write_user now o u = record {
  id = u.id;
  email = column o.email u.email;
  password = column o.password u.password;
  role = column o.role u.role;
  organization_id = column o.organization_id u.organization_id;
  created_at = column o.created_at u.created_at;
  updated_at = now;
  deleted_at = nullable_column o.deleted_at u.deleted_at;
}

abbrev pub write_project : Date → ProjectObject → Project → Project
write_project now o r = record {
  id = r.id;
  name = column o.name r.name;
  organization_id = column o.organization_id r.organization_id;
  created_at = column o.created_at r.created_at;
  updated_at = now;
  deleted_at = nullable_column o.deleted_at r.deleted_at;
}

abbrev pub write_organization : Date → OrganizationObject → Organization → Organization
write_organization now o r = record {
  id = r.id;
  name = column o.name r.name;
  owner_id = nullable_column o.owner_id r.owner_id;
  created_at = column o.created_at r.created_at;
  updated_at = now;
  deleted_at = nullable_column o.deleted_at r.deleted_at;
}

-- `t` is a row that a save of the new object `o` inserts: its columns, or their defaults
pub record InsertedTask (o : TaskObject) (t : Task) : Type 0 where
  pub title : o.title ≡ value t.title
  pub description : o.description ≡ value t.description
  pub status : t.status ≡ column o.status todo
  pub priority : t.priority ≡ column o.priority low
  pub organization_id : o.organization_id ≡ value t.organization_id
  pub assignee_id : o.assignee_id ≡ value t.assignee_id
  pub project_id : o.project_id ≡ value t.project_id
  pub due_date : o.due_date ≡ value t.due_date
  pub live : t.deleted_at ≡ none

pub record InsertedUser (o : UserObject) (u : User) : Type 0 where
  pub email : o.email ≡ value u.email
  pub password : o.password ≡ value u.password
  pub role : u.role ≡ column o.role employee
  pub organization_id : o.organization_id ≡ value u.organization_id
  pub live : u.deleted_at ≡ none

pub record InsertedProject (o : ProjectObject) (r : Project) : Type 0 where
  pub name : o.name ≡ value r.name
  pub organization_id : o.organization_id ≡ value r.organization_id
  pub live : r.deleted_at ≡ none

pub record InsertedOrganization (o : OrganizationObject) (r : Organization) : Type 0 where
  pub name : o.name ≡ value r.name
  pub owner_id : r.owner_id ≡ nullable_column o.owner_id none
  pub live : r.deleted_at ≡ none

abbrev pub task_shape : Shape Task TaskObject
task_shape = record {
  id_of = λ r. r.id;
  object_id = λ o. o.id;
  stamp = λ now o. record o { updated_at = value now };
  load = load_task;
  matches = matches_task;
  write = write_task;
  retire = λ now r. record r { updated_at = now; deleted_at = some now };
  Inserted = InsertedTask;
}

abbrev pub user_shape : Shape User UserObject
user_shape = record {
  id_of = λ r. r.id;
  object_id = λ o. o.id;
  stamp = λ now o. record o { updated_at = value now };
  load = load_user;
  matches = matches_user;
  write = write_user;
  retire = λ now r. record r { updated_at = now; deleted_at = some now };
  Inserted = InsertedUser;
}

abbrev pub project_shape : Shape Project ProjectObject
project_shape = record {
  id_of = λ r. r.id;
  object_id = λ o. o.id;
  stamp = λ now o. record o { updated_at = value now };
  load = load_project;
  matches = matches_project;
  write = write_project;
  retire = λ now r. record r { updated_at = now; deleted_at = some now };
  Inserted = InsertedProject;
}

abbrev pub organization_shape : Shape Organization OrganizationObject
organization_shape = record {
  id_of = λ r. r.id;
  object_id = λ o. o.id;
  stamp = λ now o. record o { updated_at = value now };
  load = load_organization;
  matches = matches_organization;
  write = write_organization;
  retire = λ now r. record r { updated_at = now; deleted_at = some now };
  Inserted = InsertedOrganization;
}
