-- ===== src/Memory/Kinds.antt =====
-- The four tables of the in-memory platform.
use nestjs_team_tasks_api.Prelude.{
  arith, String, Bool, true, false, ◌&&◌, ◌||◌, Option, none, some, List, [], ◌∷◌, map, ◌≡◌, refl,
  ◌==◌, string_eq, has,
}
use nestjs_team_tasks_api.Js.{Field, value}
use nestjs_team_tasks_api.Entities.{
  Organization, User, Project, Task, OrganizationObject, UserObject, ProjectObject, TaskObject,
  todo, low, employee,
}
use nestjs_team_tasks_api.Platform.{
  column, nullable_column, task_shape, user_shape, project_shape, organization_shape, InsertedTask,
  InsertedUser, InsertedProject, InsertedOrganization,
}
use nestjs_team_tasks_api.Memory.Repository.{Kind}

infixl 10 ◌>>=◌
abbrev ◌>>=◌ : {A B : Type 0} → Option A → (A → Option B) → Option B
none >>= f = none
some a >>= f = f a

abbrev required : {A : Type 0} → Field A → Option A
required (value a) = some a
required _ = none

abbrev build_task : String → TaskObject → Option Task
build_task id o = do
  title ← required o.title
  description ← required o.description
  organization_id ← required o.organization_id
  assignee_id ← required o.assignee_id
  project_id ← required o.project_id
  due_date ← required o.due_date
  some (record {
    id = id;
    title = title;
    description = description;
    status = column o.status todo;
    priority = column o.priority low;
    organization_id = organization_id;
    assignee_id = assignee_id;
    project_id = project_id;
    due_date = due_date;
    created_at = 0;
    updated_at = 0;
    deleted_at = none;
  })

pub InsertedTask-build :
    (id : String) (o : TaskObject) (r : Task) → build_task id o ≡ some r → InsertedTask o r
InsertedTask-build id o r h = ground arith

abbrev pub task_kind : Kind Task TaskObject
task_kind = record {
  shape = task_shape;
  build = build_task;
  clashes = λ t ts. false;
  id-write = λ now o t. refl;
  id-retire = λ now t. refl;
  build-Inserted = InsertedTask-build;
}

-- the unique index on `email` counts the deleted users too
abbrev build_user : String → UserObject → Option User
build_user id o = do
  email ← required o.email
  password ← required o.password
  organization_id ← required o.organization_id
  some (record {
    id = id;
    email = email;
    password = password;
    role = column o.role employee;
    organization_id = organization_id;
    created_at = 0;
    updated_at = 0;
    deleted_at = none;
  })

pub InsertedUser-build :
    (id : String) (o : UserObject) (r : User) → build_user id o ≡ some r → InsertedUser o r
InsertedUser-build id o r h = ground arith

abbrev pub user_kind : Kind User UserObject
user_kind = record {
  shape = user_shape;
  build = build_user;
  clashes = λ u us. has (map (λ v. v.email) us) u.email;
  id-write = λ now o u. refl;
  id-retire = λ now u. refl;
  build-Inserted = InsertedUser-build;
}

is_none : {A : Type 0} → Option A → Bool
is_none none = true
is_none (some a) = false

is_live_namesake : Project → Project → Bool
unfolding is_none
is_live_namesake p q =
    p.organization_id == q.organization_id && p.name == q.name && is_none q.deleted_at

pub clashes_project : Project → List Project → Bool
unfolding is_live_namesake
clashes_project p [] = false
clashes_project p (q ∷ qs) = is_live_namesake p q || clashes_project p qs

abbrev build_project : String → ProjectObject → Option Project
build_project id o = do
  name ← required o.name
  organization_id ← required o.organization_id
  some (record {
    id = id;
    name = name;
    organization_id = organization_id;
    created_at = 0;
    updated_at = 0;
    deleted_at = none;
  })

pub InsertedProject-build :
    (id : String) (o : ProjectObject) (r : Project)
    → build_project id o ≡ some r
    → InsertedProject o r
InsertedProject-build id o r h = ground arith

abbrev pub project_kind : Kind Project ProjectObject
project_kind = record {
  shape = project_shape;
  build = build_project;
  clashes = clashes_project;
  id-write = λ now o p. refl;
  id-retire = λ now p. refl;
  build-Inserted = InsertedProject-build;
}

abbrev build_organization : String → OrganizationObject → Option Organization
build_organization id o = do
  name ← required o.name
  some (record {
    id = id;
    name = name;
    owner_id = nullable_column o.owner_id none;
    created_at = 0;
    updated_at = 0;
    deleted_at = none;
  })

pub InsertedOrganization-build :
    (id : String) (o : OrganizationObject) (r : Organization)
    → build_organization id o ≡ some r
    → InsertedOrganization o r
InsertedOrganization-build id o r h = ground arith

abbrev pub organization_kind : Kind Organization OrganizationObject
organization_kind = record {
  shape = organization_shape;
  build = build_organization;
  clashes = λ g gs. false;
  id-write = λ now o g. refl;
  id-retire = λ now g. refl;
  build-Inserted = InsertedOrganization-build;
}
