-- ===== src/Entities.antt =====
-- The entities (src/modules/*/*.entity.ts) and the JWT payloads (src/modules/auth/types).
-- A record `Task` is a row of the table; a record `TaskObject` is an object of the class in
-- memory, whose properties may be missing. A `Date` is a number of milliseconds, counted from the
-- earliest one that a `Date` holds. Relations between entities are their id columns.
use nestjs_team_tasks_api.Prelude.{
  ℕ, String, Bool, true, false, ◌≡◌, ◌↔◌, Option, arith, StrictEquality,
}
use nestjs_team_tasks_api.Js.{Field, value, null}
use mathlib.Core.Option.{none, some}

pub data UserRole : Type 0 where
  owner manager employee : UserRole

pub data TaskStatus : Type 0 where
  todo in_progress done overdue : TaskStatus

pub data TaskPriority : Type 0 where
  low medium high : TaskPriority

abbrev pub role_beq : UserRole → UserRole → Bool
role_beq owner owner = true
role_beq manager manager = true
role_beq employee employee = true
role_beq _ _ = false

pub role_beq_iff : (a b : UserRole) → (role_beq a b ≡ true) ↔ (a ≡ b)
role_beq_iff a b = ground arith

instance abbrev pub role_eq : StrictEquality UserRole
role_eq = record { identical = role_beq; identical_iff = role_beq_iff }

abbrev pub status_beq : TaskStatus → TaskStatus → Bool
status_beq todo todo = true
status_beq in_progress in_progress = true
status_beq done done = true
status_beq overdue overdue = true
status_beq _ _ = false

pub status_beq_iff : (a b : TaskStatus) → (status_beq a b ≡ true) ↔ (a ≡ b)
status_beq_iff a b = ground arith

instance abbrev pub status_eq : StrictEquality TaskStatus
status_eq = record { identical = status_beq; identical_iff = status_beq_iff }

abbrev pub priority_beq : TaskPriority → TaskPriority → Bool
priority_beq low low = true
priority_beq medium medium = true
priority_beq high high = true
priority_beq _ _ = false

pub priority_beq_iff : (a b : TaskPriority) → (priority_beq a b ≡ true) ↔ (a ≡ b)
priority_beq_iff a b = ground arith

instance abbrev pub priority_eq : StrictEquality TaskPriority
priority_eq = record { identical = priority_beq; identical_iff = priority_beq_iff }

abbrev pub Date : Type 0
Date = ℕ

pub record Organization : Type 0 where
  pub id : String
  pub name : String
  pub owner_id : Option String
  pub created_at : Date
  pub updated_at : Date
  pub deleted_at : Option Date

pub record User : Type 0 where
  pub id : String
  pub email : String
  pub password : String
  pub role : UserRole
  pub organization_id : String
  pub created_at : Date
  pub updated_at : Date
  pub deleted_at : Option Date

pub record Project : Type 0 where
  pub id : String
  pub name : String
  pub organization_id : String
  pub created_at : Date
  pub updated_at : Date
  pub deleted_at : Option Date

pub record Task : Type 0 where
  pub id : String
  pub title : String
  pub description : String
  pub status : TaskStatus
  pub priority : TaskPriority
  pub organization_id : String
  pub assignee_id : String
  pub project_id : String
  pub due_date : Date
  pub created_at : Date
  pub updated_at : Date
  pub deleted_at : Option Date

pub record OrganizationObject : Type 0 where
  pub id : Field String
  pub name : Field String
  pub owner_id : Field String
  pub created_at : Field Date
  pub updated_at : Field Date
  pub deleted_at : Field Date

pub record UserObject : Type 0 where
  pub id : Field String
  pub email : Field String
  pub password : Field String
  pub role : Field UserRole
  pub organization_id : Field String
  pub created_at : Field Date
  pub updated_at : Field Date
  pub deleted_at : Field Date

pub record ProjectObject : Type 0 where
  pub id : Field String
  pub name : Field String
  pub organization_id : Field String
  pub created_at : Field Date
  pub updated_at : Field Date
  pub deleted_at : Field Date

pub record TaskObject : Type 0 where
  pub id : Field String
  pub title : Field String
  pub description : Field String
  pub status : Field TaskStatus
  pub priority : Field TaskPriority
  pub organization_id : Field String
  pub assignee_id : Field String
  pub project_id : Field String
  pub due_date : Field Date
  pub created_at : Field Date
  pub updated_at : Field Date
  pub deleted_at : Field Date

-- a nullable column, read into an object
abbrev pub nullable {ℓ} : {A : Type ℓ} → Option A → Field A
nullable none = null
nullable (some a) = value a

-- the object that TypeORM loads a row into
abbrev pub load_organization : Organization → OrganizationObject
load_organization r = record {
  id = value r.id;
  name = value r.name;
  owner_id = nullable r.owner_id;
  created_at = value r.created_at;
  updated_at = value r.updated_at;
  deleted_at = nullable r.deleted_at;
}

abbrev pub load_user : User → UserObject
load_user r = record {
  id = value r.id;
  email = value r.email;
  password = value r.password;
  role = value r.role;
  organization_id = value r.organization_id;
  created_at = value r.created_at;
  updated_at = value r.updated_at;
  deleted_at = nullable r.deleted_at;
}

abbrev pub load_project : Project → ProjectObject
load_project r = record {
  id = value r.id;
  name = value r.name;
  organization_id = value r.organization_id;
  created_at = value r.created_at;
  updated_at = value r.updated_at;
  deleted_at = nullable r.deleted_at;
}

abbrev pub load_task : Task → TaskObject
load_task r = record {
  id = value r.id;
  title = value r.title;
  description = value r.description;
  status = value r.status;
  priority = value r.priority;
  organization_id = value r.organization_id;
  assignee_id = value r.assignee_id;
  project_id = value r.project_id;
  due_date = value r.due_date;
  created_at = value r.created_at;
  updated_at = value r.updated_at;
  deleted_at = nullable r.deleted_at;
}

pub record AccessTokenPayload : Type 0 where
  pub sub : String
  pub organization_id : String
  pub role : UserRole

pub record RefreshTokenPayload : Type 0 where
  pub sub : String
  pub tid : String
