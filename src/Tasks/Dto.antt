-- ===== src/Tasks/Dto.antt =====
-- The request and response objects of the tasks module (src/modules/tasks/dto). The properties of
-- a request are as the validation pipe leaves them: `@IsOptional` lets `null` pass.
use nestjs_team_tasks_api.Prelude.{ℕ, String, Option, List}
use nestjs_team_tasks_api.Js.{Field}
use nestjs_team_tasks_api.Entities.{TaskStatus, TaskPriority, Date}

pub record CreateTaskDto : Type 0 where
  pub title : String
  pub description : String
  pub status : Field TaskStatus
  pub priority : Field TaskPriority
  pub assignee_id : Field String
  pub project_id : String
  pub due_date : Date

pub record UpdateTaskDto : Type 0 where
  pub title : Field String
  pub description : Field String
  pub status : Field TaskStatus
  pub priority : Field TaskPriority
  pub assignee_id : Field String
  pub due_date : Field Date

-- A query string has no `null`: a filter is given or not.
pub record ListTasksQueryDto : Type 0 where
  pub current_page : ℕ
  pub items_per_page : ℕ
  pub status : Option TaskStatus
  pub assignee_id : Option String
  pub priority : Option TaskPriority

pub record TaskResponseDto : Type 0 where
  pub id : Field String
  pub title : Field String
  pub description : Field String
  pub status : Field TaskStatus
  pub priority : Field TaskPriority
  pub organization_id : Field String
  pub assignee_id : Field String
  pub project_id : Field String
  pub due_date : Field Date
  pub created_at : Field Date
  pub updated_at : Field Date

pub record ListTasksResponseDto : Type 0 where
  pub items : List TaskResponseDto
  pub total_items : ℕ
  pub total_pages : ℕ
  pub current_page : ℕ
  pub items_per_page : ℕ
