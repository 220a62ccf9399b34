-- ===== src/Tasks/Objects.antt =====
-- The objects and the queries that src/modules/tasks/tasks.service.ts builds: responses, the data
-- that it saves, and the `where` of a list.
use nestjs_team_tasks_api.Prelude.{
  ℕ, ◌-◌, ◌*◌, String, none, some, List, map, ◌==◌, string_eq, if◌then◌else◌,
}
use nestjs_team_tasks_api.Js.{absent, value, spread, assign_defined, truthy}
use nestjs_team_tasks_api.Entities.{
  Task, TaskObject, AccessTokenPayload, load_task, employee, role_eq,
}
use nestjs_team_tasks_api.Platform.{
  Criteria, FindOptions, equal, is_null, created_at_desc, any_row, query,
}
use nestjs_team_tasks_api.Tasks.Dto.{
  CreateTaskDto, UpdateTaskDto, ListTasksQueryDto, TaskResponseDto, ListTasksResponseDto,
}
use nestjs_team_tasks_api.Tasks.Policy.{NormalizedCreateTaskInput}
use nestjs_team_tasks_api.Queries.{ceil_div}

unfoldable pub to_dto : TaskObject → TaskResponseDto
to_dto task = record {
  id = task.id;
  title = task.title;
  description = task.description;
  status = task.status;
  priority = task.priority;
  organization_id = task.organization_id;
  assignee_id = task.assignee_id;
  project_id = task.project_id;
  due_date = task.due_date;
  created_at = task.created_at;
  updated_at = task.updated_at;
}

-- the object that `create` saves
unfoldable pub task_data : CreateTaskDto → NormalizedCreateTaskInput → String → TaskObject
task_data dto normalized organization_id = record {
  id = absent;
  title = value dto.title;
  description = value dto.description;
  status = assign_defined normalized.status;
  priority = assign_defined normalized.priority;
  organization_id = value organization_id;
  assignee_id = value normalized.assignee_id;
  project_id = value dto.project_id;
  due_date = value dto.due_date;
  created_at = absent;
  updated_at = absent;
  deleted_at = absent;
}

-- `{ ...task, ...dto }`
unfoldable pub merge : Task → UpdateTaskDto → TaskObject
merge task dto = record (load_task task) {
  title = spread (value task.title) dto.title;
  description = spread (value task.description) dto.description;
  status = spread (value task.status) dto.status;
  priority = spread (value task.priority) dto.priority;
  assignee_id = spread (value task.assignee_id) dto.assignee_id;
  due_date = spread (value task.due_date) dto.due_date;
}

-- the `where` of `list`
unfoldable pub list_criteria : AccessTokenPayload → ListTasksQueryDto → Criteria
list_criteria actor query = record any_row {
  organization_id = some (equal actor.organization_id);
  deleted_at = some is_null;
  status = elim query.status [ none ↦ none | some s ↦ some (equal s) ];
  priority = elim query.priority [ none ↦ none | some s ↦ some (equal s) ];
  assignee_id = if actor.role == employee then some (equal actor.sub) else elim query.assignee_id [
    | none ↦ none
    | some a ↦ if truthy a then some (equal a) else none
  ];
}

unfoldable pub list_options : AccessTokenPayload → ListTasksQueryDto → FindOptions
unfolding list_criteria
list_options actor query = record {
  criteria = list_criteria actor query;
  skip = (query.current_page - 1) * query.items_per_page;
  take = query.items_per_page;
  order = created_at_desc;
}

unfoldable pub list_response : ListTasksQueryDto → List Task × ℕ → ListTasksResponseDto
unfolding to_dto
list_response query (tasks, total) = record {
  items = map (λ t. to_dto (load_task t)) tasks;
  total_items = total;
  total_pages = ceil_div total query.items_per_page;
  current_page = query.current_page;
  items_per_page = query.items_per_page;
}
