-- ===== src/Kernel/Mutations/Lifecycle.antt =====
-- What the task operations write in the table of the tasks.
use codex_post_office.Base.{◌≡◌, List, update}
use codex_post_office.Hub.{Hub, Task, TaskState}
use codex_post_office.Kernel.Moves.{Moves}
use codex_post_office.Kernel.Authority.Call.{Call}
use codex_post_office.Kernel.Mutations.Tasks
use codex_post_office.Kernel.Mutations.Tasks.{TaskOperation, is_task}
use codex_post_office.Kernel.Mutations.TaskStates.{Follows}

abbrev pub tasks_of : Hub → List Task
tasks_of h = h.tasks

-- What an operation writes in the row of its task: a move the project, and all others the state.
abbrev pub carried : TaskOperation → TaskState → Task → Task
carried (Tasks.bind_endpoint e g) s o = record o { state = s }
carried Tasks.activate s o = record o { state = s }
carried (Tasks.block r) s o = record o { state = s }
carried (Tasks.move_project p r) s o = record o { project_id = p }
carried (Tasks.record_response m es) s o = record o { state = s }
carried (Tasks.review d r) s o = record o { state = s }
carried (Tasks.close n) s o = record o { state = s }

-- The row of the task is carried to a state that follows, and the table of the tasks is otherwise as
-- it was.
abbrev pub IsStep : TaskOperation → Task → List Task → List Task → Type 0
IsStep op t ts ts' =
    (s : TaskState) × Follows op t.state s × (ts' ≡ update (is_task t.task_id) (carried op s) ts)
