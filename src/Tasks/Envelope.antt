-- ===== src/Tasks/Envelope.antt =====
-- capmesh/task_runner.py: the table `task_envelopes` and the operations on it. A JSON column holds
-- the text that `json_dumps` gives, and `json_loads` of it is that value again. One call reads the
-- clock once. `new_id`, a random key, is an argument.
use client_capmesh.Prelude.{
  ℕ, String, Bool, true, false, ◌&&◌, Option, none, some, List, [], ◌∷◌, ◌++◌, ◌==◌, ◌⊎◌, inl, inr,
  find, select, update, take, order_by, str_le, leb, Result, ok, err, value_error, if◌then◌else◌,
  ◌>>=◌,
}

-- TASK_STATUSES, the values of the CHECK constraint
pub data Status : Type 0 where
  queued running completed failed cancelled : Status

pub record Task : Type 0 where
  pub id : String
  pub tenant_id : String
  pub capability_uri : String
  pub principal : String
  pub status : Status
  pub task_envelope : String
  pub result : Option String
  pub error : Option String
  pub created_at : String
  pub started_at : Option String
  pub completed_at : Option String
  pub updated_at : String

abbrev pub has_id : String → Task → Bool
has_id task_id t = t.id == task_id

-- WHERE id = ? AND tenant_id = ?
abbrev pub is_task : String → String → Task → Bool
is_task task_id tenant_id t = t.id == task_id && t.tenant_id == tenant_id

abbrev pub is_queued : Status → Bool
is_queued queued = true
is_queued _ = false

-- status in ("queued", "failed")
abbrev pub is_processable : Status → Bool
is_processable queued = true
is_processable failed = true
is_processable _ = false

-- status in ("queued", "running")
abbrev pub is_cancellable : Status → Bool
is_cancellable queued = true
is_cancellable running = true
is_cancellable _ = false

unfoldable pub create_task_envelope :
    (new_id now capability_uri principal task_envelope tenant_id : String) → List Task → List Task
create_task_envelope new_id now capability_uri principal task_envelope tenant_id tasks =
    tasks
    ++ (record {
      id = new_id;
      tenant_id = tenant_id;
      capability_uri = capability_uri;
      principal = principal;
      status = queued;
      task_envelope = task_envelope;
      result = none;
      error = none;
      created_at = now;
      started_at = none;
      completed_at = none;
      updated_at = now;
    }
        ∷ [])

-- min(max(limit, 1), 200); a limit below 0 is here 0, which gives the same
abbrev pub clamp : ℕ → ℕ
clamp limit = if leb limit 0 then 1 else if leb limit 200 then limit else 200

unfoldable pub list_queued_tasks : (tenant_id : String) → ℕ → List Task → List Task
list_queued_tasks tenant_id limit tasks = take (clamp limit) (
    order_by (λ s t. str_le s.created_at t.created_at)
      (select (λ (t : Task). is_queued t.status && t.tenant_id == tenant_id) tasks))

-- The three updates of `process_task`.
abbrev pub start_task : (now : String) → Task → Task
start_task now t = record t { status = running; started_at = some now; updated_at = now }

abbrev pub complete_task : (now result : String) → Task → Task
complete_task now result t = record t {
  status = completed;
  result = some result;
  completed_at = some now;
  updated_at = now;
}

abbrev pub fail_task : (now error : String) → Task → Task
fail_task now error t = record t { status = failed; error = some error; updated_at = now }

-- What a handler gives: the JSON text of its result, or the text of the exception that it or
-- `json_dumps` raises.
abbrev pub Handler : Type 0
Handler = String → String ⊎ String

abbrev pub finish_task : (now : String) → String ⊎ String → Task → Task
finish_task now (inl result) = complete_task now result
finish_task now (inr error) = fail_task now error

-- the SELECT of `process_task` and of `cancel_task`, and the checks on its row
unfoldable pub read_task :
    (is_allowed : Status → Bool) (task_id tenant_id : String) → List Task → Result Task
read_task is_allowed task_id tenant_id tasks = elim (find (is_task task_id tenant_id) tasks) [
  | none ↦ err value_error
  | some row ↦ if is_allowed row.status then ok row else err value_error
]

-- UPDATE ... SET status = 'running'
unfoldable pub mark_running : (now task_id : String) → List Task → List Task
mark_running now task_id = update (has_id task_id) (start_task now)

-- the handler runs on the envelope that was read, and its outcome is written
unfoldable pub end_process : (now task_id task_envelope : String) → Handler → List Task → List Task
end_process now task_id task_envelope handler =
    update (has_id task_id) (finish_task now (handler task_envelope))

unfoldable pub process_task :
    (now task_id tenant_id : String) → Handler → List Task → Result (List Task)
process_task now task_id tenant_id handler tasks =
    read_task is_processable task_id tenant_id tasks >>= λ row.
    ok (end_process now task_id row.task_envelope handler (mark_running now task_id tasks))

abbrev pub stop_task : (now : String) → Task → Task
stop_task now t = record t { status = cancelled; updated_at = now }

-- UPDATE ... SET status = 'cancelled'
unfoldable pub mark_cancelled : (now task_id : String) → List Task → List Task
mark_cancelled now task_id = update (has_id task_id) (stop_task now)

unfoldable pub cancel_task : (now task_id tenant_id : String) → List Task → Result (List Task)
cancel_task now task_id tenant_id tasks =
    read_task is_cancellable task_id tenant_id tasks >>= λ row.
    ok (mark_cancelled now task_id tasks)

-- `_row_to_dict` is a renaming of the columns.
unfoldable pub task_status : (task_id tenant_id : String) → List Task → Result Task
task_status task_id tenant_id tasks = elim (find (is_task task_id tenant_id) tasks) [
  | none ↦ err value_error
  | some row ↦ ok row
]
