-- ===== src/Tasks/Process.antt =====
-- One call of `process_task` or `cancel_task` (capmesh/task_runner.py), and what `task_status` shows
-- after it.
use client_capmesh.Prelude.{
  String, Bool, ◌≡◌, ◌≢◌, refl, true, false, Option, some, List, Memᴰ, arith, find, update,
  find-update, find-update_other, ok, err, value_error, ◌⊎◌, inl, inr, eq_iff, Option-cases,
  Bool-cases, and-true_iff, ℕ, ◌≤◌, length, length-take, Memᴰ-of-take, Memᴰ-of-order_by,
  Memᴰ-of-select, ◌∙◌, take, ap,
}
use client_capmesh.Tasks.Envelope.{
  Status, queued, cancelled, Task, has_id, is_task, is_processable, is_cancellable, start_task,
  finish_task, Handler, read_task, mark_running, mark_cancelled, clamp, end_process, process_task,
  cancel_task, list_queued_tasks, read_task, mark_running, mark_cancelled, clamp, completed, failed,
}

-- the row that `task_status` shows
abbrev pub status_of : (task_id tenant_id : String) → List Task → Option Task
status_of task_id tenant_id tasks = find (is_task task_id tenant_id) tasks

-- an UPDATE of one task that keeps its keys
module _ (task_id tenant_id : String) (f : Task → Task) (same_id : (t : Task) → (f t).id ≡ t.id)
    (same_tenant : (t : Task) → (f t).tenant_id ≡ t.tenant_id) (tasks : List Task) where
  pub status-update :
      {row : Task}
      → status_of task_id tenant_id tasks ≡ some row
      → status_of task_id tenant_id (update (has_id task_id) f tasks) ≡ some (f row)
  status-update =
      find-update (is_task task_id tenant_id) (has_id task_id) f tasks
        (λ t. rw (same_id t, same_tenant t)) (λ t h. ((and-true_iff _ _).0 h).0)

  pub status-update_other :
      (other other_tenant : String)
      → other ≢ task_id
      → status_of other other_tenant (update (has_id task_id) f tasks)
        ≡ status_of other other_tenant tasks
  status-update_other other other_tenant d =
      find-update_other (is_task other other_tenant) (has_id task_id) f tasks
        (λ t. rw (same_id t, same_tenant t))
        (λ t h. ground (arith, eq_iff t.id other, eq_iff t.id task_id, d))

pub finish-id : (now : String) (o : String ⊎ String) (t : Task) → (finish_task now o t).id ≡ t.id
finish-id now (inl r) t = refl
finish-id now (inr e) t = refl

pub finish-tenant :
    (now : String) (o : String ⊎ String) (t : Task) → (finish_task now o t).tenant_id ≡ t.tenant_id
finish-tenant now (inl r) t = refl
finish-tenant now (inr e) t = refl

read-cases :
    (is_allowed : Status → Bool) (task_id tenant_id : String) (tasks : List Task)
    → ((row : Task) × (status_of task_id tenant_id tasks ≡ some row)
        × (is_allowed row.status ≡ true)
        × (read_task is_allowed task_id tenant_id tasks ≡ ok row))
      ⊎ (((row : Task)
            → status_of task_id tenant_id tasks ≡ some row
            → is_allowed row.status ≡ false)
          × (read_task is_allowed task_id tenant_id tasks ≡ err value_error))
unfolding read_task
read-cases is_allowed task_id tenant_id tasks =
    elim (Option-cases (status_of task_id tenant_id tasks)) [
      | inl e ↦ inr (λ row h. absurd (ground arith), rw (read_task, e))
      | inr (row, e) ↦ elim (Bool-cases (is_allowed row.status)) [
        | inl a ↦ inl (row, e, a, rw (read_task, e, a))
        | inr a ↦ inr (
          λ other h. let same : row ≡ other = ground arith in rw (← same) a,
          rw (read_task, e, a),
        )
      ]
    ]

pub read_found :
    (is_allowed : Status → Bool) (task_id tenant_id : String) (tasks : List Task) {row : Task}
    → status_of task_id tenant_id tasks ≡ some row
    → is_allowed row.status ≡ true
    → read_task is_allowed task_id tenant_id tasks ≡ ok row
unfolding read_task
read_found is_allowed task_id tenant_id tasks h a = rw (read_task, h, a)

pub status-of_read :
    (is_allowed : Status → Bool) (task_id tenant_id : String) (tasks : List Task) {row : Task}
    → read_task is_allowed task_id tenant_id tasks ≡ ok row
    → status_of task_id tenant_id tasks ≡ some row
status-of_read is_allowed task_id tenant_id tasks h =
    elim (read-cases is_allowed task_id tenant_id tasks) [
      | inl (r, e, a, read) ↦ ground (arith, h, read, e)
      | inr (unfit, refused) ↦ absurd (ground (arith, h, refused))
    ]

-- what the row of a processed task reads then
abbrev pub processed_row : (now : String) → String ⊎ String → Task → Task
processed_row now (inl result) row = record row {
  status = completed;
  result = some result;
  started_at = some now;
  completed_at = some now;
  updated_at = now;
}
processed_row now (inr error) row = record row {
  status = failed;
  error = some error;
  started_at = some now;
  updated_at = now;
}

finish-start :
    (now : String) (o : String ⊎ String) (row : Task)
    → finish_task now o (start_task now row) ≡ processed_row now o row
finish-start now (inl result) row = refl
finish-start now (inr error) row = refl

module _ (now task_id tenant_id : String) (tasks : List Task) where
  -- what the other tasks read after a call
  abbrev pub IsElsewhereSame : List Task → Type 0
  IsElsewhereSame after =
      (other other_tenant : String)
      → other ≢ task_id
      → status_of other other_tenant after ≡ status_of other other_tenant tasks

  -- `process_task` either succeeds or raises. It succeeds, whatever the handler does, exactly on a
  -- queued or failed task of the tenant; the task is then completed with the result of the handler
  -- on its stored envelope, or failed with the text of the exception, and no other column but the
  -- time stamps has changed. Tasks of other ids read as before.
  pub process_task-cases :
      (handler : Handler)
      → ((row : Task) × (status_of task_id tenant_id tasks ≡ some row)
          × (is_processable row.status ≡ true)
          × (after : List Task) × (process_task now task_id tenant_id handler tasks ≡ ok after)
          × (status_of task_id tenant_id after
              ≡ some (processed_row now (handler row.task_envelope) row))
          × IsElsewhereSame after)
        ⊎ (((row : Task)
              → status_of task_id tenant_id tasks ≡ some row
              → is_processable row.status ≡ false)
            × (process_task now task_id tenant_id handler tasks ≡ err value_error))
  unfolding process_task mark_running end_process
  process_task-cases handler = elim (read-cases is_processable task_id tenant_id tasks) [
    | inr (none_fits, refused) ↦ inr (none_fits, rw refused)
    | inl (row, h, p, read) ↦
        let outcome = handler row.task_envelope in
        let started =
          status-update task_id tenant_id (start_task now) (λ t. refl) (λ t. refl) tasks h in
        inl (
          row,
          h,
          p,
          update (has_id task_id) (finish_task now outcome)
              (update (has_id task_id) (start_task now) tasks),
          rw read,
          status-update task_id tenant_id (finish_task now outcome) (finish-id now outcome)
                (finish-tenant now outcome) _ started
              ∙ ap some (finish-start now outcome row),
          λ other other_tenant d.
              status-update_other task_id tenant_id (finish_task now outcome)
                (finish-id now outcome) (finish-tenant now outcome) _ other other_tenant d
              ∙ status-update_other task_id tenant_id (start_task now) (λ t. refl) (λ t. refl) tasks
                  other other_tenant d,
        )
  ]

  -- `cancel_task` either succeeds or raises. It succeeds exactly on a queued or running task of the
  -- tenant, which is then cancelled with no other column changed but `updated_at`. Tasks of other
  -- ids read as before.
  pub cancel_task-cases :
      ((row : Task) × (status_of task_id tenant_id tasks ≡ some row)
        × (is_cancellable row.status ≡ true)
        × (after : List Task) × (cancel_task now task_id tenant_id tasks ≡ ok after)
        × (status_of task_id tenant_id after
            ≡ some (record row { status = cancelled; updated_at = now }))
        × IsElsewhereSame after)
      ⊎ (((row : Task)
            → status_of task_id tenant_id tasks ≡ some row
            → is_cancellable row.status ≡ false)
          × (cancel_task now task_id tenant_id tasks ≡ err value_error))
  unfolding cancel_task mark_cancelled
  cancel_task-cases = elim (read-cases is_cancellable task_id tenant_id tasks) [
    | inr (none_fits, refused) ↦ inr (none_fits, rw refused)
    | inl (row, h, p, read) ↦ inl (
      row,
      h,
      p,
      mark_cancelled now task_id tasks,
      rw read,
      status-update task_id tenant_id _ (λ t. refl) (λ t. refl) tasks h,
      status-update_other task_id tenant_id _ (λ t. refl) (λ t. refl) tasks,
    )
  ]

clamp_le : (limit : ℕ) → clamp limit ≤ 200
clamp_le limit = ground arith

length-take-clamp : (limit : ℕ) (tasks : List Task) → length (take (clamp limit) tasks) ≤ 200
length-take-clamp limit tasks =
    let a = clamp_le limit in let b = length-take (clamp limit) tasks in omega (arith, a, b)

-- The queue that a runner reads has at most 200 tasks, all of them stored, queued and of its tenant.
pub list_queued_tasks-queued :
    (tenant_id : String) (limit : ℕ) (tasks : List Task)
    → (length (list_queued_tasks tenant_id limit tasks) ≤ 200)
      × ((t : Task)
          → Memᴰ t (list_queued_tasks tenant_id limit tasks)
          → Memᴰ t tasks × (t.status ≡ queued) × (t.tenant_id ≡ tenant_id))
unfolding list_queued_tasks
list_queued_tasks-queued tenant_id limit tasks = (
  length-take-clamp limit _,
  λ t m.
      let (stored, fits) =
        Memᴰ-of-select _ tasks (Memᴰ-of-order_by _ _ (Memᴰ-of-take (clamp limit) _ m)) in
      (stored, ground arith, ground (arith, eq_iff t.tenant_id tenant_id)),
)
