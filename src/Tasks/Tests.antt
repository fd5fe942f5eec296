-- ===== src/Tasks/Tests.antt =====
-- A task that is created, processed and read, and the theorems about the queue at it.
use client_capmesh.Prelude.{
  arith, eq_iff, ◌==◌, String, ◌≡◌, ◌≢◌, refl, true, false, none, some, List, [], ◌∷◌, Memᴰ, ok,
  err, value_error, ◌⊎◌, inl, inr, find, update, select, ◌≤◌, length, arith,
}
use client_capmesh.Tasks.Envelope.{
  queued, completed, failed, cancelled, Task, Handler, create_task_envelope, list_queued_tasks,
  read_task, mark_running, end_process, process_task, cancel_task, task_status, is_processable,
  is_cancellable,
}
use client_capmesh.Tasks.Process.{
  process_task-cases, cancel_task-cases, list_queued_tasks-queued, status_of, IsElsewhereSame,
  processed_row,
}
use client_capmesh.Tasks.Steps.{State, Step, Steps}
use client_capmesh.Tasks.History.{empty, HasColumns, reachable-HasColumns}
use client_capmesh.Tasks.Settled.{IsSettled, settled_stays}

abbrev job : Task
job = record {
  id = "task_1";
  tenant_id = "asg";
  capability_uri = "cap://org/asg/acme/tool@1.0.0";
  principal = "alice";
  status = queued;
  task_envelope = "{}";
  result = none;
  error = none;
  created_at = "2026-08-01T00:00:00Z";
  started_at = none;
  completed_at = none;
  updated_at = "2026-08-01T00:00:00Z";
}

abbrev now : String
now = "2026-08-01T00:00:05Z"

-- a handler that refuses the empty envelope
abbrev handler : Handler
handler String.[] = inr "no envelope"
handler _ = inl "[1]"

abbrev done : Task
done = record job {
  status = completed;
  result = some "[1]";
  started_at = some now;
  completed_at = some now;
  updated_at = now;
}

created :
    create_task_envelope "task_1" "2026-08-01T00:00:00Z" "cap://org/asg/acme/tool@1.0.0" "alice"
      "{}" "asg" []
    ≡ job ∷ []
unfolding create_task_envelope
created = refl

processed : process_task now "task_1" "asg" handler (job ∷ []) ≡ ok (done ∷ [])
unfolding process_task read_task mark_running end_process find update
processed = refl

-- the error of a first run stays when a second one succeeds
retried :
    process_task now "task_1" "asg" handler
      (record job { status = failed; error = some "timeout" } ∷ [])
    ≡ ok (record done { error = some "timeout" } ∷ [])
unfolding process_task read_task mark_running end_process find update
retried = refl

not_twice : process_task now "task_1" "asg" handler (done ∷ []) ≡ err value_error
unfolding process_task read_task find
not_twice = refl

shown : task_status "task_1" "asg" (done ∷ []) ≡ ok done
unfolding task_status find
shown = refl

listed : list_queued_tasks "asg" 0 (done ∷ job ∷ []) ≡ job ∷ []
unfolding list_queued_tasks select
listed = refl

process_task-cases_example :
    ((row : Task) × (status_of "task_1" "asg" (job ∷ []) ≡ some row)
      × (is_processable row.status ≡ true)
      × (after : List Task) × (process_task now "task_1" "asg" handler (job ∷ []) ≡ ok after)
      × (status_of "task_1" "asg" after ≡ some (processed_row now (handler row.task_envelope) row))
      × IsElsewhereSame now "task_1" "asg" (job ∷ []) after)
    ⊎ (((row : Task)
          → status_of "task_1" "asg" (job ∷ []) ≡ some row
          → is_processable row.status ≡ false)
        × (process_task now "task_1" "asg" handler (job ∷ []) ≡ err value_error))
process_task-cases_example = process_task-cases now "task_1" "asg" (job ∷ []) handler

cancel_task-cases_example :
    ((row : Task) × (status_of "task_1" "asg" (job ∷ []) ≡ some row)
      × (is_cancellable row.status ≡ true)
      × (after : List Task) × (cancel_task now "task_1" "asg" (job ∷ []) ≡ ok after)
      × (status_of "task_1" "asg" after
          ≡ some (record row { status = cancelled; updated_at = now }))
      × IsElsewhereSame now "task_1" "asg" (job ∷ []) after)
    ⊎ (((row : Task)
          → status_of "task_1" "asg" (job ∷ []) ≡ some row
          → is_cancellable row.status ≡ false)
        × (cancel_task now "task_1" "asg" (job ∷ []) ≡ err value_error))
cancel_task-cases_example = cancel_task-cases now "task_1" "asg" (job ∷ [])

list_queued_tasks-queued_example :
    (length (list_queued_tasks "asg" 500 (done ∷ job ∷ [])) ≤ 200)
    × ((t : Task)
        → Memᴰ t (list_queued_tasks "asg" 500 (done ∷ job ∷ []))
        → Memᴰ t (done ∷ job ∷ []) × (t.status ≡ queued) × (t.tenant_id ≡ "asg"))
list_queued_tasks-queued_example = list_queued_tasks-queued "asg" 500 (done ∷ job ∷ [])

-- the task is created, read, marked as running and finished
abbrev ended : State
ended = record { tasks = done ∷ []; calls = [] }

run : Steps empty ended
unfolding create_task_envelope read_task mark_running end_process find update
run =
    Steps.step
      (Step.create "task_1" "2026-08-01T00:00:00Z" "cap://org/asg/acme/tool@1.0.0" "alice" "{}"
        "asg" (λ t m. elim m [ ]) (λ c m. elim m [ ]))
      (Steps.step (Step.select_process job "task_1" "asg" refl) (
        Steps.step (Step.start job now [] [] refl)
          (Steps.step (Step.finish job now handler [] [] refl) Steps.stop)))

reachable-HasColumns_example : HasColumns done
reachable-HasColumns_example = reachable-HasColumns run done (Memᴰ.head refl)

ended-IsSettled : IsSettled "task_1" ended
ended-IsSettled = record {
  ended = λ t m e. elim m [ Memᴰ.head same ↦ rw same (refl, refl) | Memᴰ.tail m' ↦ elim m' [ ] ];
  alone = λ c m. elim m [ ];
}

abbrev second : Task
second = record job { id = "task_2" }

ids_differ : job.id ≢ "task_2"
ids_differ e =
    let same : (job.id == "task_2") ≡ true = (eq_iff job.id "task_2").1 e in ground (arith, same)

another : Steps ended (record { tasks = done ∷ second ∷ []; calls = [] })
unfolding create_task_envelope
another =
    Steps.step
      (Step.create "task_2" "2026-08-01T00:00:00Z" "cap://org/asg/acme/tool@1.0.0" "alice" "{}"
        "asg" (λ t m. elim m [ Memᴰ.head same ↦ rw same ids_differ | Memᴰ.tail m' ↦ elim m' [ ] ])
        (λ c m. elim m [ ]))
      Steps.stop

settled_stays_example : Memᴰ done (done ∷ second ∷ [])
settled_stays_example = settled_stays another ended-IsSettled done refl (Memᴰ.head refl)
