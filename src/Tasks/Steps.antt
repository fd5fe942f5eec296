-- ===== src/Tasks/Steps.antt =====
-- Several callers of capmesh/task_runner.py on one table: every SELECT and every committed UPDATE is
-- a step of its own, so that calls interleave between them.
use client_capmesh.Prelude.{
  String, Bool, ◌≡◌, ◌≢◌, refl, true, List, [], ◌∷◌, ◌++◌, Memᴰ, arith, Memᴰ-cons_cases, ◌⊎◌, inl,
  inr, ok, Option-cases, find, Memᴰ-of-find,
}
use client_capmesh.Tasks.Envelope.{
  Status, Task, is_processable, is_cancellable, Handler, create_task_envelope, read_task,
  mark_running, mark_cancelled, end_process, is_task,
}

-- a call that has not ended: what it has done, and the row that it read
pub data Call : Type 0 where
  to_start to_finish to_cancel : Task → Call

pub record State : Type 0 where
  pub tasks : List Task
  pub calls : List Call

abbrev pub row_of : Call → Task
row_of (to_start row) = row
row_of (to_finish row) = row
row_of (to_cancel row) = row

pub data Step : State → State → Type 0 where
  create :
      {s : State} (new_id now capability_uri principal task_envelope tenant_id : String)
      → ((t : Task) → Memᴰ t s.tasks → t.id ≢ new_id)
      → ((c : Call) → Memᴰ c s.calls → (row_of c).id ≢ new_id)
      → Step s (record s {
        tasks =
            create_task_envelope new_id now capability_uri principal task_envelope tenant_id
              s.tasks;
      })
  select_process :
      {s : State} (row : Task) (task_id tenant_id : String)
      → read_task is_processable task_id tenant_id s.tasks ≡ ok row
      → Step s (record s { calls = to_start row ∷ s.calls })
  start :
      {s : State} (row : Task) (now : String) (before after : List Call)
      → s.calls ≡ before ++ (to_start row ∷ after)
      → Step s (record {
        tasks = mark_running now row.id s.tasks;
        calls = before ++ (to_finish row ∷ after);
      })
  finish :
      {s : State} (row : Task) (now : String) (handler : Handler) (before after : List Call)
      → s.calls ≡ before ++ (to_finish row ∷ after)
      → Step s (record {
        tasks = end_process now row.id row.task_envelope handler s.tasks;
        calls = before ++ after;
      })
  select_cancel :
      {s : State} (row : Task) (task_id tenant_id : String)
      → read_task is_cancellable task_id tenant_id s.tasks ≡ ok row
      → Step s (record s { calls = to_cancel row ∷ s.calls })
  cancel :
      {s : State} (row : Task) (now : String) (before after : List Call)
      → s.calls ≡ before ++ (to_cancel row ∷ after)
      → Step s (record { tasks = mark_cancelled now row.id s.tasks; calls = before ++ after })

pub data Steps : State → State → Type 0 where
  stop : {s : State} → Steps s s
  step : {s t u : State} → Step s t → Steps t u → Steps s u

pub append_mid :
    {x : Call} (y : Call) (before after : List Call)
    → Memᴰ x (before ++ after)
    → Memᴰ x (before ++ (y ∷ after))
append_mid y [] after m = Memᴰ.tail m
append_mid y (z ∷ before) after (Memᴰ.head e) = Memᴰ.head e
append_mid y (z ∷ before) after (Memᴰ.tail m) = Memᴰ.tail (append_mid y before after m)

pub append_cases :
    {x y : Call} (before after : List Call)
    → Memᴰ x (before ++ (y ∷ after))
    → (x ≡ y) ⊎ Memᴰ x (before ++ after)
append_cases [] after m = Memᴰ-cons_cases m
append_cases (z ∷ before) after (Memᴰ.head e) = inr (Memᴰ.head e)
append_cases (z ∷ before) after (Memᴰ.tail m) = elim (append_cases before after m) [
  | inl e ↦ inl e
  | inr n ↦ inr (Memᴰ.tail n)
]

pub append_here : {y : Call} (before after : List Call) → Memᴰ y (before ++ (y ∷ after))
append_here [] after = Memᴰ.head refl
append_here (z ∷ before) after = Memᴰ.tail (append_here before after)

-- the row that a call has read
pub read_task-of :
    (is_allowed : Status → Bool) (task_id tenant_id : String) (tasks : List Task) {row : Task}
    → read_task is_allowed task_id tenant_id tasks ≡ ok row
    → Memᴰ row tasks × (is_allowed row.status ≡ true)
unfolding read_task
read_task-of is_allowed task_id tenant_id tasks {row} h =
    elim (Option-cases (find (is_task task_id tenant_id) tasks)) [
      | inl e ↦ absurd (ground (arith, e, h))
      | inr (r, e) ↦
          let same : r ≡ row = ground (arith, e, h) in
          let fits : is_allowed r.status ≡ true = ground (arith, e, h) in
          (rw (← same) (Memᴰ-of-find (is_task task_id tenant_id) tasks e).0, rw (← same) fits)
    ]
