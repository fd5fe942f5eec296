-- ===== src/Tasks/History.antt =====
-- The columns of the tasks along every interleaving of the calls of capmesh/task_runner.py.
use client_capmesh.Prelude.{
  String, Bool, ◌≡◌, ◌≢◌, refl, sym, ap, ◌∙◌, true, false, none, some, List, [], ◌∷◌, ◌++◌, Memᴰ,
  arith, update, Memᴰ-update_cases, Memᴰ-cons_cases, ◌⊎◌, inl, inr, eq_iff, Memᴰ-snoc_cases,
}
use client_capmesh.Tasks.Envelope.{
  stop_task, Status, queued, running, completed, failed, cancelled, Task, has_id, start_task,
  finish_task, create_task_envelope, mark_running, mark_cancelled, end_process,
}
use client_capmesh.Tasks.Process.{finish-id}
use client_capmesh.Tasks.Steps.{
  State, Call, to_start, to_finish, to_cancel, row_of, Step, Steps, append_mid, append_cases,
  append_here,
}

-- the columns that a task of each status has
abbrev pub HasColumns : Task → Type 0
HasColumns t =
    (t.status ≡ running → t.started_at ≢ none)
    × (t.status ≡ completed → (t.started_at ≢ none) × (t.result ≢ none) × (t.completed_at ≢ none))
    × (t.status ≡ failed → (t.started_at ≢ none) × (t.error ≢ none))

-- a call between its two updates has started its task
abbrev pub HasStarted : List Task → Call → Type 0
HasStarted tasks (to_start row) = Unit
HasStarted tasks (to_finish row) = (t : Task) → Memᴰ t tasks → t.id ≡ row.id → t.started_at ≢ none
HasStarted tasks (to_cancel row) = Unit

-- no column but the first ones is asked of it
abbrev is_idle : Status → Bool
is_idle queued = true
is_idle cancelled = true
is_idle _ = false

record IsConsistent (s : State) : Type 0 where
  columns : (t : Task) → Memᴰ t s.tasks → HasColumns t
  started : (c : Call) → Memᴰ c s.calls → HasStarted s.tasks c

some-none : (a : String) → some a ≢ none
some-none a e = ground arith

module _ (tasks : List Task) (task_id : String) (f : Task → Task)
    (same_id : (t : Task) → (f t).id ≡ t.id)
    (keeps : (t : Task) → t.started_at ≢ none → (f t).started_at ≢ none) where
  HasStarted-update :
      (c : Call) → HasStarted tasks c → HasStarted (update (has_id task_id) f tasks) c
  HasStarted-update (to_start row) h = h
  HasStarted-update (to_finish row) h = λ t m e.
      let (y, my, cases) = Memᴰ-update_cases (has_id task_id) f tasks m in
      elim cases [
        | inl (q, same) ↦
            rw same (keeps y (h y my (sym (same_id y) ∙ (sym (ap (λ t. t.id) same) ∙ e))))
        | inr (q, same) ↦ rw same (h y my (sym (ap (λ t. t.id) same) ∙ e))
      ]
  HasStarted-update (to_cancel row) h = h

  HasColumns-update :
      ((t : Task) → Memᴰ t tasks → HasColumns t)
      → ((t : Task) → Memᴰ t tasks → t.id ≡ task_id → HasColumns t → HasColumns (f t))
      → (t : Task) → Memᴰ t (update (has_id task_id) f tasks)
      → HasColumns t
  HasColumns-update all k t m =
      let (y, my, cases) = Memᴰ-update_cases (has_id task_id) f tasks m in
      elim cases [
        | inl (q, same) ↦ rw same (k y my ((eq_iff _ _).0 q) (all y my))
        | inr (q, same) ↦ rw same (all y my)
      ]

start_task-HasStarted :
    (now : String) (row : Task) (tasks : List Task)
    → HasStarted (mark_running now row.id tasks) (to_finish row)
unfolding mark_running
start_task-HasStarted now row tasks t m e =
    let (y, my, cases) = Memᴰ-update_cases (has_id row.id) (start_task now) tasks m in
    elim cases [
      | inl (q, same) ↦ rw same (some-none now)
      | inr (q, same) ↦ absurd (ground (arith, eq_iff y.id row.id, ap (λ t. t.id) same, e, q))
    ]

finish-HasColumns :
    (now : String) (o : String ⊎ String) (t : Task)
    → t.started_at ≢ none
    → HasColumns (finish_task now o t)
finish-HasColumns now (inl r) t h =
    (λ e. absurd (ground arith), λ e. (h, some-none r, some-none now), λ e. absurd (ground arith))
finish-HasColumns now (inr x) t h =
    (λ e. absurd (ground arith), λ e. absurd (ground arith), λ e. (h, some-none x))

HasStarted-snoc :
    (tasks : List Task) (n : Task) (c : Call)
    → (row_of c).id ≢ n.id
    → HasStarted tasks c
    → HasStarted (tasks ++ (n ∷ [])) c
HasStarted-snoc tasks n (to_start row) d h = h
HasStarted-snoc tasks n (to_finish row) d h = λ t m e. elim (Memᴰ-snoc_cases tasks m) [
  | inl same ↦ absurd (d (sym e ∙ ap (λ t. t.id) same))
  | inr old ↦ h t old e
]
HasStarted-snoc tasks n (to_cancel row) d h = h

finish-started :
    (now : String) (o : String ⊎ String) (t : Task)
    → (finish_task now o t).started_at ≡ t.started_at
finish-started now (inl r) t = refl
finish-started now (inr e) t = refl

no_columns : (t : Task) → is_idle t.status ≡ true → HasColumns t
no_columns t h =
    (λ e. absurd (ground arith), λ e. absurd (ground arith), λ e. absurd (ground arith))

module _ {s : State} (c : IsConsistent s) where
  -- a call is added that has not started its task
  select-IsConsistent :
      (k : Call) → HasStarted s.tasks k → IsConsistent (record s { calls = k ∷ s.calls })
  select-IsConsistent k h = record {
    columns = c.columns;
    started =
        λ k' m. elim (Memᴰ-cons_cases m) [ inl same ↦ rw same h | inr old ↦ c.started k' old ];
  }

next-IsConsistent : {s u : State} → Step s u → IsConsistent s → IsConsistent u
unfolding create_task_envelope mark_running mark_cancelled end_process
next-IsConsistent (Step.create {s} new_id now uri principal envelope tenant fresh fresh_calls) c =
    record {
      columns = λ t m. elim (Memᴰ-snoc_cases s.tasks m) [
        | inl same ↦ no_columns t (rw same refl)
        | inr old ↦ c.columns t old
      ];
      started = λ k m. HasStarted-snoc s.tasks _ k (fresh_calls k m) (c.started k m);
    }
next-IsConsistent (Step.select_process {s} row task_id tenant_id read) c =
    select-IsConsistent c (to_start row) _
next-IsConsistent (Step.select_cancel {s} row task_id tenant_id read) c =
    select-IsConsistent c (to_cancel row) _
next-IsConsistent (Step.start {s} row now before after split) c = record {
  columns =
      HasColumns-update s.tasks row.id (start_task now) (λ t. refl) (λ t h. some-none now) c.columns
        (λ t m e h. (λ e. some-none now, λ e. absurd (ground arith), λ e. absurd (ground arith)));
  started = λ k m. elim (append_cases before after m) [
    | inl same ↦ rw same (start_task-HasStarted now row s.tasks)
    | inr old ↦
        HasStarted-update s.tasks row.id (start_task now) (λ t. refl) (λ t h. some-none now) k
          (c.started k (rw split (append_mid (to_start row) before after old)))
  ];
}
next-IsConsistent (Step.finish {s} row now handler before after split) c =
    let o = handler row.task_envelope in
    let mine = c.started (to_finish row) (rw split (append_here before after)) in
    record {
      columns =
          HasColumns-update s.tasks row.id (finish_task now o) (finish-id now o)
            (λ t h. rw finish-started h) c.columns
            (λ t m e h. finish-HasColumns now o t (mine t m e));
      started = λ k m.
          HasStarted-update s.tasks row.id (finish_task now o) (finish-id now o)
            (λ t h. rw finish-started h) k
            (c.started k (rw split (append_mid (to_finish row) before after m)));
    }
next-IsConsistent (Step.cancel {s} row now before after split) c = record {
  columns =
      HasColumns-update s.tasks row.id (stop_task now) (λ t. refl) (λ t h. h) c.columns
        (λ t m e h. no_columns (stop_task now t) refl);
  started = λ k m.
      HasStarted-update s.tasks row.id (stop_task now) (λ t. refl) (λ t h. h) k
        (c.started k (rw split (append_mid (to_cancel row) before after m)));
}

run-IsConsistent : {s u : State} → Steps s u → IsConsistent s → IsConsistent u
run-IsConsistent Steps.stop c = c
run-IsConsistent (Steps.step first rest) c = run-IsConsistent rest (next-IsConsistent first c)

abbrev pub empty : State
empty = record { tasks = []; calls = [] }

empty-IsConsistent : IsConsistent empty
empty-IsConsistent = record { columns = λ t m. elim m [ ]; started = λ c m. elim m [ ] }

-- However the calls of several callers interleave, each of their queries and updates being a step, a
-- stored task has the columns of its status: a running one has a start time, a completed one a
-- start time, a result and an end time, a failed one a start time and an error.
pub reachable-HasColumns : {s : State} → Steps empty s → (t : Task) → Memᴰ t s.tasks → HasColumns t
reachable-HasColumns steps t m = (run-IsConsistent steps empty-IsConsistent).columns t m
