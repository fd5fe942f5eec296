-- ===== src/Tasks/Settled.antt =====
-- A task of capmesh/task_runner.py that no call is at work on, and a cancellation that comes while
-- its handler runs.
use client_capmesh.Prelude.{
  String, ◌≡◌, ◌≢◌, refl, sym, ap, ◌∙◌, false, List, ◌∷◌, ◌++◌, Memᴰ, arith, update,
  Memᴰ-update_cases, Memᴰ-update, Memᴰ-cons_cases, inl, inr, eq_iff, Memᴰ-snoc_cases, Memᴰ-snoc_of,
}
use client_capmesh.Tasks.Envelope.{
  stop_task, Task, has_id, is_processable, is_cancellable, start_task, finish_task,
  create_task_envelope, mark_running, mark_cancelled, end_process,
}
use client_capmesh.Tasks.Process.{finish-id}
use client_capmesh.Tasks.Steps.{
  State, Call, to_start, to_finish, to_cancel, row_of, Step, Steps, append_mid, append_cases,
  append_here, read_task-of,
}

-- the tasks of the id are completed or cancelled, and no call is at work on them
pub record IsSettled (task_id : String) (s : State) : Type 0 where
  pub ended :
      (t : Task)
      → Memᴰ t s.tasks
      → t.id ≡ task_id
      → (is_processable t.status ≡ false) × (is_cancellable t.status ≡ false)
  pub alone : (c : Call) → Memᴰ c s.calls → (row_of c).id ≢ task_id

-- whether a task of the id was there before
abbrev Kept : String → List Task → List Task → Type 0
Kept task_id tasks after =
    ((t : Task) → t.id ≡ task_id → Memᴰ t tasks → Memᴰ t after)
    × ((t : Task) → t.id ≡ task_id → Memᴰ t after → Memᴰ t tasks)

Kept-update :
    (task_id other : String) (f : Task → Task) (tasks : List Task)
    → ((t : Task) → (f t).id ≡ t.id)
    → other ≢ task_id
    → Kept task_id tasks (update (has_id other) f tasks)
Kept-update task_id other f tasks same_id d = (
  λ t e m. Memᴰ-update (has_id other) f tasks m (ground (arith, eq_iff t.id other, e, d)),
  λ t e m.
      let (y, my, cases) = Memᴰ-update_cases (has_id other) f tasks m in
      elim cases [
        | inl (q, same) ↦ absurd (
            d (sym ((eq_iff y.id other).0 q) ∙ (sym (same_id y) ∙ (sym (ap (λ t. t.id) same) ∙ e))))
        | inr (q, same) ↦ rw same my
      ],
)

module _ {task_id : String} {s : State} (h : IsSettled task_id s) where
  -- a call on another task takes a step
  update-IsSettled :
      (other : String) (f : Task → Task) (calls : List Call)
      → ((t : Task) → (f t).id ≡ t.id)
      → other ≢ task_id
      → ((c : Call) → Memᴰ c calls → (row_of c).id ≢ task_id)
      → IsSettled task_id (record { tasks = update (has_id other) f s.tasks; calls = calls })
        × Kept task_id s.tasks (update (has_id other) f s.tasks)
  update-IsSettled other f calls same_id d alone =
      let kept = Kept-update task_id other f s.tasks same_id d in
      (record { ended = λ t m e. h.ended t (kept.1 t e m) e; alone = alone }, kept)

abbrev row_id : Call → String
row_id c = (row_of c).id

next-IsSettled :
    {task_id : String} {s u : State}
    → Step s u
    → IsSettled task_id s
    → (t : Task) → t.id ≡ task_id
    → Memᴰ t s.tasks
    → IsSettled task_id u × Memᴰ t u.tasks
unfolding create_task_envelope mark_running mark_cancelled end_process
next-IsSettled {task_id}
      (Step.create {s} new_id now uri principal envelope tenant fresh fresh_calls) h t e m =
    (
      record {
        ended = λ x mx ex. elim (Memᴰ-snoc_cases s.tasks mx) [
          | inl same ↦ absurd (fresh t m (e ∙ (sym ex ∙ ap (λ t. t.id) same)))
          | inr old ↦ h.ended x old ex
        ];
        alone = h.alone;
      },
      Memᴰ-snoc_of _ s.tasks m,
    )
next-IsSettled {task_id} (Step.select_process {s} row id tenant_id read) h t e m =
    let (mr, fits) = read_task-of is_processable id tenant_id s.tasks read in
    (
      record {
        ended = h.ended;
        alone = λ c mc ec. elim (Memᴰ-cons_cases mc) [
          | inl same ↦ ground (arith, h.ended row mr (sym (ap row_id same) ∙ ec))
          | inr old ↦ h.alone c old ec
        ];
      },
      m,
    )
next-IsSettled {task_id} (Step.select_cancel {s} row id tenant_id read) h t e m =
    let (mr, fits) = read_task-of is_cancellable id tenant_id s.tasks read in
    (
      record {
        ended = h.ended;
        alone = λ c mc ec. elim (Memᴰ-cons_cases mc) [
          | inl same ↦ ground (arith, h.ended row mr (sym (ap row_id same) ∙ ec))
          | inr old ↦ h.alone c old ec
        ];
      },
      m,
    )
next-IsSettled {task_id} (Step.start {s} row now before after split) h t e m =
    let mine = h.alone (to_start row) (rw split (append_here before after)) in
    let (i, kept) =
      update-IsSettled h row.id (start_task now) (before ++ (to_finish row ∷ after)) (λ t. refl)
        mine
        (λ c mc. elim (append_cases before after mc) [
          | inl same ↦ rw same mine
          | inr old ↦ h.alone c (rw split (append_mid (to_start row) before after old))
        ]) in
    (i, kept.0 t e m)
next-IsSettled {task_id} (Step.finish {s} row now handler before after split) h t e m =
    let mine = h.alone (to_finish row) (rw split (append_here before after)) in
    let (i, kept) =
      update-IsSettled h row.id (finish_task now (handler row.task_envelope)) (before ++ after)
        (finish-id now (handler row.task_envelope)) mine
        (λ c mc. h.alone c (rw split (append_mid (to_finish row) before after mc))) in
    (i, kept.0 t e m)
next-IsSettled {task_id} (Step.cancel {s} row now before after split) h t e m =
    let mine = h.alone (to_cancel row) (rw split (append_here before after)) in
    let (i, kept) =
      update-IsSettled h row.id (stop_task now) (before ++ after) (λ t. refl) mine
        (λ c mc. h.alone c (rw split (append_mid (to_cancel row) before after mc))) in
    (i, kept.0 t e m)

-- A completed or cancelled task that no call is at work on stays as it is, in every column, however
-- later calls interleave.
pub settled_stays :
    {task_id : String} {s u : State}
    → Steps s u
    → IsSettled task_id s
    → (t : Task) → t.id ≡ task_id
    → Memᴰ t s.tasks
    → Memᴰ t u.tasks
settled_stays Steps.stop h t e m = m
settled_stays (Steps.step first rest) h t e m =
    let (i, mt) = next-IsSettled first h t e m in settled_stays rest i t e mt
