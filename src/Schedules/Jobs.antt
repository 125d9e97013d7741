-- ===== src/Schedules/Jobs.antt =====
-- Whether the jobs agree with the schedules, request by request (src/concertpvr/api/schedules.py).
use concertpvr.Prelude.{
  ℕ, ◌≡◌, refl, sym, subst, ap, ◌∙◌, false, Option, none, some, Text, Table, Exn, ◌⊎◌, find, update,
  erase, without, is_some, ℤ, pos, ◌-ℤ◌, Result, ok, err, arith, inl, inr, Bool-cases, Option-cases,
  Result-cases, ==_iff, find-insert_self, find-insert_ne, find-update_self, find-update_ne,
  find-erase_ne, find-put_self, find-put_ne, find-without_self, find-without_ne, ◌==◌,
}
use concertpvr.Models.{Schedule, is_cancelled}
use concertpvr.Schedules.Manager.{trigger_time, add, reschedule, remove, has_job}
use concertpvr.Schedules.Api.{
  Planner, ScheduleCreate, SchedulePatch, Info, row_of, store, stream_from, create_schedule,
  apply_patch, patch_jobs, patch_schedule, delete_schedule,
}

-- A job belongs to a schedule that is not cancelled, and fires at its trigger time.
abbrev pub Agrees : Option ℤ → Option Schedule → Type 0
Agrees none _ = Unit
Agrees (some time) none = ⊥
Agrees (some time) (some sch) = (is_cancelled sch.status ≡ false) × (time ≡ trigger_time sch)

abbrev pub IsConsistent : Planner → Type 0
IsConsistent w = (id : ℕ) → Agrees (find id w.jobs) (find id w.db.schedules)

-- It is enough to look at the id of a request, where the other entries are as before.
at_id :
    (id j : ℕ) (w w' : Planner)
    → IsConsistent w
    → Agrees (find id w'.jobs) (find id w'.db.schedules)
    → ((j == id) ≡ false
        → (find j w'.jobs ≡ find j w.jobs) × (find j w'.db.schedules ≡ find j w.db.schedules))
    → Agrees (find j w'.jobs) (find j w'.db.schedules)
at_id id j w w' h here others = elim (Bool-cases (j == id)) [
  | inl eq ↦
      subst (λ k. Agrees (find k w'.jobs) (find k w'.db.schedules)) (sym ((==_iff j id).0 eq)) here
  | inr ne ↦ rw ((others ne).0, (others ne).1) (h j)
]

store-IsConsistent :
    (new_id : ℕ) (sch : Schedule) (w : Planner)
    → IsConsistent w
    → find new_id w.db.schedules ≡ none
    → is_cancelled sch.status ≡ false
    → IsConsistent (store new_id sch w).1
unfolding add
store-IsConsistent new_id sch w h new open_ j =
    at_id new_id j w (store new_id sch w).1 h
      (rw
        (
          find-put_self new_id (trigger_time sch) w.jobs,
          find-insert_self new_id sch w.db.schedules new,
        )
        (open_, refl))
      (λ ne. (
        find-put_ne j new_id (trigger_time sch) w.jobs ne,
        find-insert_ne j new_id sch w.db.schedules ne,
      ))

-- A patch without a start leaves the start.
apply_patch-starts_at :
    (p : SchedulePatch) (sch sch' : Schedule)
    → is_some p.starts_at ≡ false
    → apply_patch p sch ≡ ok sch'
    → sch'.starts_at ≡ sch.starts_at
unfolding apply_patch
apply_patch-starts_at p sch sch' e r = ground arith

Agrees-moved :
    (o : Option ℤ) (sch sch' : Schedule)
    → Agrees o (some sch)
    → is_cancelled sch'.status ≡ false
    → sch'.starts_at ≡ sch.starts_at
    → Agrees o (some sch')
unfolding trigger_time
Agrees-moved none sch sch' h open_ e = tt
Agrees-moved (some time) sch sch' h open_ e = (open_, h.1 ∙ sym (ap (λ n. pos n -ℤ pos 30) e))

-- The job of a patched schedule.
patch_jobs-Agrees :
    (id : ℕ) (p : SchedulePatch) (sch sch' : Schedule) (jobs : Table ℤ)
    → Agrees (find id jobs) (some sch)
    → apply_patch p sch ≡ ok sch'
    → Agrees (find id (patch_jobs id p sch' jobs)) (some sch')
unfolding patch_jobs remove reschedule has_job
patch_jobs-Agrees id p sch sch' jobs h r = elim (Bool-cases (is_cancelled sch'.status)) [
  | inl gone ↦ rw (gone, find-without_self id jobs) tt
  | inr open_ ↦ elim (Bool-cases (is_some p.starts_at)) [
    | inr same ↦
        rw (open_, same)
          (Agrees-moved (find id jobs) sch sch' h open_ (apply_patch-starts_at p sch sch' same r))
    | inl moved ↦ elim (Option-cases (find id jobs)) [
      | inl idle ↦ rw (open_, moved, idle, idle) tt
      | inr (time, e) ↦
          rw (open_, moved, e, find-put_self id (trigger_time sch') jobs) (open_, refl)
    ]
  ]
]

patch_jobs_ne :
    (id j : ℕ) (p : SchedulePatch) (sch : Schedule) (jobs : Table ℤ)
    → (j == id) ≡ false
    → find j (patch_jobs id p sch jobs) ≡ find j jobs
unfolding patch_jobs remove reschedule has_job
patch_jobs_ne id j p sch jobs ne =
    ground (arith, find-without_ne j id jobs ne, find-put_ne j id (trigger_time sch) jobs ne)

-- What a patch that is accepted leaves.
abbrev patched_to : ℕ → SchedulePatch → Schedule → Planner → Planner
patched_to id p sch' w = record {
  db = record w.db { schedules = update id (λ _. sch') w.db.schedules };
  jobs = patch_jobs id p sch' w.jobs;
}

patched_to-IsConsistent :
    (id : ℕ) (p : SchedulePatch) (sch sch' : Schedule) (w : Planner)
    → IsConsistent w
    → find id w.db.schedules ≡ some sch
    → apply_patch p sch ≡ ok sch'
    → IsConsistent (patched_to id p sch' w)
patched_to-IsConsistent id p sch sch' w h found r j =
    at_id id j w (patched_to id p sch' w) h
      (subst (Agrees (find id (patch_jobs id p sch' w.jobs)))
        (sym (find-update_self id (λ (_ : Schedule). sch') w.db.schedules sch found))
        (patch_jobs-Agrees id p sch sch' w.jobs (subst (Agrees (find id w.jobs)) found (h id)) r))
      (λ ne. (
        patch_jobs_ne id j p sch' w.jobs ne,
        find-update_ne j id (λ (_ : Schedule). sch') w.db.schedules ne,
      ))

patch_schedule-missing :
    (id : ℕ) (p : SchedulePatch) (w : Planner)
    → find id w.db.schedules ≡ none
    → (patch_schedule id p w).1 ≡ w
unfolding patch_schedule
patch_schedule-missing id p w missing = ground arith

patch_schedule-refused :
    (id : ℕ) (p : SchedulePatch) (sch : Schedule) (e : Exn) (w : Planner)
    → find id w.db.schedules ≡ some sch
    → apply_patch p sch ≡ err e
    → (patch_schedule id p w).1 ≡ w
unfolding patch_schedule
patch_schedule-refused id p sch e w found r = ground arith

patch_schedule-ok :
    (id : ℕ) (p : SchedulePatch) (sch sch' : Schedule) (w : Planner)
    → find id w.db.schedules ≡ some sch
    → apply_patch p sch ≡ ok sch'
    → (patch_schedule id p w).1 ≡ patched_to id p sch' w
unfolding patch_schedule
patch_schedule-ok id p sch sch' w found r = ground arith

-- Where the jobs agree with the schedules, they do so after a patch request, accepted or not: also one
-- that moves the start or cancels.
pub patch_schedule-IsConsistent :
    (id : ℕ) (p : SchedulePatch) (w : Planner)
    → IsConsistent w
    → IsConsistent (patch_schedule id p w).1
patch_schedule-IsConsistent id p w h = elim (Option-cases (find id w.db.schedules)) [
  | inl missing ↦ subst (λ x. IsConsistent x) (sym (patch_schedule-missing id p w missing)) h
  | inr (sch, found) ↦ elim (Result-cases (apply_patch p sch)) [
    | inl (sch', r) ↦
        subst (λ x. IsConsistent x) (sym (patch_schedule-ok id p sch sch' w found r))
          (patched_to-IsConsistent id p sch sch' w h found r)
    | inr (e, r) ↦ subst (λ x. IsConsistent x) (sym (patch_schedule-refused id p sch e w found r)) h
  ]
]

abbrev without_schedule : ℕ → Planner → Planner
without_schedule id w = record {
  db = record w.db { schedules = erase id w.db.schedules };
  jobs = without id w.jobs;
}

without_schedule-IsConsistent :
    (id : ℕ) (w : Planner) → IsConsistent w → IsConsistent (without_schedule id w)
without_schedule-IsConsistent id w h j =
    at_id id j w (without_schedule id w) h (rw (find-without_self id w.jobs) tt)
      (λ ne. (find-without_ne j id w.jobs ne, find-erase_ne j id w.db.schedules ne))

delete_schedule-missing :
    (id : ℕ) (w : Planner) → find id w.db.schedules ≡ none → (delete_schedule id w).1 ≡ w
unfolding delete_schedule
delete_schedule-missing id w missing = ground arith

delete_schedule-found :
    (id : ℕ) (sch : Schedule) (w : Planner)
    → find id w.db.schedules ≡ some sch
    → (delete_schedule id w).1 ≡ without_schedule id w
unfolding delete_schedule remove
delete_schedule-found id sch w found = ground arith

-- Where the jobs agree with the schedules, they do so after a delete request: no job is left for a
-- schedule that is gone.
pub delete_schedule-IsConsistent :
    (id : ℕ) (w : Planner) → IsConsistent w → IsConsistent (delete_schedule id w).1
delete_schedule-IsConsistent id w h = elim (Option-cases (find id w.db.schedules)) [
  | inl missing ↦ subst (λ x. IsConsistent x) (sym (delete_schedule-missing id w missing)) h
  | inr (sch, found) ↦
      subst (λ x. IsConsistent x) (sym (delete_schedule-found id sch w found))
        (without_schedule-IsConsistent id w h)
]

module _ (probe : Text → Option Text → Result Info) (new_stream : ℕ) where
  -- Looking for the stream, or adding it, leaves the schedules and the jobs.
  stream_from-kept :
      (p : ScheduleCreate) (o : Option ℕ) (w : Planner)
      → ((stream_from probe new_stream p o w).1.jobs ≡ w.jobs)
        × ((stream_from probe new_stream p o w).1.db.schedules ≡ w.db.schedules)
  stream_from-kept p (some id) w = ground arith
  stream_from-kept p none w = ground arith

  created : ℕ → ScheduleCreate → Result ℕ × Planner → Planner
  created new_id p (ok stream_id, w) = (store new_id (row_of p stream_id) w).1
  created new_id p (err e, w) = w

  create_schedule-state :
      (new_id : ℕ) (p : ScheduleCreate) (w : Planner)
      → ((create_schedule probe new_stream new_id p w).1 ≡ w)
        ⊎ ((create_schedule probe new_stream new_id p w).1
            ≡ created new_id p (stream_from probe new_stream p p.stream_id w))
  unfolding create_schedule created
  create_schedule-state new_id p w = ground arith

  created-IsConsistent :
      (new_id : ℕ) (p : ScheduleCreate) (r : Result ℕ) (w : Planner)
      → IsConsistent w
      → find new_id w.db.schedules ≡ none
      → IsConsistent (created new_id p (r, w))
  unfolding created
  created-IsConsistent new_id p (ok stream_id) w h new =
      store-IsConsistent new_id (row_of p stream_id) w h new refl
  created-IsConsistent new_id p (err e) w h new = h

  -- Where the jobs agree with the schedules, they do so after a create request with a new key,
  -- accepted or not.
  pub create_schedule-IsConsistent :
      (new_id : ℕ) (p : ScheduleCreate) (w : Planner)
      → IsConsistent w
      → find new_id w.db.schedules ≡ none
      → IsConsistent (create_schedule probe new_stream new_id p w).1
  create_schedule-IsConsistent new_id p w h new =
      let x = stream_from probe new_stream p p.stream_id w in
      let kept = stream_from-kept p p.stream_id w in
      elim (create_schedule-state new_id p w) [
        | inl e ↦ subst (λ v. IsConsistent v) (sym e) h
        | inr e ↦
            subst (λ v. IsConsistent v) (sym e)
              (created-IsConsistent new_id p x.0 x.1 (λ id. rw (kept.0, kept.1) (h id))
                (ap (find new_id) kept.1 ∙ new))
      ]
