-- ===== src/Schedules/Manager.antt =====
-- `ScheduleManager`: the jobs of the scheduler by schedule id, each with the time at which it fires.
use concertpvr.Prelude.{
  ℕ, ◌+◌, Bool, ◌&&◌, [], ◌∷◌, Table, find, put, without, is_some, ℤ, pos, ◌-ℤ◌, if◌then◌else◌, ltb,
}
use concertpvr.Models.{Db, Schedule, is_pending}

-- `starts_at` less `LEAD_TIME_S`.
unfoldable pub trigger_time : Schedule → ℤ
trigger_time sch = pos sch.starts_at -ℤ pos 30

-- `replace_existing=True`
unfoldable pub add : ℕ → Schedule → Table ℤ → Table ℤ
add id sch jobs = put id (trigger_time sch) jobs

-- Its caller has looked for the job.
unfoldable pub reschedule : ℕ → Schedule → Table ℤ → Table ℤ
reschedule id sch jobs = put id (trigger_time sch) jobs

unfoldable pub remove : ℕ → Table ℤ → Table ℤ
remove id jobs = without id jobs

unfoldable pub has_job : ℕ → Table ℤ → Bool
has_job id jobs = is_some (find id jobs)

-- Pending, and to start later.
unfoldable pub is_due : ℕ → Schedule → Bool
is_due now sch = is_pending sch.status && ltb now sch.starts_at

unfoldable pub rehydrate_rows : ℕ → Table Schedule → ℕ × Table ℤ → ℕ × Table ℤ
unfolding add is_due
rehydrate_rows now [] (count, jobs) = (count, jobs)
rehydrate_rows now ((id, sch) ∷ rows) (count, jobs) =
    rehydrate_rows now rows (if is_due now sch then (count + 1, add id sch jobs) else (count, jobs))

-- The number of jobs added, and the jobs.
unfoldable pub rehydrate_from_db : ℕ → Db → Table ℤ → ℕ × Table ℤ
unfolding rehydrate_rows
rehydrate_from_db now db jobs = rehydrate_rows now db.schedules (0, jobs)
