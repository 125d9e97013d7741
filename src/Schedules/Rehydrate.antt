-- ===== src/Schedules/Rehydrate.antt =====
-- The jobs after the startup.
use concertpvr.Prelude.{
  ℕ, ◌+◌, ◌≡◌, refl, ◌∙◌, false, Option, none, some, [], ◌∷◌, Table, find, put, ℤ, arith, ==_iff,
  ◌==◌, if◌then◌else◌, IsUnique, contains, keys,
}
use concertpvr.Models.{Db, Schedule}
use concertpvr.Schedules.Manager.{trigger_time, add, is_due, rehydrate_rows, rehydrate_from_db}

-- The job that a schedule should have after the startup.
abbrev pub job_due : ℕ → Option Schedule → Option ℤ
job_due now none = none
job_due now (some sch) = if is_due now sch then some (trigger_time sch) else none

abbrev either : Option ℤ → Option ℤ → Option ℤ
either (some t) _ = some t
either none o = o

either-none : (o : Option ℤ) → either o none ≡ o
either-none none = refl
either-none (some t) = refl

find-missing : (k : ℕ) (t : Table Schedule) → contains k (keys t) ≡ false → find k t ≡ none
find-missing k [] h = refl
find-missing k (e ∷ t) h = ground (arith, find-missing k t)

put-at :
    (j id : ℕ) (time : ℤ) (jobs : Table ℤ)
    → find j (put id time jobs) ≡ (if j == id then some time else find j jobs)
put-at j id time [] = ground arith
put-at j id time (e ∷ jobs) = ground (arith, put-at j id time jobs)

rehydrate_rows_lem :
    (now j : ℕ) (rows : Table Schedule) (c : ℕ) (jobs : Table ℤ)
    → IsUnique (keys rows)
    → find j (rehydrate_rows now rows (c, jobs)).1
      ≡ either (job_due now (find j rows)) (find j jobs)
unfolding rehydrate_rows add
rehydrate_rows_lem now j [] c jobs u = refl
rehydrate_rows_lem now j ((id, sch) ∷ rows) c jobs u = ground (
  arith,
  rehydrate_rows_lem now j rows (c + 1) (put id (trigger_time sch) jobs) u.1,
  rehydrate_rows_lem now j rows c jobs u.1,
  put-at j id (trigger_time sch) jobs,
  find-missing id rows u.0,
  ==_iff j id,
)

-- After the startup there is a job for each schedule that is pending and starts later, at its trigger
-- time, and no other.
pub rehydrate_from_db_lem :
    (now id : ℕ) (db : Db)
    → IsUnique (keys db.schedules)
    → find id (rehydrate_from_db now db []).1 ≡ job_due now (find id db.schedules)
unfolding rehydrate_from_db
rehydrate_from_db_lem now id db u =
    rehydrate_rows_lem now id db.schedules 0 [] u ∙ either-none (job_due now (find id db.schedules))
