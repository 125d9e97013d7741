-- ===== src/Schedules/Requests.antt =====
-- A startup and the requests of src/concertpvr/api/schedules.py after it, in any order.
use concertpvr.Prelude.{
  ℕ, ◌≡◌, sym, subst, Option, none, some, List, [], ◌∷◌, Text, Table, find, keys, IsUnique, Result,
  arith,
}
use concertpvr.Models.{Db, Schedule}
use concertpvr.Schedules.Manager.{is_due, rehydrate_from_db}
use concertpvr.Schedules.Api.{
  Planner, ScheduleCreate, SchedulePatch, Info, create_schedule, patch_schedule, delete_schedule,
}
use concertpvr.Schedules.Rehydrate.{job_due, rehydrate_from_db_lem}
use concertpvr.Schedules.Jobs.{
  Agrees, IsConsistent, create_schedule-IsConsistent, patch_schedule-IsConsistent,
  delete_schedule-IsConsistent,
}

-- Where the application starts: the jobs are those that the manager adds from the rows.
abbrev pub started : ℕ → Db → Planner
started now db = record { db = db; jobs = (rehydrate_from_db now db []).1 }

pub data Request : Type 0 where
  creates : ScheduleCreate → Request
  patches : ℕ → SchedulePatch → Request
  deletes : ℕ → Request

job_due-Agrees : (now : ℕ) (o : Option Schedule) → Agrees (job_due now o) o
unfolding is_due
job_due-Agrees now none = tt
job_due-Agrees now (some sch) = ground arith

started-IsConsistent :
    (now : ℕ) (db : Db) → IsUnique (keys db.schedules) → IsConsistent (started now db)
started-IsConsistent now db u id =
    subst (λ o. Agrees o (find id db.schedules)) (sym (rehydrate_from_db_lem now id db u))
      (job_due-Agrees now (find id db.schedules))

-- The key of a new row is not in use.
abbrev pub IsFresh : (Table Schedule → ℕ) → Type 0
IsFresh fresh = (t : Table Schedule) → find (fresh t) t ≡ none

module _ (probe : Text → Option Text → Result Info) (new_stream : ℕ)
    (fresh : Table Schedule → ℕ) where
  abbrev pub serve : Request → Planner → Planner
  serve (creates p) w = (create_schedule probe new_stream (fresh w.db.schedules) p w).1
  serve (patches id p) w = (patch_schedule id p w).1
  serve (deletes id) w = (delete_schedule id w).1

  unfoldable pub serve_all : List Request → Planner → Planner
  serve_all [] w = w
  serve_all (r ∷ rs) w = serve_all rs (serve r w)

  serve-IsConsistent :
      IsFresh fresh → (r : Request) (w : Planner) → IsConsistent w → IsConsistent (serve r w)
  serve-IsConsistent new (creates p) w h =
      create_schedule-IsConsistent probe new_stream (fresh w.db.schedules) p w h
        (new w.db.schedules)
  serve-IsConsistent new (patches id p) w h = patch_schedule-IsConsistent id p w h
  serve-IsConsistent new (deletes id) w h = delete_schedule-IsConsistent id w h

  serve_all-Keeps :
      IsFresh fresh
      → (rs : List Request) (w : Planner) → IsConsistent w
      → IsConsistent (serve_all rs w)
  unfolding serve_all
  serve_all-Keeps new [] w h = h
  serve_all-Keeps new (r ∷ rs) w h =
      serve_all-Keeps new rs (serve r w) (serve-IsConsistent new r w h)

  -- From a startup on, after any sequence of create, patch and delete requests, accepted or refused,
  -- each job is of a schedule that is there and not cancelled, and fires at its trigger time, where no
  -- two schedules have one key at the startup and new rows get keys that are not in use.
  pub serve_all-IsConsistent :
      (now : ℕ) (db : Db) (rs : List Request)
      → IsUnique (keys db.schedules)
      → IsFresh fresh
      → IsConsistent (serve_all rs (started now db))
  serve_all-IsConsistent now db rs u new =
      serve_all-Keeps new rs (started now db) (started-IsConsistent now db u)
