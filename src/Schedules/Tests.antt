-- ===== src/Schedules/Tests.antt =====
-- The theorems about schedules at concrete inputs.
use concertpvr.Prelude.{
  ℕ, ◌≡◌, refl, false, Option, none, some, List, [], ◌∷◌, Text, codes, find, ok, err, Result, other,
  runtime_error, value_error, Action, suc, max, ◌≤◌, arith, Table,
}
use concertpvr.Models.{Db, Schedule, pending}
use concertpvr.Examples.{clip, database}
use concertpvr.Segment.Segmenter.{Chapter}
use concertpvr.Pool.{Pool, admit, is_recording}
use concertpvr.Pool.Starter.{Live, live_recording}
use concertpvr.Schedules.Api.{ScheduleCreate, SchedulePatch, Info}
use concertpvr.Schedules.Jobs.{IsConsistent}
use concertpvr.Schedules.Requests.{
  IsFresh, creates, patches, deletes, started, serve_all, serve_all-IsConsistent,
}
use concertpvr.Schedules.Runner.{running_with, launch, run_scheduled_recording}
use concertpvr.Schedules.Outcome.{run_scheduled_recording-missing, run_scheduled_recording-full}

abbrev show : Schedule
show = record {
  stream_id = 1;
  starts_at = 5000;
  ends_at = 6000;
  artist = none;
  status = pending;
  error = none;
  recording_id = none;
}

abbrev planned : Db
planned = record (database []) { schedules = (3, show) ∷ [] }

abbrev move : SchedulePatch
move = record { starts_at = some (some 5500); ends_at = none; artist = none; status = none }

-- Every probe fails.
abbrev probe : Text → Option Text → Result Info
probe url cookies = err other

abbrev wish : ScheduleCreate
wish = record { stream_id = some 1; url = none; starts_at = 7000; ends_at = 8000; artist = none }

-- A key above all that are in use.
abbrev above : Table Schedule → ℕ
above [] = 1
above ((k, _) ∷ t) = suc (max k (above t))

find-above : (n : ℕ) (t : Table Schedule) → above t ≤ n → find n t ≡ none
find-above n [] h = refl
find-above n (e ∷ t) h = ground (arith, find-above n t)

above-IsFresh : IsFresh above
above-IsFresh t = find-above (above t) t (omega arith)

serve_all-IsConsistent_example : IsConsistent (
    serve_all probe 2 above (patches 3 move ∷ creates wish ∷ deletes 3 ∷ []) (started 4000 planned))
serve_all-IsConsistent_example =
    serve_all-IsConsistent probe 2 above 4000 planned
      (patches 3 move ∷ creates wish ∷ deletes 3 ∷ []) (refl, tt) above-IsFresh

abbrev loads : Text → Option (List Chapter)
loads _ = none

abbrev next_key : List ℕ → ℕ
next_key _ = 1

abbrev idle : Action Live (Unit {0})
idle w = (ok tt, w)

abbrev folder : ℕ → Text
folder _ = codes "/staging/3"

abbrev empty_pool : Pool
empty_pool = record { max_concurrent = 1; workers = []; tasks = [] }

abbrev calm : Live
calm = record { db = planned; pool = empty_pool }

abbrev busy : Live
busy = record { db = planned; pool = admit 8 empty_pool }

-- The stream of the schedule is gone.
abbrev cut_off : Live
cut_off = record { db = record planned { streams = [] }; pool = empty_pool }

run_scheduled_recording-missing_example :
    run_scheduled_recording loads next_key folder 9 4970 6000 idle 3 cut_off
    ≡ (err value_error, cut_off)
run_scheduled_recording-missing_example =
    run_scheduled_recording-missing loads next_key folder 9 4970 6000 3 idle cut_off show refl refl

run_scheduled_recording-full_example :
    let (r, w') = run_scheduled_recording loads next_key folder 9 4970 6000 idle 3 busy in
    (r ≡ err runtime_error)
    × (find 3 w'.db.schedules ≡ some (running_with 9 show))
    × (find 9 w'.db.recordings ≡ some (live_recording 1 4970 (folder 3) false))
    × (is_recording 1 w'.pool ≡ false)
unfolding is_recording
run_scheduled_recording-full_example =
    run_scheduled_recording-full loads next_key folder 9 4970 6000 3 idle busy show clip refl refl
      refl refl refl

abbrev launched : Live
launched = (launch folder 9 4970 3 calm).1
