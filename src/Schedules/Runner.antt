-- ===== src/Schedules/Runner.antt =====
-- `run_scheduled_recording` of src/concertpvr/scheduled_runner.py, the target of a schedule's job.
use concertpvr.Prelude.{
  ℕ, false, Option, none, some, List, Text, find, update, lookup_error, value_error, Result, ok,
  err, Action, pure, raise, codes, or_raise, gets, modify, session, ◌>>=◌, ◌>>◌,
}
use concertpvr.Models.{Db, Stream, Recording, RecordingStatus, Schedule, ScheduleStatus, running}
use concertpvr.Segment.Segmenter.{Chapter}
use concertpvr.Segment.AutoSegment.{flush_recording}
use concertpvr.Pool.{start, stop}
use concertpvr.Pool.Starter.{Live, in_db, in_pool, live_recording, add_recording}

abbrev pub set_schedule : ℕ → (Schedule → Schedule) → Db → Db
set_schedule id f db = record db { schedules = update id f db.schedules }

abbrev stream_missing : Schedule → Schedule
stream_missing sch = record sch {
  status = ScheduleStatus.failed;
  error = some (codes "stream not found");
}

abbrev or_fail : ℕ → ℕ → Option Stream → Action Db ℕ
or_fail id stream_id none = modify (set_schedule id stream_missing) >> raise value_error
or_fail id stream_id (some st) = pure stream_id

-- The first session: the stream that the schedule is for.
unfoldable pub stream_of_schedule : ℕ → Action Db ℕ
stream_of_schedule id = session do
  sch ← or_raise lookup_error (find id (← gets (λ db. db.schedules)))
  streams ← gets (λ db. db.streams)
  or_fail id sch.stream_id (find sch.stream_id streams)

abbrev pub running_with : ℕ → Schedule → Schedule
running_with rec_id sch = record sch { status = running; recording_id = some rec_id }

-- Up to the sleep: the row is added, the schedule runs, and the pool is asked. `staging` is the folder
-- of a schedule.
unfoldable pub launch : (ℕ → Text) → ℕ → ℕ → ℕ → Action Live ℕ
unfolding stream_of_schedule
launch staging rec_id now id = do
  stream_id ← in_db (stream_of_schedule id)
  in_db (modify (add_recording rec_id (live_recording stream_id now (staging id) false)))
  in_db (modify (set_schedule id (running_with rec_id)))
  in_pool (start stream_id)
  pure stream_id

abbrev pub schedule_done : Schedule → Schedule
schedule_done sch = record sch { status = ScheduleStatus.complete }

abbrev pub recording_done : ℕ → Recording → Recording
recording_done now rec = record rec { status = RecordingStatus.complete; ended_at = some now }

module _ (loads : Text → Option (List Chapter)) (fresh : List ℕ → ℕ) where
  -- The last session.
  unfoldable pub close : ℕ → ℕ → ℕ → Db → Db
  close rec_id now id db =
      flush_recording loads fresh rec_id (recording_done now) (set_schedule id schedule_done db)

  -- The `finally` clause, and what follows it unless the sleep was cancelled.
  abbrev pub wind_up : ℕ → ℕ → ℕ → ℕ → Result (Unit {0}) → Live → Result (Unit {0}) × Live
  wind_up rec_id now id stream_id (ok _) w =
      (ok tt, record w { db = close rec_id now id w.db; pool = stop stream_id w.pool })
  wind_up rec_id now id stream_id (err e) w = (err e, record w { pool = stop stream_id w.pool })

  abbrev pub slept : ℕ → ℕ → ℕ → ℕ → Result (Unit {0}) × Live → Result (Unit {0}) × Live
  slept rec_id now id stream_id (r, w) = wind_up rec_id now id stream_id r w

  abbrev pub launched :
      ℕ → ℕ → Action Live (Unit {0}) → ℕ → Result ℕ × Live → Result (Unit {0}) × Live
  launched rec_id now sleep id (ok stream_id, w) = slept rec_id now id stream_id (sleep w)
  launched rec_id now sleep id (err e, w) = (err e, w)

  -- `sleep` is what the rest of the application does until the end time, or until the job is cancelled.
  unfoldable pub run_scheduled_recording :
      (ℕ → Text) → ℕ → ℕ → ℕ → Action Live (Unit {0}) → ℕ → Action Live (Unit {0})
  unfolding launch close
  run_scheduled_recording staging rec_id started ended sleep id w =
      launched rec_id ended sleep id (launch staging rec_id started id w)
