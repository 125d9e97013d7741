-- ===== src/Schedules/Outcome.antt =====
-- How the run of a schedule ends, and what it leaves.
use concertpvr.Prelude.{
  ℕ, ◌≡◌, true, false, Option, none, some, List, Text, find, leb, length, runtime_error,
  value_error, ok, err, Action, arith, find-insert_self, find-update_self, Result,
}
use concertpvr.Models.{Stream, Recording, Schedule, ScheduleStatus, RecordingStatus}
use concertpvr.Segment.Segmenter.{Chapter}
use concertpvr.Pool.{start, is_recording}
use concertpvr.Pool.Starter.{Live, live_recording}
use concertpvr.Schedules.Runner.{running_with, stream_of_schedule, launch, run_scheduled_recording}

module _ (loads : Text → Option (List Chapter)) (fresh : List ℕ → ℕ) where
  -- Where a schedule's stream is gone, its run raises and leaves everything as it was: the failure
  -- that the runner writes on the schedule is rolled back with its session.
  pub run_scheduled_recording-missing :
      (staging : ℕ → Text) (rec_id started ended id : ℕ) (sleep : Action Live (Unit {0})) (w : Live)
      (sch : Schedule)
      → find id w.db.schedules ≡ some sch
      → find sch.stream_id w.db.streams ≡ none
      → run_scheduled_recording loads fresh staging rec_id started ended sleep id w
        ≡ (err value_error, w)
  unfolding run_scheduled_recording launch stream_of_schedule
  run_scheduled_recording-missing staging rec_id started ended id sleep w sch found gone =
      ground arith

  -- Where the pool is full and the stream is not being recorded, the run of a schedule raises and
  -- leaves the schedule running, with a row that reads as being recorded while the stream is not.
  pub run_scheduled_recording-full :
      (staging : ℕ → Text) (rec_id started ended id : ℕ) (sleep : Action Live (Unit {0})) (w : Live)
      (sch : Schedule) (st : Stream)
      → find id w.db.schedules ≡ some sch
      → find sch.stream_id w.db.streams ≡ some st
      → find rec_id w.db.recordings ≡ none
      → is_recording sch.stream_id w.pool ≡ false
      → leb w.pool.max_concurrent (length w.pool.workers) ≡ true
      → let (r, w') = run_scheduled_recording loads fresh staging rec_id started ended sleep id w in
        (r ≡ err runtime_error)
        × (find id w'.db.schedules ≡ some (running_with rec_id sch))
        × (find rec_id w'.db.recordings
            ≡ some (live_recording sch.stream_id started (staging id) false))
        × (is_recording sch.stream_id w'.pool ≡ false)
  unfolding run_scheduled_recording launch stream_of_schedule start is_recording
  run_scheduled_recording-full staging rec_id started ended id sleep w sch st found known new idle
        full =
      let rec = live_recording sch.stream_id started (staging id) false in
      (
        ground arith,
        ground (arith, find-update_self id (running_with rec_id) w.db.schedules sch found),
        ground (arith, find-insert_self rec_id rec w.db.recordings new),
        ground arith,
      )

  -- What the sleep's end, or the exception that ends it, makes of a run.
  abbrev pub Ended : ℕ → ℕ → ℕ → Schedule → Recording → Live → Result (Unit {0}) → Live → Type 0
  Ended rec_id ended id sch rec w (ok _) w' =
      (find id w'.db.schedules ≡ some (record sch { status = ScheduleStatus.complete }))
      × (find rec_id w'.db.recordings
          ≡ some (record rec { status = RecordingStatus.complete; ended_at = some ended }))
  Ended rec_id ended id sch rec w (err e) w' = w'.db ≡ w.db
