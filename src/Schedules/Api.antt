-- ===== src/Schedules/Api.antt =====
-- The requests of src/concertpvr/api/schedules.py that change schedules, over the database and the
-- jobs. A session rolls back rows, never jobs.
use concertpvr.Prelude.{
  changed, changed_null, ℕ, Bool, not, ◌&&◌, ◌||◌, Option, none, some, [], Text, Table, find,
  insert, update, erase, leb, is_some, truthy, ℤ, Exn, http, integrity_error, other, Result, ok,
  err, Action, pure, raise_if, or_raise, lift, gets, modify, session, ◌>>=◌, ◌>>◌, if◌then◌else◌,
}
use concertpvr.Models.{Db, Stream, live, video, Schedule, ScheduleStatus, pending, is_cancelled}
use concertpvr.Vod.Queue.{stream_by_youtube_id}
use concertpvr.Vod.Handler.{cookies_of}
use concertpvr.Schedules.Manager.{add, reschedule, remove, has_job}

pub record Planner : Type 0 where
  pub db : Db
  pub jobs : Table ℤ

abbrev pub in_db : {A : Type 0} → Action Db A → Action Planner A
in_db m w = let (r, db) = m w.db in (r, record w { db = db })

abbrev pub set_jobs : (Table ℤ → Table ℤ) → Action Planner (Unit {0})
set_jobs f w = (ok tt, record w { jobs = f w.jobs })

pub record ScheduleCreate : Type 0 where
  pub stream_id : Option ℕ
  pub url : Option Text
  pub starts_at : ℕ
  pub ends_at : ℕ
  pub artist : Option Text

-- A field is `some` if the request names it, and `some none` if the request has null there.
pub record SchedulePatch : Type 0 where
  pub starts_at : Option (Option ℕ)
  pub ends_at : Option (Option ℕ)
  pub artist : Option (Option Text)
  pub status : Option (Option ScheduleStatus)

-- What yt-dlp says of a url.
pub record Info : Type 0 where
  pub youtube_id : Text
  pub url : Text
  pub title : Text
  pub channel_name : Text
  pub thumbnail_url : Option Text
  pub is_live : Bool

abbrev no_schedule : Exn
no_schedule = http 404 "schedule not found"

abbrev bad_times : Exn
bad_times = http 400 "ends_at must be after starts_at"

abbrev stream_of : Info → Stream
stream_of info = record {
  kind = if info.is_live then live else video;
  youtube_id = info.youtube_id;
  url = info.url;
  title = info.title;
  channel_name = info.channel_name;
  thumbnail_url = info.thumbnail_url;
  original_upload_date = none;
  description = none;
  youtube_tags = none;
  detected_setlist_text = none;
  detected_setlist_source = none;
  watcher_id = none;
}

abbrev pub row_of : ScheduleCreate → ℕ → Schedule
row_of p stream_id = record {
  stream_id = stream_id;
  starts_at = p.starts_at;
  ends_at = p.ends_at;
  artist = p.artist;
  status = pending;
  error = none;
  recording_id = none;
}

-- The stream with the probed video, added under the key `new_stream` if there is none.
abbrev found_or_added : ℕ → Info → Option ℕ → Action Db ℕ
found_or_added new_stream info (some id) = pure id
found_or_added new_stream info none =
    modify (λ db. record db { streams = insert new_stream (stream_of info) db.streams })
    >> pure new_stream

abbrev known_stream : ℕ → Action Db ℕ
known_stream id = do
  streams ← gets (λ db. db.streams)
  raise_if (not (is_some (find id streams))) (http 404 "stream not found")
  pure id

abbrev url_or_empty : Option Text → Text
url_or_empty none = []
url_or_empty (some u) = u

abbrev pub store : ℕ → Schedule → Action Planner Schedule
store new_id sch = do
  in_db (session (modify (λ db. record db { schedules = insert new_id sch db.schedules })))
  set_jobs (add new_id sch)
  pure sch

-- `probe` answers with what it found, or with the text of a `ProbeError`.
module _ (probe : Text → Option Text → Result Info) (new_stream : ℕ) where
  abbrev pub stream_from : ScheduleCreate → Option ℕ → Action Planner ℕ
  stream_from p (some id) = in_db (session (known_stream id))
  stream_from p none = do
    w ← gets (λ w. w)
    info ← lift (probe (url_or_empty p.url) (cookies_of w.db.settings))
    in_db (
        session
          (found_or_added new_stream info (stream_by_youtube_id info.youtube_id w.db.streams)))

  unfoldable pub create_schedule : ℕ → ScheduleCreate → Action Planner Schedule
  unfolding add
  create_schedule new_id p = do
    raise_if (not (is_some p.stream_id) && not (truthy p.url))
        (http 422 "must provide stream_id or url")
    raise_if (leb p.ends_at p.starts_at) bad_times
    stream_id ← stream_from p p.stream_id
    store new_id (row_of p stream_id)

-- The flush: the status may not be null.
abbrev flushed : SchedulePatch → Schedule → ℕ → ℕ → Option ScheduleStatus → Result Schedule
flushed p sch starts ends none = err integrity_error
flushed p sch starts ends (some status) = ok (record sch {
  starts_at = starts;
  ends_at = ends;
  artist = changed_null p.artist sch.artist;
  status = status;
})

-- A time that is null has no `tzinfo`, which raises an `AttributeError`.
abbrev compared : SchedulePatch → Schedule → Option ℕ → Option ℕ → Result Schedule
compared p sch _ none = err other
compared p sch none (some ends) = err other
compared p sch (some starts) (some ends) =
    if (is_some p.ends_at || is_some p.starts_at) && leb ends starts
    then err bad_times
    else flushed p sch starts ends (changed p.status sch.status)

unfoldable pub apply_patch : SchedulePatch → Schedule → Result Schedule
apply_patch p sch =
    compared p sch (changed p.starts_at sch.starts_at) (changed p.ends_at sch.ends_at)

-- What the manager is told.
unfoldable pub patch_jobs : ℕ → SchedulePatch → Schedule → Table ℤ → Table ℤ
unfolding remove reschedule has_job
patch_jobs id p sch jobs =
    if is_cancelled sch.status
    then remove id jobs
    else if is_some p.starts_at && has_job id jobs
    then reschedule id sch jobs
    else jobs

abbrev patch_row : ℕ → SchedulePatch → Action Db Schedule
patch_row id p = session do
  sch ← or_raise no_schedule (find id (← gets (λ db. db.schedules)))
  sch' ← lift (apply_patch p sch)
  modify (λ db. record db { schedules = update id (λ _. sch') db.schedules })
  pure sch'

unfoldable pub patch_schedule : ℕ → SchedulePatch → Action Planner Schedule
unfolding apply_patch patch_jobs
patch_schedule id p = do sch ← in_db (patch_row id p); set_jobs (patch_jobs id p sch); pure sch

unfoldable pub delete_schedule : ℕ → Action Planner (Unit {0})
unfolding remove
delete_schedule id = do
  sch ← in_db (gets (λ db. find id db.schedules))
  or_raise no_schedule sch
  in_db (modify (λ db. record db { schedules = erase id db.schedules }))
  set_jobs (remove id)
