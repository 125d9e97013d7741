-- ===== src/Recordings/Api.antt =====
-- src/concertpvr/api/recordings.py: listing and reading recordings, finalizing one, its schedule, and
-- deleting its source. ffprobe, the chapters on disk, the clock and the removal of files are the record
-- `Tools`; `flush_recording` is the listener that derives segments.
use concertpvr.Prelude.{
  ℕ, Bool, true, not, Option, none, some, List, [], ◌∷◌, Text, Table, Exn, http, Result, ok, err,
  Action, pure, raise, gets, modify, raise_if, or_raise, session, ◌>>=◌, ◌>>◌, find, update, take,
  drop, select, values, all, is_empty, is_some, leb, ◌==◌, if◌then◌else◌,
}
use concertpvr.Models.{Db, Recording, RecordingStatus, complete, Schedule, Segment, is_published}
use concertpvr.Segment.Segmenter.{Chapter}
use concertpvr.Segment.AutoSegment.{flush_recording}

-- What ffprobe and `stat` say of a single file: the width, height and rate, the duration, the size.
pub record Probe : Type 0 where
  pub width : ℕ
  pub height : ℕ
  pub fps : ℕ
  pub duration_s : ℕ

pub record Tools : Type 0 where
  -- Whether the path is a file.
  pub is_file : Text → Bool
  -- `Splitter.probe`, or nothing for an `FFmpegError`.
  pub probe : Text → Option Probe
  -- The size of a file, or nothing for an `OSError`.
  pub size : Text → Option ℕ
  -- `extract_chapters_json`
  pub chapters : Text → Option Text
  -- The removal of a file or directory, if it is there.
  pub remove : Text → Result (Unit {0})
  pub now : ℕ
  pub loads : Text → Option (List Chapter)
  pub fresh : List ℕ → ℕ

abbrev pub no_recording : Exn
no_recording = http 404 "recording not found"

unfoldable pub get_recording : ℕ → Action Db Recording
get_recording id = session do or_raise no_recording (find id (← gets (λ db. db.recordings)))

-- `.order_by(Recording.started_at.desc())`
abbrev pub by_start : Recording → List Recording → List Recording
by_start x [] = x ∷ []
by_start x (y ∷ ys) = if leb y.started_at x.started_at then x ∷ y ∷ ys else y ∷ by_start x ys

unfoldable pub newest_first : List Recording → List Recording
newest_first [] = []
newest_first (x ∷ xs) = by_start x (newest_first xs)

abbrev pub of_stream : Option ℕ → List Recording → List Recording
of_stream none rows = rows
of_stream (some sid) rows = select (λ rec. rec.stream_id == sid) rows

abbrev pub of_status : Option (RecordingStatus → Bool) → List Recording → List Recording
of_status none rows = rows
of_status (some is_it) rows = select (λ rec. is_it rec.status) rows

abbrev pub limited : Option ℕ → List Recording → List Recording
limited none rows = rows
limited (some n) rows = take n rows

-- The status is given as the test for it.
unfoldable pub list_recordings :
    Option ℕ → Option (RecordingStatus → Bool) → Option ℕ → ℕ → Db → List Recording
unfolding newest_first
list_recordings stream_id status limit offset db =
    limited limit
      (drop offset (newest_first (of_status status (of_stream stream_id (values db.recordings)))))

-- The schedule that a recording comes from.
abbrev pub schedule_with : ℕ → Table Schedule → Option Schedule
schedule_with id [] = none
schedule_with id ((_, sch) ∷ t) = elim sch.recording_id [
  | none ↦ schedule_with id t
  | some rid ↦ if rid == id then some sch else schedule_with id t
]

unfoldable pub get_recording_schedule : ℕ → Action Db (Option Schedule)
get_recording_schedule id = session do
  raise_if (not (is_some (find id (← gets (λ db. db.recordings))))) no_recording
  gets (λ db. schedule_with id db.schedules)

abbrev pub with_chapters : Option Text → Recording → Recording
with_chapters none rec = rec
with_chapters (some json) rec = record rec { raw_chapters_json = some json }

abbrev pub or_zero : Option ℕ → ℕ
or_zero none = 0
or_zero (some n) = n

abbrev pub with_probe : Option Probe → Option ℕ → Recording → Recording
with_probe none size rec = rec
with_probe (some i) size rec = record rec {
  width = some i.width;
  height = some i.height;
  fps = some i.fps;
  duration_s = i.duration_s;
  size_bytes = or_zero size;
}

abbrev pub mark_deleted : Recording → Recording
mark_deleted rec = record rec { source_deleted = true }

abbrev pub segments_of : ℕ → Table Segment → List Segment
segments_of id t = select (λ seg. seg.recording_id == id) (values t)

module _ (t : Tools) where
  abbrev pub probe_of : Text → Option Probe
  probe_of path = if t.is_file path then t.probe path else none

  -- The row as the handler sets it.
  unfoldable pub finalized : Recording → Recording
  finalized rec =
      let rec1 =
        with_probe (probe_of rec.path) (t.size rec.path)
          (with_chapters (t.chapters rec.path) rec) in
      record rec1 { status = complete; ended_at = some t.now }

  unfoldable pub finalize_recording : ℕ → Action Db Recording
  unfolding finalized flush_recording
  finalize_recording id = do
    raise_if (not (is_some (find id (← gets (λ db. db.recordings))))) no_recording
    session do
      modify (flush_recording t.loads t.fresh id finalized)
      or_raise no_recording (find id (← gets (λ db. db.recordings)))

  -- An `OSError` of the removal answers 500.
  abbrev pub removal : Text → Action Db (Unit {0})
  removal path = elim (t.remove path) [
    | ok _ ↦ pure tt
    | err _ ↦ raise (http 500 "file removal failed")
  ]

  unfoldable pub delete_source : ℕ → Action Db (Unit {0})
  delete_source id = session do
    rec ← or_raise no_recording (find id (← gets (λ db. db.recordings)))
    raise_if rec.source_deleted (http 409 "source already deleted")
    segs ← gets (λ db. segments_of id db.segments)
    raise_if (is_empty segs) (http 409 "no segments exist for this recording")
    raise_if (not (all (λ seg. is_published seg.status) segs))
        (http 409 "not all segments are published")
    removal rec.path
    modify (λ db. record db { recordings = update id mark_deleted db.recordings })
