-- ===== src/Publish/Outcome.antt =====
-- How a publish ends, and what it leaves in the database.
use concertpvr.Prelude.{
  cancelled, ℕ, ◌≡◌, refl, subst, sym, ap, ◌∙◌, Option, none, some, Text, lookup_error, find,
  find-update_self, Result, ok, err, arith,
}
use concertpvr.Models.{publishing, Db, Segment, SegmentStatus, Recording, published, publish_failed}
use concertpvr.Publish.Metadata.{Options}
use concertpvr.Publish.Worker.{
  Tools, Source, set_segment, mark_publishing, open_source, produce, mark_published, delete_from,
  delete_source_when_done, complete_from, complete_segment, mark_failed, conclude, publish_source,
  publish, stream_or_blank,
}

abbrev pub segment_status : Option Segment → Option SegmentStatus
segment_status none = none
segment_status (some seg) = some seg.status

abbrev pub final_status : Result (Unit {0}) → SegmentStatus
final_status (ok _) = published
final_status (err cancelled) = publishing
final_status (err _) = publish_failed

-- Where a segment is there and its recording is missing, a publish raises `LookupError` and the
-- database is as before: the failure that the worker writes on the segment is rolled back with its
-- session.
pub publish_missing :
    (t : Tools) (sid : ℕ) (opts : Options) (db : Db) (seg : Segment)
    → find sid db.segments ≡ some seg
    → find seg.recording_id db.recordings ≡ none
    → publish t sid opts db ≡ (err lookup_error, db)
unfolding publish open_source
publish_missing t sid opts db seg found gone = ground arith

-- What is written before the last session lies outside the database.
pub produce_lem :
    (t : Tools) (opts : Options) (src : Source) (db : Db) → (produce t opts src db).1 ≡ db
unfolding produce
produce_lem t opts src db = ground arith

abbrev source_for : Segment → Recording → Db → Source
source_for seg rec db = record {
  segment = seg;
  recording = rec;
  stream = stream_or_blank (find rec.stream_id db.streams);
}

open_source_lem :
    (sid : ℕ) (db : Db) (seg : Segment) (rec : Recording)
    → find sid db.segments ≡ some seg
    → find seg.recording_id db.recordings ≡ some rec
    → open_source sid db ≡ (ok (source_for seg rec db), set_segment sid mark_publishing db)
unfolding open_source
open_source_lem sid db seg rec found source = ground arith

pub find-set_segment :
    (sid : ℕ) (f : Segment → Segment) (db : Db) (seg : Segment)
    → find sid db.segments ≡ some seg
    → find sid (set_segment sid f db).segments ≡ some (f seg)
find-set_segment sid f db seg found = find-update_self sid f db.segments seg found

-- The deletion of a source keeps the segments.
delete_from-segments :
    (t : Tools) (rid : ℕ) (found : Option Recording) (db : Db)
    → (delete_from t rid found db).segments ≡ db.segments
delete_from-segments t rid found db = ground arith

complete_segment-status :
    (t : Tools) (sid : ℕ) (dir : Text) (db : Db) (seg : Segment)
    → find sid db.segments ≡ some seg
    → segment_status (find sid (complete_segment t sid dir db).segments) ≡ some published
unfolding complete_segment delete_source_when_done
complete_segment-status t sid dir db seg found =
    let marked = set_segment sid (mark_published dir) db in
    let kept =
      delete_from-segments t seg.recording_id (find seg.recording_id marked.recordings) marked in
    subst (λ r. segment_status (find sid (complete_from t sid dir r db).segments) ≡ some published)
      (sym found)
      (ap (λ segs. segment_status (find sid segs)) kept
        ∙ ap segment_status (find-set_segment sid (mark_published dir) db seg found))

-- The segment's status agrees with how the publish ended.
Agrees : ℕ → Result (Unit {0}) × Db → Type 0
Agrees sid (r, db) = segment_status (find sid db.segments) ≡ some (final_status r)

conclude-Agrees :
    (t : Tools) (sid : ℕ) (r : Result Text) (db : Db) (seg : Segment)
    → find sid db.segments ≡ some seg
    → seg.status ≡ publishing
    → Agrees sid (conclude t sid (r, db))
unfolding Agrees
conclude-Agrees t sid (ok dir) db seg found status = complete_segment-status t sid dir db seg found
conclude-Agrees t sid (err cancelled) db seg found status = ap segment_status found ∙ ap some status
conclude-Agrees t sid (err e) db seg found status =
    ap segment_status (find-set_segment sid (mark_failed t e) db seg found)

pub publish-conclude :
    (t : Tools) (sid : ℕ) (opts : Options) (db : Db) (seg : Segment) (rec : Recording)
    → find sid db.segments ≡ some seg
    → find seg.recording_id db.recordings ≡ some rec
    → (r : Result Text) × (publish t sid opts db
        ≡ conclude t sid (r, set_segment sid mark_publishing db))
unfolding publish
publish-conclude t sid opts db seg rec found source =
    let src = source_for seg rec db in
    let db1 = set_segment sid mark_publishing db in
    (
      (produce t opts src db1).0,
      ap (publish_source t sid opts) (open_source_lem sid db seg rec found source)
          ∙ ap (λ d. conclude t sid ((produce t opts src db1).0, d)) (produce_lem t opts src db1),
    )

-- A publish of a segment whose recording is there ends with the segment published if it returns, and
-- with the segment marked as publish_failed if it raises, unless its task is cancelled: it reads
-- publishing then.
pub publish-status :
    (t : Tools) (sid : ℕ) (opts : Options) (db : Db) (seg : Segment) (rec : Recording)
    → find sid db.segments ≡ some seg
    → find seg.recording_id db.recordings ≡ some rec
    → segment_status (find sid (publish t sid opts db).1.segments)
      ≡ some (final_status (publish t sid opts db).0)
unfolding Agrees
publish-status t sid opts db seg rec found source =
    let (r, e) = publish-conclude t sid opts db seg rec found source in
    subst (Agrees sid) (sym e) (
      conclude-Agrees t sid r (set_segment sid mark_publishing db) (mark_publishing seg)
        (find-set_segment sid mark_publishing db seg found) refl)
