-- ===== src/Publish/Source.antt =====
-- When a publish deletes the recording's source.
use concertpvr.Prelude.{
  cancelled, ℕ, ◌≡◌, subst, sym, true, false, some, Text, find, find-update_self, Result, ok, err,
  arith,
}
use concertpvr.Models.{Db, Segment, Recording}
use concertpvr.Publish.Outcome.{publish-conclude, find-set_segment}
use concertpvr.Publish.Metadata.{Options}
use concertpvr.Publish.Worker.{
  Tools, set_segment, all_published, delete_from, mark_deleted, publish, mark_published, conclude,
  mark_publishing, complete_from, complete_segment, delete_source_when_done,
}

-- A source that was there and is marked as deleted: its removal went through, and every segment of
-- the recording is published.
delete_from_lem :
    (t : Tools) (rid : ℕ) (rec rec' : Recording) (db : Db)
    → find rid db.recordings ≡ some rec
    → rec.source_deleted ≡ false
    → find rid (delete_from t rid (some rec) db).recordings ≡ some rec'
    → rec'.source_deleted ≡ true
    → (all_published rid (delete_from t rid (some rec) db).segments ≡ true)
      × (t.remove rec.path ≡ ok tt)
delete_from_lem t rid rec rec' db found there after deleted =
    ground (arith, find-update_self rid mark_deleted db.recordings rec found)

-- As in `delete_from_lem`, for a state that a publish leaves.
abbrev Deletes : Tools → ℕ → Recording → Recording → Db → Type 0
Deletes t rid rec rec' db =
    find rid db.recordings ≡ some rec'
    → rec'.source_deleted ≡ true
    → (all_published rid db.segments ≡ true) × (t.remove rec.path ≡ ok tt)

conclude-Deletes :
    (t : Tools) (sid : ℕ) (r : Result Text) (db : Db) (seg : Segment) (rec rec' : Recording)
    → find sid db.segments ≡ some seg
    → find seg.recording_id db.recordings ≡ some rec
    → rec.source_deleted ≡ false
    → Deletes t seg.recording_id rec rec' (conclude t sid (r, db)).1
unfolding complete_segment delete_source_when_done
conclude-Deletes t sid (ok dir) db seg rec rec' found source there =
    let marked = set_segment sid (mark_published dir) db in
    subst (λ o. Deletes t seg.recording_id rec rec' (complete_from t sid dir o db)) (sym found)
      (subst (λ o. Deletes t seg.recording_id rec rec' (delete_from t seg.recording_id o marked))
        (sym source) (delete_from_lem t seg.recording_id rec rec' marked source there))
conclude-Deletes t sid (err cancelled) db seg rec rec' found source there =
    λ after deleted. ground arith
conclude-Deletes t sid (err e) db seg rec rec' found source there = λ after deleted. ground arith

-- As its source is marked as deleted by a publish, a recording's segments are all published, and the
-- removal of the source has returned.
pub publish-source_deleted :
    (t : Tools) (sid : ℕ) (opts : Options) (db : Db) (seg : Segment) (rec rec' : Recording)
    → find sid db.segments ≡ some seg
    → find seg.recording_id db.recordings ≡ some rec
    → rec.source_deleted ≡ false
    → find seg.recording_id (publish t sid opts db).1.recordings ≡ some rec'
    → rec'.source_deleted ≡ true
    → (all_published seg.recording_id (publish t sid opts db).1.segments ≡ true)
      × (t.remove rec.path ≡ ok tt)
publish-source_deleted t sid opts db seg rec rec' found source there =
    let (r, e) = publish-conclude t sid opts db seg rec found source in
    subst (λ x. Deletes t seg.recording_id rec rec' x.1) (sym e)
      (conclude-Deletes t sid r (set_segment sid mark_publishing db) (mark_publishing seg) rec rec'
        (find-set_segment sid mark_publishing db seg found) source there)
