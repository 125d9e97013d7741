-- ===== src/Segment/AutoSegment.antt =====
-- src/concertpvr/auto_segment.py: the `before_flush` listener. `flush_recording` is a flush in which
-- the row of a recording gets new values; the drafts join the flush if its status has become
-- "complete" and the recording has no segment yet.
use concertpvr.Prelude.{
  ℕ, Bool, Option, none, some, List, Text, Table, find, update, any, values, if◌then◌else◌, ◌==◌,
  ◌&&◌, not,
}
use concertpvr.Models.{Db, Recording, Segment, is_complete}
use concertpvr.Segment.Segmenter.{Chapter, derive_draft_segments, add_segments}

-- `select(Segment.id).where(Segment.recording_id == obj.id).limit(1)` finds a row.
unfoldable pub has_segments : ℕ → Table Segment → Bool
has_segments rid t = any (λ seg. seg.recording_id == rid) (values t)

module _ (loads : Text → Option (List Chapter)) (fresh : List ℕ → ℕ) where
  -- The listener, for one dirty recording with its values before and after.
  unfoldable pub before_flush : ℕ → Recording → Recording → Db → Db
  unfolding derive_draft_segments add_segments has_segments
  before_flush rid old new db =
      if not (is_complete old.status)
        && is_complete new.status
        && not (has_segments rid db.segments)
      then record db {
        segments = add_segments fresh (derive_draft_segments loads rid new db.setlists) db.segments;
      }
      else db

  abbrev flush_from : ℕ → Option Recording → (Recording → Recording) → Db → Db
  flush_from rid none f db = db
  flush_from rid (some rec) f db =
      let db' = before_flush rid rec (f rec) db in
      record db' { recordings = update rid f db'.recordings }

  unfoldable pub flush_recording : ℕ → (Recording → Recording) → Db → Db
  unfolding before_flush
  flush_recording rid f db = flush_from rid (find rid db.recordings) f db
