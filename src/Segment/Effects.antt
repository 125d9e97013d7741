-- ===== src/Segment/Effects.antt =====
-- What a create and a patch of api/segments.py store, and what they leave alone.
use concertpvr.Prelude.{
  ℕ, ◌≡◌, true, false, none, some, ◌<ℤ◌, find, ok, ◌==◌, find-insert_self, find-insert_ne,
  find-update_self, find-update_ne, arith, is_some,
}
use concertpvr.Models.{Db, Segment}
use concertpvr.Segment.Api.{
  SegmentCreate, SegmentPatch, row_of, create_segment, patch_segment, get_segment, apply_patch,
}

-- A request with times in order, for a recording that is there, creates a draft under the new key:
-- reading that key gives the row that was answered, and every other segment is as before.
pub get-create :
    (new_id j : ℕ) (p : SegmentCreate) (db : Db)
    → p.start_s <ℤ p.end_s
    → is_some (find p.recording_id db.recordings) ≡ true
    → find new_id db.segments ≡ none
    → (j == new_id) ≡ false
    → let (r, db') = create_segment new_id p db in
      (r ≡ ok (row_of p))
      × (get_segment new_id db' ≡ (ok (row_of p), db'))
      × (find j db'.segments ≡ find j db.segments)
unfolding create_segment get_segment
get-create new_id j p db times known free ne = (
  ground (arith, find-insert_self new_id (row_of p) db.segments free),
  ground (arith, find-insert_self new_id (row_of p) db.segments free),
  ground (
    arith,
    find-insert_self new_id (row_of p) db.segments free,
    find-insert_ne j new_id (row_of p) db.segments ne,
  ),
)

-- A patch that succeeds stores the row that it answers with, which is the old row with the given
-- fields replaced, and leaves every other segment as it was.
pub patch_segment_lem :
    (id j : ℕ) (p : SegmentPatch) (db : Db) (seg seg' : Segment)
    → find id db.segments ≡ some seg
    → apply_patch p seg ≡ ok seg'
    → (j == id) ≡ false
    → let (r, db') = patch_segment id p db in
      (r ≡ ok seg')
      × (find id db'.segments ≡ some seg')
      × (find j db'.segments ≡ find j db.segments)
unfolding patch_segment
patch_segment_lem id j p db seg seg' found e ne = (
  ground arith,
  ground (arith, find-update_self id (λ (_ : Segment). seg') db.segments seg found),
  ground (arith, find-update_ne j id (λ (_ : Segment). seg') db.segments ne),
)
