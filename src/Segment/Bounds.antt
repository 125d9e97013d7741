-- ===== src/Segment/Bounds.antt =====
-- The order of a segment's times under the requests of src/concertpvr/api/segments.py, and what a
-- refused request leaves.
use concertpvr.Prelude.{
  ℕ, Table, Text, leb-false, ℤ, ◌≡◌, Option, none, some, ◌<ℤ◌, leb_ℤ, find, Rows, Rows-insert,
  Rows-update, Rows-erase, Result, ok, err, arith, inl, inr, Bool-cases, Option-cases, Result-cases,
  update,
}
use concertpvr.Models.{Db, Segment}
use concertpvr.Segment.Api.{
  SegmentCreate, SegmentPatch, row_of, flushed, compared, apply_patch, patched, create_segment,
  patch_segment, delete_segment,
}

abbrev pub IsOrdered : Segment → Type 0
IsOrdered seg = seg.start_s <ℤ seg.end_s

-- Whatever came of a request: the segments end after they start, and if it was refused the
-- database is as before.
abbrev pub Keeps : {A : Type 0} → Db → Result A × Db → Type 0
Keeps db (ok _, db') = Rows IsOrdered db'.segments
Keeps db (err _, db') = db' ≡ db

-- Where every segment ends after it starts, it is so after a create request that is accepted, and a
-- create request that is refused leaves the database as it was.
pub create_segment-Keeps :
    (new_id : ℕ) (p : SegmentCreate) (db : Db)
    → Rows IsOrdered db.segments
    → Keeps db (create_segment new_id p db)
unfolding create_segment
create_segment-Keeps new_id p db h =
    ground (arith, Rows-insert IsOrdered new_id (row_of p) db.segments h)

Rows-update_find :
    (id : ℕ) (t : Table Segment) (seg : Segment)
    → Rows IsOrdered t
    → IsOrdered seg
    → Rows IsOrdered (update id (λ _. seg) t)
Rows-update_find id t seg h p = Rows-update IsOrdered id (λ _. seg) t (λ _ _. p) h

abbrev OrderedIfOk : Result Segment → Type 0
OrderedIfOk (ok seg) = IsOrdered seg
OrderedIfOk (err _) = Unit

flushed-IsOrdered :
    (p : SegmentPatch) (seg : Segment) (start end : ℤ) (artist : Option Text)
    → start <ℤ end
    → OrderedIfOk (flushed p seg start end artist)
flushed-IsOrdered p seg start end none h = tt
flushed-IsOrdered p seg start end (some artist) h = h

compared-IsOrdered :
    (p : SegmentPatch) (seg : Segment) (start end : Option ℤ)
    → OrderedIfOk (compared p seg start end)
compared-IsOrdered p seg none end = tt
compared-IsOrdered p seg (some start) none = tt
compared-IsOrdered p seg (some start) (some end) = elim (Bool-cases (leb_ℤ end start)) [
  | inl le ↦ rw le tt
  | inr gt ↦
      rw gt (flushed-IsOrdered p seg start end (patched p.artist seg.artist) (leb-false _ _ gt))
]

apply_patch-IsOrdered :
    (p : SegmentPatch) (seg seg' : Segment) → apply_patch p seg ≡ ok seg' → IsOrdered seg'
unfolding apply_patch
apply_patch-IsOrdered p seg seg' e =
    rw e at (compared-IsOrdered p seg (patched p.start_s seg.start_s) (patched p.end_s seg.end_s))

-- Where every segment ends after it starts, it is so after a patch that is accepted, also one that
-- moves only one end, and a patch that is refused leaves the database as it was.
pub patch_segment-Keeps :
    (id : ℕ) (p : SegmentPatch) (db : Db)
    → Rows IsOrdered db.segments
    → Keeps db (patch_segment id p db)
unfolding patch_segment
patch_segment-Keeps id p db h = elim (Option-cases (find id db.segments)) [
  | inl missing ↦ ground arith
  | inr (seg, found) ↦ elim (Result-cases (apply_patch p seg)) [
    | inl (seg', e) ↦
        ground (arith, Rows-update_find id db.segments seg' h (apply_patch-IsOrdered p seg seg' e))
    | inr (x, e) ↦ ground arith
  ]
]

-- Where every segment ends after it starts, it is so after a delete request that is accepted, and one
-- that is refused leaves the database as it was.
pub delete_segment-Keeps :
    (id : ℕ) (db : Db) → Rows IsOrdered db.segments → Keeps db (delete_segment id db)
unfolding delete_segment
delete_segment-Keeps id db h = ground (arith, Rows-erase IsOrdered id db.segments h)
