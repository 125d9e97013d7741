-- ===== src/Segment/Once.antt =====
-- When the listener of src/concertpvr/auto_segment.py derives drafts.
use concertpvr.Prelude.{
  ℕ, Bool, All, any, ◌∙◌, ◌==◌, ◌≡◌, refl, ap, sym, append-nil, append_assoc, find-update_self,
  if◌then◌else◌, true, false, Option, some, List, [], ◌∷◌, ◌++◌, Text, Table, find, insert, keys,
  values, arith,
}
use concertpvr.Models.{Db, Recording, Segment, Setlist, is_complete}
use concertpvr.Segment.Drafts.{Drafts, derive_draft_segments-Drafts}
use concertpvr.Segment.Segmenter.{Chapter, chapters_of, derive_draft_segments, add_segments}
use concertpvr.Segment.AutoSegment.{has_segments, before_flush, flush_recording}

values-insert :
    {A : Type 0} (k : ℕ) (a : A) (t : Table A) → values (insert k a t) ≡ values t ++ a ∷ []
values-insert k a [] = refl
values-insert k a (e ∷ t) = ap (◌∷◌ e.1) (values-insert k a t)

values-add_segments :
    (fresh : List ℕ → ℕ) (segs : List Segment) (t : Table Segment)
    → values (add_segments fresh segs t) ≡ values t ++ segs
unfolding add_segments
values-add_segments fresh [] t = sym (append-nil (values t))
values-add_segments fresh (seg ∷ segs) t =
    rw
      (
        values-add_segments fresh segs (insert (fresh (keys t)) seg t),
        values-insert (fresh (keys t)) seg t,
      )
      (append_assoc (values t) (seg ∷ []) segs)

module _ (loads : Text → Option (List Chapter)) (fresh : List ℕ → ℕ) where
  -- A flush that makes a recording complete appends the drafts of its new values to the segments if
  -- the recording had none, and nothing otherwise; the row gets the new values either way.
  pub flush_completes :
      (rid : ℕ) (f : Recording → Recording) (db : Db) (rec : Recording)
      → find rid db.recordings ≡ some rec
      → is_complete rec.status ≡ false
      → is_complete (f rec).status ≡ true
      → let db' = flush_recording loads fresh rid f db in
        (values db'.segments
          ≡ values db.segments
            ++ (if has_segments rid db.segments
                then []
                else derive_draft_segments loads rid (f rec) db.setlists))
        × (find rid db'.recordings ≡ some (f rec))
  unfolding flush_recording before_flush
  flush_completes rid f db rec found not_yet done =
      let drafts = derive_draft_segments loads rid (f rec) db.setlists in
      (
        ground
            (arith, values-add_segments fresh drafts db.segments, append-nil (values db.segments)),
        ground (arith, find-update_self rid f db.recordings rec found),
      )

  -- Once a recording is complete, no later change of its row derives drafts again, even if all its
  -- segments have been deleted since, or the change sets the status to complete once more.
  pub flush_complete_again :
      (rid : ℕ) (f : Recording → Recording) (db : Db) (rec : Recording)
      → find rid db.recordings ≡ some rec
      → is_complete rec.status ≡ true
      → (flush_recording loads fresh rid f db).segments ≡ db.segments
  unfolding flush_recording before_flush
  flush_complete_again rid f db rec found done = ground arith

  flush_complete_row :
      (rid : ℕ) (f : Recording → Recording) (db : Db) (rec : Recording)
      → find rid db.recordings ≡ some rec
      → is_complete rec.status ≡ true
      → find rid (flush_recording loads fresh rid f db).recordings ≡ some (f rec)
  unfolding flush_recording before_flush
  flush_complete_row rid f db rec found done =
      ground (arith, find-update_self rid f db.recordings rec found)

  -- Flushes of changes of one row, one after the other.
  unfoldable pub flush_all : ℕ → List (Recording → Recording) → Db → Db
  flush_all rid [] db = db
  flush_all rid (g ∷ gs) db = flush_all rid gs (flush_recording loads fresh rid g db)

  -- A change that leaves a complete recording complete.
  abbrev pub StaysComplete : (Recording → Recording) → Type 0
  StaysComplete g =
      (rec : Recording) → is_complete rec.status ≡ true → is_complete (g rec).status ≡ true

  flush_all_again :
      (rid : ℕ) (gs : List (Recording → Recording)) (db : Db) (rec : Recording)
      → find rid db.recordings ≡ some rec
      → is_complete rec.status ≡ true
      → All StaysComplete gs
      → (flush_all rid gs db).segments ≡ db.segments
  unfolding flush_all
  flush_all_again rid [] db rec found done stay = refl
  flush_all_again rid (g ∷ gs) db rec found done (stays, stay) =
      flush_all_again rid gs (flush_recording loads fresh rid g db) (g rec)
        (flush_complete_row rid g db rec found done) (stays rec done) stay
      ∙ flush_complete_again rid g db rec found done

  -- Once a recording is complete, no later changes of its row, however many, add or remove segments, as
  -- long as each leaves a complete recording complete.
  pub derive_once :
      (rid : ℕ) (f : Recording → Recording) (gs : List (Recording → Recording)) (db : Db)
      (rec : Recording)
      → find rid db.recordings ≡ some rec
      → is_complete rec.status ≡ false
      → is_complete (f rec).status ≡ true
      → All StaysComplete gs
      → (flush_all rid (f ∷ gs) db).segments ≡ (flush_recording loads fresh rid f db).segments
  unfolding flush_all
  derive_once rid f gs db rec found not_yet done stay =
      flush_all_again rid gs (flush_recording loads fresh rid f db) (f rec)
        (flush_completes rid f db rec found not_yet done).1 done stay

  -- The segments that a flush adds, where the recording had some or none.
  abbrev pub Added : Bool → ℕ → Table Setlist → Recording → List Segment → Type 0
  Added true rid t rec drafts = drafts ≡ []
  Added false rid t rec drafts = Drafts rid t (chapters_of loads rec.raw_chapters_json) drafts

  -- A flush that makes a recording complete keeps the segments there are. If the recording had a segment,
  -- it adds none; otherwise it adds a draft for each usable chapter of the new values, or without
  -- chapters for each setlist row of the recording, ordered by start. The row gets the new values.
  pub flush-Drafts :
      (rid : ℕ) (f : Recording → Recording) (db : Db) (rec : Recording)
      → find rid db.recordings ≡ some rec
      → is_complete rec.status ≡ false
      → is_complete (f rec).status ≡ true
      → let db' = flush_recording loads fresh rid f db in
        (drafts : List Segment) × (values db'.segments ≡ values db.segments ++ drafts)
        × Added
            (any (λ seg. seg.recording_id == rid) (values db.segments))
            rid
            db.setlists
            (f rec)
            drafts
        × (find rid db'.recordings ≡ some (f rec))
  unfolding has_segments
  flush-Drafts rid f db rec found not_yet done =
      let (kept, row) = flush_completes rid f db rec found not_yet done in
      (_, kept, go (any (λ seg. seg.recording_id == rid) (values db.segments)), row)
    where
      go :
          (b : Bool)
          → Added b rid db.setlists
              (f rec)
              (if b then [] else derive_draft_segments loads rid (f rec) db.setlists)
      go true = refl
      go false = derive_draft_segments-Drafts loads rid (f rec) db.setlists
