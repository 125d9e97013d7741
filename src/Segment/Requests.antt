-- ===== src/Segment/Requests.antt =====
-- Sequences of the requests of src/concertpvr/api/segments.py that change segments.
use concertpvr.Prelude.{ℕ, List, [], ◌∷◌, Result, ok, err, keys, Rows, subst, sym}
use concertpvr.Models.{Db}
use concertpvr.Segment.Api.{
  SegmentCreate, SegmentPatch, create_segment, patch_segment, delete_segment,
}
use concertpvr.Segment.Bounds.{
  IsOrdered, Keeps, create_segment-Keeps, patch_segment-Keeps, delete_segment-Keeps,
}

pub data Request : Type 0 where
  creates : SegmentCreate → Request
  patches : ℕ → SegmentPatch → Request
  deletes : ℕ → Request

kept :
    {A : Type 0} (db : Db) (x : Result A × Db)
    → Rows IsOrdered db.segments
    → Keeps db x
    → Rows IsOrdered x.1.segments
kept db (ok a, db') h k = k
kept db (err e, db') h k = subst (λ d. Rows IsOrdered d.segments) (sym k) h

-- `fresh` is the database's choice of a key for a new row.
module _ (fresh : List ℕ → ℕ) where
  abbrev pub serve : Request → Db → Db
  serve (creates p) db = (create_segment (fresh (keys db.segments)) p db).1
  serve (patches id p) db = (patch_segment id p db).1
  serve (deletes id) db = (delete_segment id db).1

  unfoldable pub serve_all : List Request → Db → Db
  serve_all [] db = db
  serve_all (r ∷ rs) db = serve_all rs (serve r db)

  -- Where every segment ends after it starts, it is so after any sequence of create, patch and delete
  -- requests, accepted or refused: also after patches that move only one end.
  pub serve_all-IsOrdered :
      (rs : List Request) (db : Db)
      → Rows IsOrdered db.segments
      → Rows IsOrdered (serve_all rs db).segments
  unfolding serve_all
  serve_all-IsOrdered [] db h = h
  serve_all-IsOrdered (creates p ∷ rs) db h = serve_all-IsOrdered rs (serve (creates p) db) (
      kept db (create_segment (fresh (keys db.segments)) p db) h
        (create_segment-Keeps (fresh (keys db.segments)) p db h))
  serve_all-IsOrdered (patches id p ∷ rs) db h =
      serve_all-IsOrdered rs (serve (patches id p) db)
        (kept db (patch_segment id p db) h (patch_segment-Keeps id p db h))
  serve_all-IsOrdered (deletes id ∷ rs) db h =
      serve_all-IsOrdered rs (serve (deletes id) db)
        (kept db (delete_segment id db) h (delete_segment-Keeps id db h))
