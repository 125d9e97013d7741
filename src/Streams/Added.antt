-- ===== src/Streams/Added.antt =====
-- What `create_stream` of src/concertpvr/api/streams.py adds for the URL of a single video.
use Prim.Native.String.{String}
use concertpvr.Prelude.{
  ℕ, ◌≡◌, refl, ap, Table, values, true, false, Bool-cases, ◌⊎◌, inl, inr, [], ◌∷◌, ◌++◌, Text,
  arith, Result, ok, err, is_some, keys, insert, sym, subst, Bool, http,
}
use concertpvr.Models.{Db, Stream, StreamKind, is_vod_queued}
use concertpvr.Vod.Queue.{World, job, enqueue, stream_by_youtube_id}
use concertpvr.Vod.Handler.{cookies_of}
use concertpvr.Poller.Uploads.{IsDistinct, IsDistinct-insert, keys_where-insert, queued_rows}
use concertpvr.Streams.Create.{
  Info, Tools, Found, setlist_of, stream_of, waiting, add_rows, added, enqueued, create_from,
  answered, create_stream,
}

-- What becomes of the recordings and the queue for a stream of this kind: a video's gets a queued
-- recording, the job of which is put at the end of the queue.
abbrev pub Queues : StreamKind → World → World → Type 0
Queues StreamKind.video w w' =
    (id : ℕ) × (queued_rows w'.db ≡ queued_rows w.db ++ id ∷ [])
    × (w'.queue.fifo ≡ w.queue.fifo ++ job id ∷ [])
Queues StreamKind.live w w' = (w'.db.recordings ≡ w.db.recordings) × (w'.queue ≡ w.queue)
Queues StreamKind.channel w w' = ⊥

-- What an answer says of the state before and after.
abbrev pub Adds : World → Result Stream → World → Type 0
Adds w (ok st) w' = (values w'.db.streams ≡ values w.db.streams ++ st ∷ []) × Queues st.kind w w'
Adds w (err e) w' = w' ≡ w

values-insert :
    {A : Type 0} (k : ℕ) (a : A) (t : Table A) → values (insert k a t) ≡ values t ++ a ∷ []
values-insert k a [] = refl
values-insert k a (e ∷ t) = ap (◌∷◌ e.1) (values-insert k a t)

module _ (t : Tools) (info : Info) (w : World) where
  abbrev found : Found
  found = setlist_of t info w.db

  abbrev new_row : Stream
  new_row = stream_of t info found

  abbrev sid : ℕ
  sid = t.fresh (keys w.db.streams)

  abbrev rid : ℕ
  rid = t.fresh (keys w.db.recordings)

  abbrev with_stream : Db
  with_stream = record w.db { streams = insert sid (stream_of t info found) w.db.streams }

  abbrev with_rows : Db
  with_rows = record with_stream { recordings = insert rid (waiting t sid info) w.db.recordings }

  abbrev known : Bool
  known = is_some (stream_by_youtube_id info.youtube_id w.db.streams)

  create_from-known :
      known ≡ true → create_from t info w ≡ (err (http 409 "stream already added"), w)
  unfolding create_from added
  create_from-known there = ground (arith, there)

  create_from-live :
      known ≡ false
      → info.is_live ≡ true
      → create_from t info w ≡ (ok new_row, record w { db = with_stream })
  unfolding create_from added add_rows enqueued
  create_from-live new is_live = ground (arith, new, is_live)

  create_from-video :
      known ≡ false
      → info.is_live ≡ false
      → create_from t info w
        ≡ (ok new_row, record w { db = with_rows; queue = enqueue rid w.queue })
  unfolding create_from added add_rows enqueued
  create_from-video new is_video = ground (arith, new, is_video)

  create_from-Adds :
      IsDistinct w.db.streams
      → let (r, w') = create_from t info w in IsDistinct w'.db.streams × Adds w r w'
  unfolding enqueue stream_of
  create_from-Adds h =
      let Goal : Result Stream × World → Type 0 = λ y. IsDistinct y.1.db.streams × Adds w y.0 y.1 in
      elim (Bool-cases known) [
        | inl there ↦ subst Goal (sym (create_from-known there)) (h, refl)
        | inr new ↦
            let distinct = IsDistinct-insert sid (stream_of t info found) w.db.streams h new in
            let one_more = values-insert sid (stream_of t info found) w.db.streams in
            elim (Bool-cases info.is_live) [
              | inl is_live ↦
                  subst Goal (sym (create_from-live new is_live))
                    (distinct, (one_more, rw is_live (refl, refl)))
              | inr is_video ↦
                  let queued =
                    keys_where-insert (λ rec. is_vod_queued rec.status) rid (waiting t sid info)
                      w.db.recordings refl in
                  subst Goal (sym (create_from-video new is_video))
                    (distinct, (one_more, rw is_video (rid, queued, refl)))
            ]
      ]

answered-Adds :
    (t : Tools) (p : String ⊎ Info) (w : World)
    → IsDistinct w.db.streams
    → let (r, w') = answered t p w in IsDistinct w'.db.streams × Adds w r w'
answered-Adds t (inl text) w h = (h, refl)
answered-Adds t (inr info) w h = create_from-Adds t info w h

-- Adding the URL of a single video, in a database where no video has two streams: no video has two
-- streams afterwards. The answer is the one new row among the streams. For a video there is one queued
-- recording more, and its job is the last of the queue; for a live stream, recordings and queue stay. A
-- request that raises changes nothing.
pub create_stream-Adds :
    (t : Tools) (url : Text) (w : World)
    → IsDistinct w.db.streams
    → let (r, w') = create_stream t url w in IsDistinct w'.db.streams × Adds w r w'
unfolding create_stream
create_stream-Adds t url w h = answered-Adds t (t.probe url (cookies_of w.db.settings)) w h
