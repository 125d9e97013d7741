-- ===== src/Backlog/Queued.antt =====
-- What a request for downloads adds (`download_backlog_items` of
-- src/concertpvr/api/channel_watchers.py).
use concertpvr.Prelude.{
  ℕ, ◌≡◌, refl, sym, ap, ◌∙◌, Bool-cases, inl, inr, true, Option, none, some, List, [], ◌∷◌, ◌++◌,
  append-nil, append_assoc, map, Text, find, is_some, keys, ok, subst, Result, arith,
}
use concertpvr.Models.{Db, is_vod_queued}
use concertpvr.Vod.Handler.{cookies_of}
use concertpvr.Vod.Queue.{World, job, stream_by_youtube_id}
use concertpvr.Poller.{Info}
use concertpvr.Poller.Uploads.{
  IsDistinct, IsDistinct-insert, keys_where-insert, queued_rows, enqueue_all_lem,
}
use concertpvr.Backlog.Downloads.{
  Tools, watch_url, stream_of, recording_of, probed, download_one, download_all,
  download_backlog_items, enqueued,
}

module _ (t : Tools) (wid : ℕ) where
  -- New rows are queued, and no video gets a second stream.
  abbrev Adds : Db → List ℕ × Db → Type 0
  Adds db (ids, db') = (queued_rows db' ≡ queued_rows db ++ ids) × IsDistinct db'.streams

  skips : (db : Db) → IsDistinct db.streams → Adds db ([], db)
  skips db h = (sym (append-nil (queued_rows db)), h)

  probed-Adds : (o : Option Info) (db : Db) → IsDistinct db.streams → Adds db (probed t wid o db)
  probed-Adds none db h = skips db h
  probed-Adds (some info) db h =
      elim (Bool-cases (is_some (stream_by_youtube_id info.youtube_id db.streams))) [
        | inl known ↦ rw known (skips db h)
        | inr new ↦ rw new (
          keys_where-insert (λ rec. is_vod_queued rec.status) (t.fresh (keys db.recordings))
              (recording_of t (t.fresh (keys db.streams)) info) db.recordings refl,
          IsDistinct-insert (t.fresh (keys db.streams)) (stream_of wid info) db.streams h new,
        )
      ]

  download_one-Adds :
      (cookies : Option Text) (yid : Text) (db : Db)
      → IsDistinct db.streams
      → Adds db (download_one t wid cookies yid db)
  download_one-Adds cookies yid db h =
      elim (Bool-cases (is_some (stream_by_youtube_id yid db.streams))) [
        | inl known ↦ rw known (skips db h)
        | inr new ↦ rw new (probed-Adds (t.probe (watch_url yid) cookies) db h)
      ]

  download_all-Adds :
      (cookies : Option Text) (yids : List Text) (db : Db)
      → IsDistinct db.streams
      → Adds db (download_all t wid cookies yids db)
  unfolding download_all
  download_all-Adds cookies [] db h = skips db h
  download_all-Adds cookies (yid ∷ yids) db h =
      let x = download_one t wid cookies yid db in
      let (one, distinct) = download_one-Adds cookies yid db h in
      let (more, last) = download_all-Adds cookies yids x.1 distinct in
      (
        more
            ∙ ap (λ ks. ks ++ (download_all t wid cookies yids x.1).0) one
            ∙ append_assoc (queued_rows db) x.0 (download_all t wid cookies yids x.1).0,
        last,
      )

  run :
      (yids : List Text) (v : World)
      → is_some (find wid v.db.watchers) ≡ true
      → download_backlog_items t wid yids v
        ≡ enqueued t (download_all t wid (cookies_of v.db.settings) yids v.db) v
  unfolding download_backlog_items
  run yids v there = ground arith

  -- A request for downloads of a watcher that is there answers with the recordings that it adds as
  -- queued, which it puts at the end of the download queue in the same order; where no video has two
  -- streams, it is so afterwards, whatever the probes answer and however often a video is asked for.
  pub download_backlog_items_lem :
      (yids : List Text) (v : World)
      → is_some (find wid v.db.watchers) ≡ true
      → IsDistinct v.db.streams
      → let (r, v') = download_backlog_items t wid yids v in
        (ids : List ℕ) × (r ≡ ok ids)
        × (queued_rows v'.db ≡ queued_rows v.db ++ ids)
        × (v'.queue.fifo ≡ v.queue.fifo ++ map job ids)
        × IsDistinct v'.db.streams
  download_backlog_items_lem yids v there h =
      let x = download_all t wid (cookies_of v.db.settings) yids v.db in
      let (rows, distinct) = download_all-Adds (cookies_of v.db.settings) yids v.db h in
      let (fifo, db) = enqueue_all_lem x.0 (record v { db = x.1 }) in
      subst
        (λ (r : Result (List ℕ) × World).
          (ids : List ℕ) × (r.0 ≡ ok ids)
          × (queued_rows r.1.db ≡ queued_rows v.db ++ ids)
          × (r.1.queue.fifo ≡ v.queue.fifo ++ map job ids)
          × IsDistinct r.1.db.streams)
        (sym (run yids v there))
        (
          x.0,
          refl,
          ap queued_rows db ∙ rows,
          fifo,
          subst (λ (d : Db). IsDistinct d.streams) (sym db) distinct,
        )
