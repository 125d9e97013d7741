-- ===== src/Backlog/Downloads.antt =====
-- `download_backlog_items` and `cancel_backlog_downloads` of src/concertpvr/api/channel_watchers.py,
-- over the world of the download queue.
use concertpvr.Prelude.{
  ℕ, Bool, false, not, ◌&&◌, ◌||◌, Option, none, some, List, [], ◌∷◌, ◌++◌, Text, Table, codes,
  find, insert, erase, keys, keys_where, is_some, any, text_eq, contains, Exn, http, ok, Action,
  gets, raise_if, ◌>>=◌, ◌>>◌, ◌==◌, if◌then◌else◌,
}
use concertpvr.Models.{Db, Stream, video, Recording, is_vod_queued, vod_queued, WatchSubscription}
use concertpvr.Vod.Handler.{cookies_of}
use concertpvr.Vod.Queue.{World, stream_by_youtube_id, cancel_by_youtube_id}
use concertpvr.Poller.{Info, enqueue_all}

pub record Tools : Type 0 where
  -- `probe` with the cookies of the settings, or nothing where it raises.
  pub probe : Text → Option Text → Option Info
  pub now : ℕ
  pub staging_dir : Text
  -- The keys of new rows.
  pub fresh : List ℕ → ℕ

abbrev pub no_watcher : Exn
no_watcher = http 404 "watcher not found"

abbrev pub check_watcher : ℕ → Action World (Unit {0})
check_watcher wid w = raise_if (not (is_some (find wid w.db.watchers))) no_watcher w

abbrev pub watch_url : Text → Text
watch_url yid = codes "https://www.youtube.com/watch?v=" ++ yid

abbrev pub stream_of : ℕ → Info → Stream
stream_of wid info = record {
  kind = video;
  youtube_id = info.youtube_id;
  url = info.url;
  title = info.title;
  channel_name = info.channel_name;
  thumbnail_url = info.thumbnail_url;
  original_upload_date = info.original_upload_date;
  description = info.description;
  youtube_tags = info.tags;
  detected_setlist_text = none;
  detected_setlist_source = none;
  watcher_id = some wid;
}

module _ (t : Tools) where
  abbrev pub recording_of : ℕ → Info → Recording
  recording_of stream_id info = record {
    stream_id = stream_id;
    started_at = t.now;
    ended_at = none;
    path = t.staging_dir ++ codes "/vod-" ++ info.youtube_id ++ codes ".%(ext)s";
    duration_s = 0;
    size_bytes = 0;
    width = none;
    height = none;
    fps = none;
    status = vod_queued;
    is_buffer = false;
    error = none;
    raw_chapters_json = none;
    auto_publish_after_download = false;
    source_deleted = false;
  }

  abbrev pub add_rows : ℕ → Info → Db → ℕ × Db
  add_rows wid info db =
      let stream_id = t.fresh (keys db.streams) in
      let rec_id = t.fresh (keys db.recordings) in
      (
        rec_id,
        record db {
          streams = insert stream_id (stream_of wid info) db.streams;
          recordings = insert rec_id (recording_of stream_id info) db.recordings;
        },
      )

  -- The second look for the stream, after the probe.
  abbrev pub probed : ℕ → Option Info → Db → List ℕ × Db
  probed wid none db = ([], db)
  probed wid (some info) db =
      if is_some (stream_by_youtube_id info.youtube_id db.streams)
      then ([], db)
      else let (rec_id, db') = add_rows wid info db in (rec_id ∷ [], db')

  abbrev pub download_one : ℕ → Option Text → Text → Db → List ℕ × Db
  download_one wid cookies yid db =
      if is_some (stream_by_youtube_id yid db.streams)
      then ([], db)
      else probed wid (t.probe (watch_url yid) cookies) db

  -- The loop over the videos: the new recordings in order, and the database.
  unfoldable pub download_all : ℕ → Option Text → List Text → Db → List ℕ × Db
  download_all wid cookies [] db = ([], db)
  download_all wid cookies (yid ∷ yids) db =
      let (ids, db1) = download_one wid cookies yid db in
      let (rest, db2) = download_all wid cookies yids db1 in (ids ++ rest, db2)

  abbrev pub enqueued : List ℕ × Db → Action World (List ℕ)
  enqueued (ids, db) w = (ok ids, enqueue_all ids (record w { db = db }))

  unfoldable pub download_backlog_items : ℕ → List Text → Action World (List ℕ)
  unfolding download_all
  download_backlog_items wid yids = do
    check_watcher wid
    w ← gets (λ w. w)
    enqueued (download_all wid (cookies_of w.db.settings) yids w.db)

-- `Stream.youtube_id.in_(video_ids)`
abbrev pub is_named : List Text → Stream → Bool
is_named yids st = any (text_eq st.youtube_id) yids

abbrev pub named_streams : List Text → Table Stream → List ℕ
named_streams yids t = keys_where (is_named yids) t

-- The queued recordings of the streams.
abbrev pub queued_of : List ℕ → Table Recording → List ℕ
queued_of sids t = keys_where (λ rec. contains rec.stream_id sids && is_vod_queued rec.status) t

abbrev pub unsubscribe : ℕ → Table WatchSubscription → Table WatchSubscription
unsubscribe sid [] = []
unsubscribe sid ((k, s) ∷ t) =
    if s.stream_id == sid then unsubscribe sid t else (k, s) ∷ unsubscribe sid t

-- `s.delete(st)`, which also deletes the subscription.
abbrev pub delete_stream : ℕ → Db → Db
delete_stream sid db = record db {
  streams = erase sid db.streams;
  subscriptions = unsubscribe sid db.subscriptions;
}

abbrev pub is_used : ℕ → Table Recording → Bool
is_used sid [] = false
is_used sid ((_, rec) ∷ t) = rec.stream_id == sid || is_used sid t

abbrev pub drop_stream : ℕ → Option Stream → Db → List Text × Db
drop_stream sid none db = ([], db)
drop_stream sid (some st) db = (st.youtube_id ∷ [], delete_stream sid db)

abbrev pub drop_recording : ℕ → Option Recording → Db → List Text × Db
drop_recording id none db = ([], db)
drop_recording id (some rec) db =
    let db1 = record db { recordings = erase id db.recordings } in
    if is_used rec.stream_id db1.recordings
    then ([], db1)
    else drop_stream rec.stream_id (find rec.stream_id db.streams) db1

-- The loop over the recordings: the videos whose streams are deleted, and the database.
unfoldable pub drop_all : List ℕ → Db → List Text × Db
drop_all [] db = ([], db)
drop_all (id ∷ ids) db =
    let (yids, db1) = drop_recording id (find id db.recordings) db in
    let (rest, db2) = drop_all ids db1 in (yids ++ rest, db2)

unfoldable pub cancel_all : List Text → World → World
unfolding cancel_by_youtube_id
cancel_all [] w = w
cancel_all (yid ∷ yids) w = cancel_all yids (cancel_by_youtube_id yid w)

abbrev pub dropped : List Text × Db → Action World (List Text)
dropped (yids, db) w = (ok yids, cancel_all yids (record w { db = db }))

unfoldable pub cancel_backlog_downloads : ℕ → List Text → Action World (List Text)
unfolding drop_all cancel_all
cancel_backlog_downloads wid yids = do
  check_watcher wid
  w ← gets (λ w. w)
  let ids = queued_of (named_streams yids w.db.streams) w.db.recordings
  dropped (drop_all ids w.db)
