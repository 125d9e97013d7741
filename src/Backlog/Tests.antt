-- ===== src/Backlog/Tests.antt =====
-- The theorems about the backlog at concrete inputs.
use concertpvr.Prelude.{
  ℕ, ◌≡◌, refl, true, false, none, some, List, [], ◌∷◌, ◌++◌, map, Text, codes, length, ok,
}
use concertpvr.Models.{Db, ChannelWatcher, SegmentationMode, vod_queued}
use concertpvr.Examples.{database, download_of}
use concertpvr.Vod.Handler.{cookies_of}
use concertpvr.Vod.Queue.{World, job, create, enqueue, stream_by_youtube_id}
use concertpvr.Poller.{Info}
use concertpvr.Poller.Uploads.{IsDistinct, queued_rows}
use concertpvr.Backlog.Cache.{BroadcastInfo, Backlog, Tools, item_of, fetch_full_channel_with_views}
use concertpvr.Backlog.Merge.{fill}
use concertpvr.Backlog.Views.{IsListed}
use concertpvr.Backlog.Resume.{refresh_all, refresh_all-IsListed}
use concertpvr.Backlog.Downloads.{
  download_backlog_items, download_all, cancel_backlog_downloads, drop_all, named_streams,
  queued_of,
}
use concertpvr.Backlog.Queued.{download_backlog_items_lem}
use concertpvr.Backlog.Dropped.{cancel_backlog_downloads-queue}

abbrev watcher : ChannelWatcher
watcher = record {
  channel_url = codes "https://www.youtube.com/@c";
  channel_name = codes "C";
  avatar_url = none;
  title_filter = none;
  quality_cap = none;
  retention_days = 7;
  enabled = true;
  last_polled = none;
  last_live_id = none;
  added_at = 500;
  watch_live = false;
  watch_vod_uploads = true;
  vod_segmentation_mode = SegmentationMode.chapters;
  vod_title_filter = none;
  vod_artist_regex = none;
  auto_publish = true;
  extract_setlist_from_comments = false;
  extract_setlist_from_setlistfm = false;
  default_genres = none;
  auto_delete_source_after_publish = none;
}

abbrev watched : Db
watched = record (database []) { watchers = (4, watcher) ∷ [] }

abbrev upload : Text → BroadcastInfo
upload yid = record {
  youtube_id = yid;
  title = codes "T";
  url = codes "https://www.youtube.com/watch?v=" ++ yid;
  thumbnail_url = none;
  duration_s = none;
  upload_date = none;
}

abbrev uploads : List BroadcastInfo
uploads = upload (codes "a") ∷ upload (codes "b") ∷ []

abbrev tools : Tools
tools = record {
  list_all_uploads = λ _ _. ok uploads;
  extract = λ yid _. some (some (length yid), none);
  describe = λ _. codes "ERROR";
  percent = λ _ _. 50;
  now = 2000;
}

abbrev empty : Backlog
empty = record { db = watched; caches = []; cancel_requests = [] }

-- A cancel comes while the list is awaited.
abbrev interrupted : List Text → Backlog → Backlog
interrupted ids b = record b { cancel_requests = 4 ∷ [] }

refresh_all-IsListed_example :
    IsListed tools 4
      (map (fill tools (cookies_of empty.db.settings)) (map item_of uploads))
      (fetch_full_channel_with_views tools
        (λ _ b. b)
        4
        (refresh_all tools 4 (interrupted ∷ []) empty)).1
unfolding refresh_all fetch_full_channel_with_views
refresh_all-IsListed_example =
    refresh_all-IsListed tools 4 watcher uploads (interrupted ∷ []) (λ _ b. b) empty refl refl refl
      ((λ _ _. (refl, refl)), tt) (λ _ _. refl) refl

abbrev info : Info
info = record {
  youtube_id = codes "b";
  url = codes "https://www.youtube.com/watch?v=b";
  title = codes "B";
  channel_name = codes "C";
  thumbnail_url = none;
  is_live = false;
  original_upload_date = none;
  description = none;
  tags = none;
  setlist = none;
}

abbrev prober : concertpvr.Backlog.Downloads.Tools
prober = record {
  probe = λ _ _. some info;
  now = 1000;
  staging_dir = codes "/staging";
  fresh = λ _. 7;
}

abbrev idle : World
idle = record { db = watched; queue = create 1 }

download_backlog_items_example :
    let (r, v) = download_backlog_items prober 4 (codes "a" ∷ codes "b" ∷ codes "b" ∷ []) idle in
    (ids : List ℕ) × (r ≡ ok ids)
    × (queued_rows v.db ≡ queued_rows idle.db ++ ids)
    × (v.queue.fifo ≡ idle.queue.fifo ++ map job ids)
    × IsDistinct v.db.streams
unfolding stream_by_youtube_id
download_backlog_items_example =
    download_backlog_items_lem prober 4 (codes "a" ∷ codes "b" ∷ codes "b" ∷ []) idle refl
      (refl, tt)

abbrev waiting : World
waiting = record {
  db = record (database ((5, download_of vod_queued) ∷ [])) { watchers = (4, watcher) ∷ [] };
  queue = enqueue 5 (create 1);
}

cancel_backlog_downloads_example :
    let ids = queued_of (named_streams (codes "a" ∷ []) waiting.db.streams) waiting.db.recordings in
    cancel_backlog_downloads 4 (codes "a" ∷ []) waiting
    ≡ (ok (drop_all ids waiting.db).0, record waiting { db = (drop_all ids waiting.db).1 })
unfolding stream_by_youtube_id
cancel_backlog_downloads_example =
    cancel_backlog_downloads-queue 4 (codes "a" ∷ []) waiting (refl, tt) refl
