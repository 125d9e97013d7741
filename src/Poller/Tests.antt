-- ===== src/Poller/Tests.antt =====
-- The theorems about the check for uploads at concrete inputs.
use concertpvr.Prelude.{
  ℕ, ◌≡◌, refl, true, false, none, some, List, [], ◌∷◌, ◌++◌, codes, map, text_eq,
}
use concertpvr.Models.{Date, ChannelWatcher, SegmentationMode}
use concertpvr.Examples.{database}
use concertpvr.Vod.Queue.{World, job, enqueue, stream_by_youtube_id}
use concertpvr.Poller.{
  Upload, Info, Tools, check_for_new_vod_uploads, visit_all, enqueue_all, is_candidate,
  matches_filter, is_known, is_after,
}
use concertpvr.Poller.Uploads.{
  IsDistinct, queued_rows, check_for_new_vod_uploads-IsDistinct, check_for_new_vod_uploads_lem,
}

abbrev day : ℕ → Date
day n = record { year = 2024; month = 5; day = n }

abbrev info : Info
info = record {
  youtube_id = codes "b";
  url = codes "https://www.youtube.com/watch?v=b";
  title = codes "B";
  channel_name = codes "C";
  thumbnail_url = none;
  is_live = false;
  original_upload_date = some (day 9);
  description = none;
  tags = none;
  setlist = none;
}

abbrev tools : Tools
tools = record {
  probe = λ _ _. some info;
  search = λ _ _. some true;
  lower = λ s. s;
  extract_artist = λ _ _. none;
  date_of = λ _. day 5;
  now = 1000;
  staging_root = codes "/staging";
  fresh = λ _. 7;
}

abbrev watcher : ChannelWatcher
watcher = record {
  channel_url = codes "https://www.youtube.com/@c";
  channel_name = codes "C";
  avatar_url = none;
  title_filter = none;
  quality_cap = none;
  retention_days = 7;
  enabled = true;
  last_polled = none;
  last_live_id = none;
  added_at = 500;
  watch_live = false;
  watch_vod_uploads = true;
  vod_segmentation_mode = SegmentationMode.chapters;
  vod_title_filter = none;
  vod_artist_regex = none;
  auto_publish = false;
  extract_setlist_from_comments = false;
  extract_setlist_from_setlistfm = false;
  default_genres = none;
  auto_delete_source_after_publish = none;
}

abbrev upload : ℕ → Upload
upload n = record {
  youtube_id = codes "b";
  url = codes "https://www.youtube.com/watch?v=b";
  title = codes "B";
  is_live = false;
  upload_date = some (day n);
}

abbrev world : World
world = record {
  db = database [];
  queue = record {
    max_concurrent = 1;
    fifo = [];
    running = true;
    workers = 1;
    running_procs = [];
    cancelled_queued = [];
  };
}

-- The second one is the same video again.
check_run :
    (check_for_new_vod_uploads tools 2 watcher
      (some (upload 9 ∷ upload 9 ∷ upload 3 ∷ []))
      world).queue.fifo
    ≡ job 7 ∷ []
unfolding check_for_new_vod_uploads visit_all enqueue_all is_candidate matches_filter is_known
    is_after enqueue stream_by_youtube_id text_eq
check_run = refl

check_for_new_vod_uploads-IsDistinct_example :
    IsDistinct (check_for_new_vod_uploads tools 2 watcher (some (upload 9 ∷ [])) world).db.streams
unfolding stream_by_youtube_id
check_for_new_vod_uploads-IsDistinct_example =
    check_for_new_vod_uploads-IsDistinct tools 2 watcher (some (upload 9 ∷ [])) world (refl, tt)

check_for_new_vod_uploads_example :
    let v = check_for_new_vod_uploads tools 2 watcher (some (upload 9 ∷ [])) world in
    (ids : List ℕ) × (queued_rows v.db ≡ [] ++ ids) × (v.queue.fifo ≡ [] ++ map job ids)
check_for_new_vod_uploads_example =
    check_for_new_vod_uploads_lem tools 2 watcher (some (upload 9 ∷ [])) world
