-- ===== src/Examples.antt =====
-- Rows and tools that the tests share.
use concertpvr.Prelude.{true, false, none, [], ◌∷◌, codes, Table, err, download_error}
use concertpvr.Models.{
  Db, Recording, RecordingStatus, Stream, vod_queued, vod_downloading, complete, video,
}
use concertpvr.Vod.Handler.{Tools}

abbrev pub download_of : RecordingStatus → Recording
download_of status = record {
  stream_id = 1;
  started_at = 1000;
  ended_at = none;
  path = codes "/staging/vod-a.%(ext)s";
  duration_s = 0;
  size_bytes = 0;
  width = none;
  height = none;
  fps = none;
  status = status;
  is_buffer = false;
  error = none;
  raw_chapters_json = none;
  auto_publish_after_download = true;
  source_deleted = false;
}

abbrev pub clip : Stream
clip = record {
  kind = video;
  youtube_id = codes "a";
  url = codes "https://www.youtube.com/watch?v=a";
  title = codes "A";
  channel_name = codes "C";
  thumbnail_url = none;
  original_upload_date = none;
  description = none;
  youtube_tags = none;
  detected_setlist_text = none;
  detected_setlist_source = none;
  watcher_id = none;
}

abbrev pub database : Table Recording → Db
database recs = record {
  settings = none;
  streams = (1, clip) ∷ [];
  subscriptions = [];
  recordings = recs;
  schedules = [];
  segments = [];
  setlists = [];
  watchers = [];
}

-- Every download fails.
abbrev pub tools : Tools
tools = record {
  download = λ _. err download_error;
  glob = λ p. (codes "/staging/vod-a.mkv", true) ∷ [];
  probe = λ _. none;
  size = λ _. none;
  now = 2000;
  describe = λ _. codes "ERROR: unavailable";
  loads = λ _. none;
  fresh = λ _. 1;
}

abbrev pub crashed : Db
crashed = database (
    (4, download_of vod_downloading) ∷ (5, download_of complete) ∷ (6, download_of vod_queued) ∷ [])
