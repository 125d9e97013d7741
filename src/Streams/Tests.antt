-- ===== src/Streams/Tests.antt =====
-- The theorem about patched subscriptions at a concrete input, and a capture that is queued.
use concertpvr.Prelude.{
  ℕ, ◌≡◌, refl, true, none, some, Text, codes, [], ok, false, inr, length, text_eq,
}
use concertpvr.Models.{Stream, WatchSubscription}
use concertpvr.Examples.{database, clip}
use concertpvr.Pool.{create, start, is_recording}
use concertpvr.Pool.Bounds.{create-IsPool}
use concertpvr.Pool.Starter.{Live, start_buffer_recording}
use concertpvr.Streams.Api.{Patch, subscription_of, subscribed, subscribe, follow, patch_watch}
use concertpvr.Vod.Queue
use concertpvr.Vod.Queue.{stream_by_youtube_id, World, job}
use concertpvr.Poller.Uploads.{IsDistinct}
use concertpvr.Streams.Create.{
  Info, Tools, add_rows, added, create_from, create_stream, stream_of, setlist_of, from_video,
  from_comments, from_setlistfm, watcher_of,
}
use concertpvr.Setlists.Detector.{detect_in_chapters, detect_in_description}
use concertpvr.Streams.Added.{Adds, create_stream-Adds}
use concertpvr.Streams.Watch.{patch_watch-Ended}

abbrev folder : ℕ → Text
folder _ = codes "/buffer/1"

abbrev idle : Live
idle = record { db = database []; pool = create 1 }

abbrev two_days : Patch
two_days = record {
  enabled = none;
  title_filter = none;
  quality_cap = none;
  retention_days = some (some 2);
}

abbrev watched : WatchSubscription
watched = record {
  stream_id = 1;
  enabled = true;
  title_filter = none;
  quality_cap = none;
  retention_days = 2;
}

-- A null for a column that refuses it passes on a new row, where the default stands.
abbrev no_days : Patch
no_days = record two_days { retention_days = some none }

no_days_run :
    (patch_watch folder 5 9 1000 1 no_days idle).0 ≡ ok (record watched { retention_days = 7 })
unfolding patch_watch follow subscribe subscribed subscription_of start_buffer_recording start
    create is_recording
no_days_run = refl

patch_watch-Ended_example :
    let (r, w') = patch_watch folder 5 9 1000 1 two_days idle in
    (is_recording 1 w'.pool ≡ true) × (subscription_of 1 w'.db.subscriptions ≡ some watched)
unfolding patch_watch follow subscribe subscribed subscription_of start_buffer_recording start
    create is_recording
patch_watch-Ended_example =
    patch_watch-Ended 1 folder 9 1000 1 5 two_days idle (create-IsPool 1) refl

abbrev concert : Info
concert = record {
  youtube_id = codes "b";
  url = codes "https://www.youtube.com/watch?v=b";
  title = codes "B";
  channel_name = codes "C";
  is_live = false;
  thumbnail_url = none;
  original_upload_date = none;
  description = none;
  tags = none;
  chapters = none;
}

abbrev outside : Tools
outside = record {
  probe = λ _ _. inr concert;
  comments = λ _ _. none;
  lookup_setlist = λ _ _ _. none;
  now = 1000;
  staging_dir = codes "/staging";
  fresh = length;
}

abbrev empty : World
empty = record { db = database []; queue = Queue.create 1 }

abbrev added_row : Stream
added_row = record clip {
  youtube_id = concert.youtube_id;
  url = concert.url;
  title = concert.title;
}

create_stream_run : (create_stream outside concert.url empty).0 ≡ ok added_row
unfolding create_stream create_from added add_rows text_eq stream_of setlist_of from_video
    from_comments from_setlistfm watcher_of detect_in_chapters detect_in_description
create_stream_run = refl

create_stream-Adds_example :
    let (r, w') = create_stream outside concert.url empty in
    IsDistinct w'.db.streams × Adds empty r w'
unfolding stream_by_youtube_id
create_stream-Adds_example = create_stream-Adds outside concert.url empty (refl, tt)
