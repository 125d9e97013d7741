-- ===== src/Publish/Tests.antt =====
-- The theorems about publishing at concrete inputs.
use concertpvr.Prelude.{
  ℕ, ◌≡◌, refl, true, false, none, some, [], ◌∷◌, codes, pos, find, All, ok, err, lookup_error,
  os_error, arith, split_on, strip,
}
use concertpvr.Models.{Db, Date, Recording, Segment, draft, manual, complete}
use concertpvr.Vod.Queue.{worker_loop}
use concertpvr.Vod.Queue.Contract.{IsSettled, status_at}
use concertpvr.Vod.Handler.{vod_handler}
use concertpvr.Vod.Recovery.{startup}
use concertpvr.Examples.{download_of, database, tools, crashed}
use concertpvr.Publish.Metadata.{squeeze, words, join_words, split_genres}
use concertpvr.Publish.Worker.{
  Tools, publish, all_published, open_source, produce, complete_segment, delete_source_when_done,
  delete_flag,
}
use concertpvr.Publish.Outcome.{publish_missing, publish-status, segment_status, final_status}
use concertpvr.Publish.Source.{publish-source_deleted}
use concertpvr.Publish.Publisher.{publish_in, restart_drains, plain}

abbrev epoch : Date
epoch = record { year = 2024; month = 5; day = 1 }

abbrev media : Tools
media = record {
  date_of = λ _. epoch;
  format = λ f. ok (f.artist);
  publish_root = codes "/library";
  make_dir = λ _. ok tt;
  cut = λ _ _ _ _. ok tt;
  thumbnail = λ _ _ _ _. ok tt;
  metadata = λ _ _. ok tt;
  trigger_scan = λ _. ok tt;
  remove = λ _. ok tt;
  describe = λ _. codes "OSError: no space";
}

-- The disk is full.
abbrev full : Tools
full = record media { cut = λ _ _ _ _. err os_error }

abbrev set_of : ℕ → Segment
set_of rid = record {
  recording_id = rid;
  artist = codes "A";
  title = none;
  start_s = pos 10;
  end_s = pos 20;
  source = manual;
  status = draft;
  error = none;
  emby_path = none;
  poster_path = none;
  nfo_path = none;
  genres = none;
}

squeeze_run : squeeze (codes "A   B ") ≡ codes "A B"
unfolding squeeze words join_words
squeeze_run = refl

split_genres_run : split_genres (codes "Rock, ,Jazz ") ≡ codes "Rock" ∷ codes "Jazz" ∷ []
unfolding split_genres split_on strip
split_genres_run = refl

abbrev ready : Db
ready = record (database ((4, download_of complete) ∷ [])) {
  segments = (2, set_of 4) ∷ [];
  settings = some (record {
    emby_url = none;
    emby_api_key = none;
    emby_library_path = none;
    emby_path_local_prefix = none;
    emby_path_emby_prefix = none;
    folder_pattern = codes "{artist}";
    default_quality = codes "best";
    default_retention_days = 7;
    max_concurrent_recordings = 2;
    auto_prune_when_full = false;
    yt_dlp_cookies_path = none;
    password_hash = none;
    session_secret = none;
    max_concurrent_vod_downloads = 2;
    auto_delete_source_after_publish = true;
    setlistfm_api_key = none;
  });
}

-- Its recording is gone.
abbrev orphaned : Db
orphaned = record ready { segments = (2, set_of 9) ∷ [] }

publish_missing_example : publish media 2 plain orphaned ≡ (err lookup_error, orphaned)
publish_missing_example = publish_missing media 2 plain orphaned (set_of 9) refl refl

publish-status_example :
    segment_status (find 2 (publish full 2 plain ready).1.segments)
    ≡ some (final_status (publish full 2 plain ready).0)
publish-status_example =
    publish-status full 2 plain ready (set_of 4) (download_of complete) refl refl

abbrev removed : Recording
removed = record (download_of complete) { source_deleted = true }

publish-source_deleted_example :
    (all_published 4 (publish media 2 plain ready).1.segments ≡ true)
    × (media.remove (download_of complete).path ≡ ok tt)
unfolding publish open_source produce complete_segment delete_source_when_done delete_flag
    all_published
publish-source_deleted_example =
    publish-source_deleted media 2 plain ready (set_of 4) (download_of complete) removed refl refl
      refl refl refl

restart_drains_example :
    let w =
      worker_loop tools.describe (vod_handler tools (publish_in media)) 2 (startup 3000 crashed) in
    (w.queue.fifo ≡ []) × All (λ id. IsSettled (status_at id w)) (4 ∷ 6 ∷ [])
restart_drains_example = restart_drains tools media 3000 crashed 2 (omega arith)
