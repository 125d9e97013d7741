-- ===== src/Backlog/Api.antt =====
-- src/concertpvr/api/channel_watchers.py: the watchers, and the refresh of their backlogs. What a
-- refresh runs in the background is the value that `task` answers, for the event loop to run later.
use concertpvr.Prelude.{
  changed, changed_null, ℕ, Bool, true, false, not, ◌||◌, Option, none, some, List, [], ◌∷◌, Text,
  Table, find, insert, update, erase, is_some, text_eq, Exn, http, integrity_error, Result, Action,
  pure, lift, gets, modify, raise_if, or_raise, session, ◌>>=◌, ◌>>◌, if◌then◌else◌,
}
use concertpvr.Models.{Db, ChannelWatcher, SegmentationMode, chapters}
use concertpvr.Backlog.Cache.{
  Cache, CacheStatus, never_fetched, fetching, is_fetching, is_stale, Backlog, Tools,
  request_cancel, fetch_full_channel, fetch_full_channel_with_views,
}

pub record ChannelWatcherCreate : Type 0 where
  pub channel_url : Text
  pub title_filter : Option Text
  pub quality_cap : Option Text
  pub retention_days : ℕ
  pub watch_live : Option Bool
  pub watch_vod_uploads : Option Bool
  pub auto_publish : Option Bool

-- `ChannelInfo` of ytdlp_channels.py.
pub record ChannelInfo : Type 0 where
  pub channel_name : Text
  pub canonical_url : Text
  pub avatar_url : Option Text

-- `exclude_unset`: a field is absent, or present with a value that may be null.
pub record ChannelWatcherPatch : Type 0 where
  pub title_filter : Option (Option Text)
  pub quality_cap : Option (Option Text)
  pub retention_days : Option (Option ℕ)
  pub enabled : Option (Option Bool)
  pub watch_live : Option (Option Bool)
  pub watch_vod_uploads : Option (Option Bool)
  pub vod_segmentation_mode : Option (Option SegmentationMode)
  pub vod_title_filter : Option (Option Text)
  pub vod_artist_regex : Option (Option Text)
  pub auto_publish : Option (Option Bool)
  pub extract_setlist_from_comments : Option (Option Bool)
  pub extract_setlist_from_setlistfm : Option (Option Bool)
  pub default_genres : Option (Option Text)
  pub auto_delete_source_after_publish : Option (Option Bool)

abbrev pub or_default : {A : Type 0} → A → Option A → A
or_default d none = d
or_default d (some a) = a

abbrev pub row_of : ℕ → ChannelWatcherCreate → ChannelInfo → ChannelWatcher
row_of now p info = record {
  channel_url = info.canonical_url;
  channel_name = info.channel_name;
  avatar_url = info.avatar_url;
  title_filter = p.title_filter;
  quality_cap = p.quality_cap;
  retention_days = p.retention_days;
  enabled = true;
  last_polled = none;
  last_live_id = none;
  added_at = now;
  watch_live = or_default true p.watch_live;
  watch_vod_uploads = or_default false p.watch_vod_uploads;
  vod_segmentation_mode = chapters;
  vod_title_filter = none;
  vod_artist_regex = none;
  auto_publish = or_default false p.auto_publish;
  extract_setlist_from_comments = false;
  extract_setlist_from_setlistfm = false;
  default_genres = none;
  auto_delete_source_after_publish = none;
}

abbrev pub has_url : Text → Table ChannelWatcher → Bool
has_url url [] = false
has_url url ((_, w) ∷ t) = text_eq w.channel_url url || has_url url t

abbrev pub no_watcher : Exn
no_watcher = http 404 "watcher not found"

-- `info` is what `probe_channel` answers, or the error 400 that the handler makes of its exception.
unfoldable pub create_watcher :
    ℕ → ℕ → ChannelWatcherCreate → Result ChannelInfo → Action Db ChannelWatcher
create_watcher now new_id p probed = do
  info ← lift probed
  session do
    raise_if (has_url info.canonical_url (← gets (λ db. db.watchers)))
        (http 409 "watcher already exists")
    modify (λ db. record db { watchers = insert new_id (row_of now p info) db.watchers })
    pure (row_of now p info)

unfoldable pub get_watcher : ℕ → Action Db ChannelWatcher
get_watcher id = session do or_raise no_watcher (find id (← gets (λ db. db.watchers)))

-- The row with the fields of the patch.
abbrev pub apply_patch : ChannelWatcherPatch → ChannelWatcher → Action Db ChannelWatcher
apply_patch p w = do
  retention_days ← or_raise integrity_error (changed p.retention_days w.retention_days)
  enabled ← or_raise integrity_error (changed p.enabled w.enabled)
  watch_live ← or_raise integrity_error (changed p.watch_live w.watch_live)
  watch_vod_uploads ← or_raise integrity_error (changed p.watch_vod_uploads w.watch_vod_uploads)
  mode ← or_raise integrity_error (changed p.vod_segmentation_mode w.vod_segmentation_mode)
  auto_publish ← or_raise integrity_error (changed p.auto_publish w.auto_publish)
  comments ←
      or_raise integrity_error
        (changed p.extract_setlist_from_comments w.extract_setlist_from_comments)
  setlistfm ←
      or_raise integrity_error
        (changed p.extract_setlist_from_setlistfm w.extract_setlist_from_setlistfm)
  pure (record w {
    title_filter = changed_null p.title_filter w.title_filter;
    quality_cap = changed_null p.quality_cap w.quality_cap;
    retention_days = retention_days;
    enabled = enabled;
    watch_live = watch_live;
    watch_vod_uploads = watch_vod_uploads;
    vod_segmentation_mode = mode;
    vod_title_filter = changed_null p.vod_title_filter w.vod_title_filter;
    vod_artist_regex = changed_null p.vod_artist_regex w.vod_artist_regex;
    auto_publish = auto_publish;
    extract_setlist_from_comments = comments;
    extract_setlist_from_setlistfm = setlistfm;
    default_genres = changed_null p.default_genres w.default_genres;
    auto_delete_source_after_publish =
        changed_null p.auto_delete_source_after_publish w.auto_delete_source_after_publish;
  })

unfoldable pub patch_watcher : ℕ → ChannelWatcherPatch → Action Db ChannelWatcher
patch_watcher id p = session do
  w ← or_raise no_watcher (find id (← gets (λ db. db.watchers)))
  w' ← apply_patch p w
  modify (λ db. record db { watchers = update id (λ _. w') db.watchers })
  pure w'

unfoldable pub delete_watcher : ℕ → Action Db (Unit {0})
delete_watcher id = session do
  raise_if (not (is_some (find id (← gets (λ db. db.watchers))))) no_watcher
  modify (λ db. record db { watchers = erase id db.watchers })

-- The answer of `refresh_watcher_backlog`, and the refresh that it starts, with or without counts.
pub record Refresh : Type 0 where
  pub status : CacheStatus
  pub started : Bool
  pub task : Option Bool

abbrev pub is_in_flight : Option Cache → Bool
is_in_flight none = false
is_in_flight (some c) = is_fetching c.status

abbrev pub check_watcher : ℕ → Action Backlog (Unit {0})
check_watcher wid b = raise_if (not (is_some (find wid b.db.watchers))) no_watcher b

unfoldable pub refresh_watcher_backlog : ℕ → Bool → Action Backlog Refresh
refresh_watcher_backlog wid probe_views = do
  check_watcher wid
  cache ← gets (λ b. find wid b.caches)
  pure (
      if is_in_flight cache
      then record { status = fetching; started = false; task = none }
      else record { status = fetching; started = true; task = some probe_views })

-- `_bg`: what a started refresh does to the state; its errors are logged.
unfoldable pub run_task : Tools → (List Text → Backlog → Backlog) → ℕ → Bool → Backlog → Backlog
unfolding fetch_full_channel_with_views fetch_full_channel
run_task t away wid true b = (fetch_full_channel_with_views t away wid b).1
run_task t away wid false b = (fetch_full_channel t away wid b).1

unfoldable pub cancel_watcher_backlog_refresh : ℕ → Action Backlog (Unit {0})
unfolding request_cancel
cancel_watcher_backlog_refresh wid = do check_watcher wid; modify (request_cancel wid)

-- The answer of `get_watcher_backlog_status`.
pub record Status : Type 0 where
  pub status : CacheStatus
  pub fetched_at : Option ℕ
  pub total_count : ℕ
  pub progress_pct : ℕ
  pub error : Option Text
  pub stale : Bool

abbrev pub status_of : ℕ → Option Cache → Status
status_of now none = record {
  status = never_fetched;
  fetched_at = none;
  total_count = 0;
  progress_pct = 0;
  error = none;
  stale = true;
}
status_of now (some c) = record {
  status = c.status;
  fetched_at = c.fetched_at;
  total_count = c.total_count;
  progress_pct = c.progress_pct;
  error = c.error;
  stale = is_stale now (some c);
}

unfoldable pub get_watcher_backlog_status : ℕ → ℕ → Action Backlog Status
unfolding is_stale
get_watcher_backlog_status now wid = do
  check_watcher wid
  gets (λ b. status_of now (find wid b.caches))
