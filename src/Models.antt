-- ===== src/Models.antt =====
-- The rows of src/concertpvr/models.py and of the enumerations that its `String` columns hold, and
-- the database as the tables of these rows. Times are seconds since the epoch.
use concertpvr.Prelude.{ℕ, ℤ, Bool, true, false, Option, List, Text, Table}

-- A `datetime.date`.
pub record Date : Type 0 where
  pub year : ℕ
  pub month : ℕ
  pub day : ℕ

pub record Settings : Type 0 where
  pub emby_url : Option Text
  pub emby_api_key : Option Text
  pub emby_library_path : Option Text
  pub emby_path_local_prefix : Option Text
  pub emby_path_emby_prefix : Option Text
  pub folder_pattern : Text
  pub default_quality : Text
  pub default_retention_days : ℕ
  pub max_concurrent_recordings : ℕ
  pub auto_prune_when_full : Bool
  pub yt_dlp_cookies_path : Option Text
  pub password_hash : Option Text
  pub session_secret : Option Text
  pub max_concurrent_vod_downloads : ℕ
  pub auto_delete_source_after_publish : Bool
  pub setlistfm_api_key : Option Text

pub data StreamKind : Type 0 where
  channel video live : StreamKind

-- `stream.kind == "video"`
abbrev pub is_video : StreamKind → Bool
is_video StreamKind.video = true
is_video _ = false

-- `stream.kind == "live"`
abbrev pub is_live_kind : StreamKind → Bool
is_live_kind StreamKind.live = true
is_live_kind _ = false

pub data SetlistSource : Type 0 where
  chapters description comments setlistfm : SetlistSource

pub record Stream : Type 0 where
  pub kind : StreamKind
  pub youtube_id : Text
  pub url : Text
  pub title : Text
  pub channel_name : Text
  pub thumbnail_url : Option Text
  pub original_upload_date : Option Date
  pub description : Option Text
  pub youtube_tags : Option (List Text)
  pub detected_setlist_text : Option Text
  pub detected_setlist_source : Option SetlistSource
  pub watcher_id : Option ℕ

pub record WatchSubscription : Type 0 where
  pub stream_id : ℕ
  pub enabled : Bool
  pub title_filter : Option Text
  pub quality_cap : Option Text
  pub retention_days : ℕ

pub data RecordingStatus : Type 0 where
  recording complete failed interrupted : RecordingStatus
  vod_queued vod_downloading vod_failed vod_cancelled : RecordingStatus

abbrev pub is_recording_status : RecordingStatus → Bool
is_recording_status RecordingStatus.recording = true
is_recording_status _ = false

abbrev pub is_complete : RecordingStatus → Bool
is_complete RecordingStatus.complete = true
is_complete _ = false

abbrev pub is_vod_queued : RecordingStatus → Bool
is_vod_queued RecordingStatus.vod_queued = true
is_vod_queued _ = false

abbrev pub is_vod_downloading : RecordingStatus → Bool
is_vod_downloading RecordingStatus.vod_downloading = true
is_vod_downloading _ = false

abbrev pub is_vod_failed : RecordingStatus → Bool
is_vod_failed RecordingStatus.vod_failed = true
is_vod_failed _ = false

pub record Recording : Type 0 where
  pub stream_id : ℕ
  pub started_at : ℕ
  pub ended_at : Option ℕ
  pub path : Text
  pub duration_s : ℕ
  pub size_bytes : ℕ
  pub width : Option ℕ
  pub height : Option ℕ
  pub fps : Option ℕ
  pub status : RecordingStatus
  pub is_buffer : Bool
  pub error : Option Text
  pub raw_chapters_json : Option Text
  pub auto_publish_after_download : Bool
  pub source_deleted : Bool

pub data ScheduleStatus : Type 0 where
  pending running complete failed cancelled : ScheduleStatus

abbrev pub is_pending : ScheduleStatus → Bool
is_pending ScheduleStatus.pending = true
is_pending _ = false

abbrev pub is_cancelled : ScheduleStatus → Bool
is_cancelled ScheduleStatus.cancelled = true
is_cancelled _ = false

pub record Schedule : Type 0 where
  pub stream_id : ℕ
  pub starts_at : ℕ
  pub ends_at : ℕ
  pub artist : Option Text
  pub status : ScheduleStatus
  pub error : Option Text
  pub recording_id : Option ℕ

pub data SegmentSource : Type 0 where
  chapter setlist manual : SegmentSource

pub data SegmentStatus : Type 0 where
  draft publishing published publish_failed : SegmentStatus

abbrev pub is_published : SegmentStatus → Bool
is_published SegmentStatus.published = true
is_published _ = false

pub record Segment : Type 0 where
  pub recording_id : ℕ
  pub artist : Text
  pub title : Option Text
  pub start_s : ℤ
  pub end_s : ℤ
  pub source : SegmentSource
  pub status : SegmentStatus
  pub error : Option Text
  pub emby_path : Option Text
  pub poster_path : Option Text
  pub nfo_path : Option Text
  pub genres : Option Text

pub record Setlist : Type 0 where
  pub recording_id : ℕ
  pub artist : Text
  pub start_s : ℤ
  pub end_s : ℤ

pub data SegmentationMode : Type 0 where
  chapters whole_video manual : SegmentationMode

pub record ChannelWatcher : Type 0 where
  pub channel_url : Text
  pub channel_name : Text
  pub avatar_url : Option Text
  pub title_filter : Option Text
  pub quality_cap : Option Text
  pub retention_days : ℕ
  pub enabled : Bool
  pub last_polled : Option ℕ
  pub last_live_id : Option Text
  pub added_at : ℕ
  pub watch_live : Bool
  pub watch_vod_uploads : Bool
  pub vod_segmentation_mode : SegmentationMode
  pub vod_title_filter : Option Text
  pub vod_artist_regex : Option Text
  pub auto_publish : Bool
  pub extract_setlist_from_comments : Bool
  pub extract_setlist_from_setlistfm : Bool
  pub default_genres : Option Text
  pub auto_delete_source_after_publish : Option Bool

-- The tables that the modelled components read and write.
pub record Db : Type 0 where
  pub settings : Option Settings
  pub streams : Table Stream
  pub subscriptions : Table WatchSubscription
  pub recordings : Table Recording
  pub schedules : Table Schedule
  pub segments : Table Segment
  pub setlists : Table Setlist
  pub watchers : Table ChannelWatcher
