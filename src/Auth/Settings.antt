-- ===== src/Auth/Settings.antt =====
-- src/concertpvr/api/settings.py: reading and patching the settings, and the Emby client made anew.
use concertpvr.Prelude.{
  changed, changed_null, ℕ, Bool, Option, some, Text, integrity_error, Action, pure, gets, modify,
  or_raise, session, ◌>>=◌, ◌>>◌,
}
use concertpvr.Models.{Db, Settings}
use concertpvr.Auth.Session.{or_new}
use concertpvr.Auth.Emby.{EmbyClient, create}

-- `exclude_unset`: a field is absent, or present with a value that may be null.
pub record SettingsPatch : Type 0 where
  pub emby_url : Option (Option Text)
  pub emby_api_key : Option (Option Text)
  pub emby_library_path : Option (Option Text)
  pub emby_path_local_prefix : Option (Option Text)
  pub emby_path_emby_prefix : Option (Option Text)
  pub folder_pattern : Option (Option Text)
  pub default_quality : Option (Option Text)
  pub default_retention_days : Option (Option ℕ)
  pub max_concurrent_recordings : Option (Option ℕ)
  pub auto_prune_when_full : Option (Option Bool)
  pub yt_dlp_cookies_path : Option (Option Text)
  pub max_concurrent_vod_downloads : Option (Option ℕ)
  pub auto_delete_source_after_publish : Option (Option Bool)
  pub setlistfm_api_key : Option (Option Text)

-- The database, and `app.state.emby_client`.
pub record Site : Type 0 where
  pub db : Db
  pub emby_client : EmbyClient

abbrev pub apply_patch : SettingsPatch → Settings → Action Db Settings
apply_patch p row = do
  folder_pattern ← or_raise integrity_error (changed p.folder_pattern row.folder_pattern)
  quality ← or_raise integrity_error (changed p.default_quality row.default_quality)
  days ← or_raise integrity_error (changed p.default_retention_days row.default_retention_days)
  recordings ←
      or_raise integrity_error (changed p.max_concurrent_recordings row.max_concurrent_recordings)
  prune ← or_raise integrity_error (changed p.auto_prune_when_full row.auto_prune_when_full)
  downloads ←
      or_raise integrity_error
        (changed p.max_concurrent_vod_downloads row.max_concurrent_vod_downloads)
  delete ←
      or_raise integrity_error
        (changed p.auto_delete_source_after_publish row.auto_delete_source_after_publish)
  pure (record row {
    emby_url = changed_null p.emby_url row.emby_url;
    emby_api_key = changed_null p.emby_api_key row.emby_api_key;
    emby_library_path = changed_null p.emby_library_path row.emby_library_path;
    emby_path_local_prefix = changed_null p.emby_path_local_prefix row.emby_path_local_prefix;
    emby_path_emby_prefix = changed_null p.emby_path_emby_prefix row.emby_path_emby_prefix;
    folder_pattern = folder_pattern;
    default_quality = quality;
    default_retention_days = days;
    max_concurrent_recordings = recordings;
    auto_prune_when_full = prune;
    yt_dlp_cookies_path = changed_null p.yt_dlp_cookies_path row.yt_dlp_cookies_path;
    max_concurrent_vod_downloads = downloads;
    auto_delete_source_after_publish = delete;
    setlistfm_api_key = changed_null p.setlistfm_api_key row.setlistfm_api_key;
  })

-- `_get_or_create`
unfoldable pub get_or_create : Action Db Settings
get_or_create = session do
  row ← gets (λ db. or_new db.settings)
  modify (λ db. record db { settings = some row })
  pure row

abbrev pub patch_row : SettingsPatch → Action Db Settings
patch_row p = session do
  row ← gets (λ db. or_new db.settings)
  row' ← apply_patch p row
  modify (λ db. record db { settings = some row' })
  pure row'

abbrev pub in_site : {A : Type 0} → Action Db A → Action Site A
in_site m w = let (r, db) = m w.db in (r, record w { db = db })

unfoldable pub patch_settings : SettingsPatch → Action Site Settings
unfolding create
patch_settings p = do
  row ← in_site (patch_row p)
  modify (λ w. record w { emby_client = create row })
  pure row
