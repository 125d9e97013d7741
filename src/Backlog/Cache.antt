-- ===== src/Backlog/Cache.antt =====
-- src/concertpvr/backlog_cache.py: the cache row of a watcher, its refresh from the channel's list, and
-- the slow refresh that adds the counts of each video in batches. yt-dlp, the clock, and the division
-- of floating-point numbers are the record `Tools`; `away` is what other tasks do to the state while a
-- refresh awaits the list (no ids) or a batch (its ids).
use concertpvr.Prelude.{
  ℕ, zero, suc, ◌-◌, Bool, true, false, not, ◌&&◌, ◌||◌, Option, none, some, List, [], ◌∷◌, map,
  Text, Table, Exn, value_error, Result, ok, err, Action, pure, raise, gets, modify, or_raise,
  session, ◌>>=◌, ◌>>◌, find, update, insert, contains, discard, set_add, select, any, length, take,
  drop, is_some, is_empty, text_eq, ltb, if◌then◌else◌,
}
use concertpvr.Models.{Db, Date}
use concertpvr.Vod.Handler.{cookies_of}

pub data CacheStatus : Type 0 where
  never_fetched fetching complete error cancelled : CacheStatus

abbrev pub is_cancelled : CacheStatus → Bool
is_cancelled CacheStatus.cancelled = true
is_cancelled _ = false

abbrev pub is_fetching : CacheStatus → Bool
is_fetching CacheStatus.fetching = true
is_fetching _ = false

abbrev pub is_complete : CacheStatus → Bool
is_complete CacheStatus.complete = true
is_complete _ = false

-- An item of `items_json`; a count that is missing or null is `none`.
pub record Item : Type 0 where
  pub youtube_id : Text
  pub title : Text
  pub url : Text
  pub thumbnail_url : Option Text
  pub duration_s : Option ℕ
  pub upload_date : Option Date
  pub view_count : Option ℕ
  pub like_count : Option ℕ

-- `ChannelBacklogCache` of models.py, which the watcher's id is the key of.
pub record Cache : Type 0 where
  pub status : CacheStatus
  pub fetched_at : Option ℕ
  pub total_count : ℕ
  pub items_json : Option (List Item)
  pub error : Option Text
  pub progress_pct : ℕ

-- `BroadcastInfo` of ytdlp_channels.py, as far as the cache reads it.
pub record BroadcastInfo : Type 0 where
  pub youtube_id : Text
  pub title : Text
  pub url : Text
  pub thumbnail_url : Option Text
  pub duration_s : Option ℕ
  pub upload_date : Option Date

-- `ProbeResult` of ytdlp_channels.py.
pub record ProbeResult : Type 0 where
  pub youtube_id : Text
  pub view_count : Option ℕ
  pub like_count : Option ℕ

-- The database, the table of cache rows, and `_cancel_requests`.
pub record Backlog : Type 0 where
  pub db : Db
  pub caches : Table Cache
  pub cancel_requests : List ℕ

pub record Tools : Type 0 where
  -- `list_all_uploads`
  pub list_all_uploads : Text → Option Text → Result (List BroadcastInfo)
  -- yt-dlp's view and like counts of a video, or nothing if it raises.
  pub extract : Text → Option Text → Option (Option ℕ × Option ℕ)
  -- `str(e)`
  pub describe : Exn → Text
  -- `int(done / total * 100)`
  pub percent : ℕ → ℕ → ℕ
  pub now : ℕ

unfoldable pub request_cancel : ℕ → Backlog → Backlog
request_cancel wid b = record b { cancel_requests = set_add wid b.cancel_requests }

unfoldable pub consume_cancel : ℕ → Backlog → Bool × Backlog
consume_cancel wid b =
    if contains wid b.cancel_requests
    then (true, record b { cancel_requests = discard wid b.cancel_requests })
    else (false, b)

-- A new row with the column's defaults.
abbrev pub new_cache : Cache
new_cache = record {
  status = never_fetched;
  fetched_at = none;
  total_count = 0;
  items_json = none;
  error = none;
  progress_pct = 0;
}

-- Assignments to the row where it is there, and to the row or else a new one.
abbrev pub set_row : ℕ → (Cache → Cache) → Backlog → Backlog
set_row wid f b = record b { caches = update wid f b.caches }

abbrev pub set_or_add_row : ℕ → (Cache → Cache) → Backlog → Backlog
set_or_add_row wid f b = record b {
  caches =
      if is_some (find wid b.caches)
      then update wid f b.caches
      else insert wid (f new_cache) b.caches;
}

abbrev pub begin : Cache → Cache
begin c = record c { status = fetching; error = none; progress_pct = 0 }

abbrev pub resumed : Cache → Cache
resumed c = record c { status = fetching; error = none }

abbrev pub fail : Text → Cache → Cache
fail msg c = record c { status = error; error = some (take 500 msg) }

abbrev pub item_of : BroadcastInfo → Item
item_of it = record {
  youtube_id = it.youtube_id;
  title = it.title;
  url = it.url;
  thumbnail_url = it.thumbnail_url;
  duration_s = it.duration_s;
  upload_date = it.upload_date;
  view_count = none;
  like_count = none;
}

abbrev pub listed : ℕ → List Item → Cache → Cache
listed now items c = record c {
  status = complete;
  fetched_at = some now;
  total_count = length items;
  items_json = some items;
  error = none;
  progress_pct = 100;
}

-- The probe of an item sets both counts.
unfoldable pub is_probed : Item → Bool
is_probed it = is_some it.view_count || is_some it.like_count

-- `cache.items_json or []`
abbrev pub items_of : Option (List Item) → List Item
items_of none = []
items_of (some items) = items

-- `view_counts` and `like_counts`, which have the same keys: the results, the latest first.
abbrev pub lookup : Text → List ProbeResult → Option ProbeResult
lookup yid [] = none
lookup yid (r ∷ rs) = if text_eq r.youtube_id yid then some r else lookup yid rs

abbrev pub add_results : List ProbeResult → List ProbeResult → List ProbeResult
add_results [] got = got
add_results (r ∷ rs) got = add_results rs (r ∷ got)

abbrev pub with_counts : Option ProbeResult → Item → Item
with_counts none it = it
with_counts (some r) it = record it { view_count = r.view_count; like_count = r.like_count }

unfoldable pub merge : List ProbeResult → Item → Item
merge got it = with_counts (lookup it.youtube_id got) it

-- `BATCH_SIZE`
abbrev pub batch_size : ℕ
batch_size = 20

-- `ids[i : i + BATCH_SIZE]` for each `i` of the range, on fuel.
unfoldable pub batches : ℕ → List Text → List (List Text)
batches zero ids = []
batches (suc n) [] = []
batches (suc n) (id ∷ ids) = take batch_size (id ∷ ids) ∷ batches n (drop batch_size (id ∷ ids))

abbrev pub unprobed : List Item → List Text
unprobed items = map (λ it. it.youtube_id) (select (λ it. not (is_probed it)) items)

-- Whether the row is of a slow refresh that was cancelled with counts to keep.
abbrev pub is_resumable : Option Cache → Bool
is_resumable none = false
is_resumable (some c) =
    let items = items_of c.items_json in
    is_cancelled c.status && any is_probed items && not (is_empty items)

abbrev pub row_items : Option Cache → List Item
row_items none = []
row_items (some c) = items_of c.items_json

-- How the loop over the batches ends: with all of them, with a cancel, or with the row gone.
pub data Ended : Type 0 where
  finished stopped row_gone : Ended

module _ (t : Tools) where
  -- `probe_video_metadata`, which does not raise.
  unfoldable pub probe_video_metadata : Option Text → Text → ProbeResult
  probe_video_metadata cookies yid = elim (t.extract yid cookies) [
    | none ↦ record { youtube_id = yid; view_count = none; like_count = none }
    | some (views, likes) ↦ record { youtube_id = yid; view_count = views; like_count = likes }
  ]

  abbrev pub merge_row : ℕ → List ProbeResult → Cache → Cache
  merge_row total got c =
      let merged = map (merge got) (items_of c.items_json) in
      record c {
        items_json = some merged;
        progress_pct = t.percent (length (select is_probed merged)) total;
      }

  abbrev pub finish : Cache → Cache
  finish c = record c { status = complete; fetched_at = some t.now; progress_pct = 100 }

  abbrev pub close : ℕ → Ended → Backlog → Backlog
  close wid finished b = set_row wid finish b
  close wid stopped b = set_row wid (λ c. record c { status = cancelled }) b
  close wid row_gone b = b

  module _ (away : List Text → Backlog → Backlog) where
    abbrev pub list_into : ℕ → Result (List BroadcastInfo) → Action Backlog ℕ
    list_into wid (err e) = modify (set_row wid (fail (t.describe e))) >> raise e
    list_into wid (ok infos) =
        modify (set_or_add_row wid (listed t.now (map item_of infos))) >> pure (length infos)

    unfoldable pub fetch_full_channel : ℕ → Action Backlog ℕ
    fetch_full_channel wid = do
      url ← session do
        watcher ← or_raise value_error (find wid (← gets (λ b. b.db.watchers)))
        modify (set_or_add_row wid begin)
        pure watcher.channel_url
      cookies ← gets (λ b. cookies_of b.db.settings)
      modify (away [])
      list_into wid (t.list_all_uploads url cookies)

    -- The loop over the batches.
    unfoldable pub probe_batches :
        ℕ → ℕ → Option Text → List (List Text) → List ProbeResult → Backlog → Ended × Backlog
    unfolding consume_cancel probe_video_metadata merge
    probe_batches wid total cookies [] got b = (finished, b)
    probe_batches wid total cookies (batch ∷ rest) got b =
        let got' = add_results (map (probe_video_metadata cookies) batch) got in
        let b' = away batch (consume_cancel wid b).1 in
        let next =
          probe_batches wid total cookies rest got' (set_row wid (merge_row total got') b') in
        if (consume_cancel wid b).0
        then (stopped, (consume_cancel wid b).1)
        else if is_some (find wid b'.caches)
        then next
        else (row_gone, b')

    -- The second step, where the row has a list.
    unfoldable pub probe_views : ℕ → List Item → Backlog → Backlog
    unfolding probe_batches batches is_probed
    probe_views wid items b =
        let ids = unprobed items in
        let total = length items in
        let done = total - length ids in
        let pct = if is_empty items then 0 else t.percent done total in
        let b1 = set_row wid (λ c. record c { status = fetching; progress_pct = pct }) b in
        let (ended, b2) =
          probe_batches wid total (cookies_of b1.db.settings) (batches (length ids) ids) [] b1 in
        if is_empty ids then set_row wid finish b1 else close wid ended b2

    abbrev pub probe_listed : ℕ → Option Cache → Backlog → Backlog
    probe_listed wid none b = b
    probe_listed wid (some c) b = elim c.items_json [
      | none ↦ b
      | some items ↦ probe_views wid items b
    ]

    abbrev pub first_step : ℕ → Action Backlog ℕ
    first_step wid = do
      existing ← gets (λ b. find wid b.caches)
      if is_resumable existing
          then modify (set_row wid resumed) >> pure (length (row_items existing))
          else fetch_full_channel wid

    unfoldable pub fetch_full_channel_with_views : ℕ → Action Backlog ℕ
    unfolding fetch_full_channel probe_views
    fetch_full_channel_with_views wid = do
      count ← first_step wid
      modify (λ b. probe_listed wid (find wid b.caches) b)
      pure count

-- `CACHE_TTL_HOURS * 3600`
abbrev pub ttl_s : ℕ
ttl_s = 86400

-- `is_stale`
unfoldable pub is_stale : ℕ → Option Cache → Bool
is_stale now none = true
is_stale now (some c) = elim c.fetched_at [
  | none ↦ true
  | some at ↦ not (is_complete c.status) || ltb ttl_s (now - at)
]
