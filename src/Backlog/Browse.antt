-- ===== src/Backlog/Browse.antt =====
-- `get_watcher_backlog` of src/concertpvr/api/channel_watchers.py: the page of the cached list that is
-- shown. `lower` is `str.lower`; dates are compared as their ISO texts are.
use concertpvr.Prelude.{
  ℕ, suc, Bool, true, false, not, ◌&&◌, ◌||◌, Option, none, some, List, [], ◌∷◌, Text, Table, find,
  select, take, drop, map, leb, Action, pure, gets, ◌>>=◌, ◌>>◌, ◌==◌, if◌then◌else◌,
}
use concertpvr.Models.{Db, Date, Recording, is_vod_queued, is_vod_downloading}
use concertpvr.Poller.{is_part, is_after}
use concertpvr.Vod.Queue.{stream_by_youtube_id}
use concertpvr.Backlog.Cache.{Item, Backlog, row_items, is_stale}
use concertpvr.Backlog.Api.{check_watcher, is_in_flight}

pub data Sort : Type 0 where
  newest longest oldest most_viewed most_liked : Sort

pub data State : Type 0 where
  downloaded queued not_downloaded : State

pub record BacklogItem : Type 0 where
  pub item : Item
  pub state : State

-- `int(v) if isinstance(v, (int, float)) else -1`, one more than it is.
abbrev pub count_key : Option ℕ → ℕ
count_key none = 0
count_key (some n) = suc n

abbrev pub duration_key : Option ℕ → ℕ
duration_key none = 0
duration_key (some n) = n

-- `str(it.get("upload_date") or "")`: no date comes before any.
abbrev pub date_le : Option Date → Option Date → Bool
date_le none _ = true
date_le (some a) none = false
date_le (some a) (some b) = not (is_after a b)

-- Whether an item may stand in front of another.
unfoldable pub in_order : Sort → Item → Item → Bool
unfolding is_after
in_order newest a b = true
in_order oldest a b = date_le a.upload_date b.upload_date
in_order longest a b = leb (duration_key b.duration_s) (duration_key a.duration_s)
in_order most_viewed a b = leb (count_key b.view_count) (count_key a.view_count)
in_order most_liked a b = leb (count_key b.like_count) (count_key a.like_count)

-- `sorted`, which is stable.
abbrev pub put_in : Sort → Item → List Item → List Item
put_in o x [] = x ∷ []
put_in o x (y ∷ ys) = if in_order o x y then x ∷ y ∷ ys else y ∷ put_in o x ys

unfoldable pub sorted : Sort → List Item → List Item
unfolding in_order
sorted o [] = []
sorted o (x ∷ xs) = put_in o x (sorted o xs)

abbrev pub matching : (Text → Text) → Option Text → List Item → List Item
matching lower none items = items
matching lower (some []) items = items
matching lower (some (c ∷ q)) items = select (λ it. is_part (lower (c ∷ q)) (lower it.title)) items

-- `items[offset : offset + limit]` of the filtered and sorted list.
unfoldable pub page : (Text → Text) → ℕ → ℕ → Sort → Option Text → List Item → List Item
unfolding sorted is_part
page lower limit offset o q items = take limit (drop offset (sorted o (matching lower q items)))

abbrev pub has_active : ℕ → Table Recording → Bool
has_active sid [] = false
has_active sid ((_, rec) ∷ t) =
    rec.stream_id == sid && (is_vod_queued rec.status || is_vod_downloading rec.status)
    || has_active sid t

abbrev pub state_from : Option ℕ → Table Recording → State
state_from none recs = not_downloaded
state_from (some sid) recs = if has_active sid recs then queued else downloaded

unfoldable pub state_of : Db → Item → State
unfolding stream_by_youtube_id
state_of db it = state_from (stream_by_youtube_id it.youtube_id db.streams) db.recordings

abbrev pub shown : Db → Item → BacklogItem
shown db it = record { item = it; state = state_of db it }

-- The items of the page, and whether a refresh is started.
unfoldable pub get_watcher_backlog :
    (Text → Text) → ℕ → ℕ → ℕ → ℕ → Sort → Option Text → Action Backlog (List BacklogItem × Bool)
unfolding page state_of is_stale
get_watcher_backlog lower now wid limit offset o q = do
  check_watcher wid
  cache ← gets (λ b. find wid b.caches)
  db ← gets (λ b. b.db)
  pure (
    map (shown db) (page lower limit offset o q (row_items cache)),
    is_stale now cache && not (is_in_flight cache),
  )
