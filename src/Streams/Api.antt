-- ===== src/Streams/Api.antt =====
-- src/concertpvr/api/streams.py: a stream, its subscription, and the capture of the window of a live
-- stream. The URL and the quality that a recorder gets only reach its subprocess, and are left out.
use concertpvr.Prelude.{
  ℕ, Bool, true, false, not, ◌&&◌, Option, none, some, [], ◌∷◌, ◌++◌, Text, codes, Table, find,
  insert, ◌==◌, if◌then◌else◌, Exn, http, runtime_error, integrity_error, ok, err, Action, pure,
  gets, modify, raise_if, or_raise, session, ◌>>=◌, ◌>>◌, changed, changed_null,
}
use concertpvr.Models.{
  Db, Stream, StreamKind, WatchSubscription, Recording, is_live_kind, vod_queued,
}
use concertpvr.Pool.{stop, is_recording}
use concertpvr.Pool.Starter.{Live, in_db, start_buffer_recording, live_recording, add_recording}
use concertpvr.Vod.Queue.{World, enqueue}

abbrev pub no_stream : Exn
no_stream = http 404 "stream not found"

unfoldable pub get_stream : ℕ → Action Db Stream
get_stream id = session do or_raise no_stream (find id (← gets (λ db. db.streams)))

-- `select(WatchSubscription).where(WatchSubscription.stream_id == stream_id)`
unfoldable pub subscription_of : ℕ → Table WatchSubscription → Option WatchSubscription
subscription_of id [] = none
subscription_of id ((k, s) ∷ t) = if s.stream_id == id then some s else subscription_of id t

unfoldable pub get_watch : ℕ → Action Db WatchSubscription
unfolding subscription_of
get_watch id = session do
  or_raise no_stream (find id (← gets (λ db. db.streams)))
  or_raise (http 404 "no subscription") (subscription_of id (← gets (λ db. db.subscriptions)))

-- `WatchSubscriptionPatch`: a field is absent, or present with a value that may be null.
pub record Patch : Type 0 where
  pub enabled : Option (Option Bool)
  pub title_filter : Option (Option Text)
  pub quality_cap : Option (Option Text)
  pub retention_days : Option (Option ℕ)

-- A column of a new row: null is left out of the insert, so the default stands.
abbrev pub given : {A : Type 0} → Option (Option A) → A → A
given (some (some v)) default = v
given _ default = default

abbrev pub new_subscription : ℕ → Patch → WatchSubscription
new_subscription id patch = record {
  stream_id = id;
  enabled = given patch.enabled true;
  title_filter = changed_null patch.title_filter none;
  quality_cap = changed_null patch.quality_cap none;
  retention_days = given patch.retention_days 7;
}

-- Assignments to a row that exists, where two columns refuse null.
abbrev pub assigned : Patch → WatchSubscription → Option WatchSubscription
assigned patch s = elim (changed patch.enabled s.enabled) [
  | none ↦ none
  | some enabled ↦ elim (changed patch.retention_days s.retention_days) [
    | none ↦ none
    | some days ↦ some (record s {
      enabled = enabled;
      title_filter = changed_null patch.title_filter s.title_filter;
      quality_cap = changed_null patch.quality_cap s.quality_cap;
      retention_days = days;
    })
  ]
]

-- The row of the stream gets new values.
unfoldable pub set_row : ℕ → WatchSubscription → Table WatchSubscription → Table WatchSubscription
set_row id s [] = []
set_row id s ((k, old) ∷ t) = if old.stream_id == id then (k, s) ∷ t else (k, old) ∷ set_row id s t

-- The subscription after the patch, and the table; nothing where the flush raises.
unfoldable pub subscribed :
    ℕ → ℕ → Patch → Table WatchSubscription → Option (WatchSubscription × Table WatchSubscription)
unfolding subscription_of set_row
subscribed new_id id patch t = elim (subscription_of id t) [
  | none ↦ let s = new_subscription id patch in some (s, insert new_id s t)
  | some old ↦ elim (assigned patch old) [ none ↦ none | some s ↦ some (s, set_row id s t) ]
]

unfoldable pub subscribe : ℕ → ℕ → Patch → Action Db WatchSubscription
unfolding subscribed
subscribe new_id id patch = session do
  or_raise no_stream (find id (← gets (λ db. db.streams)))
  r ← or_raise integrity_error (subscribed new_id id patch (← gets (λ db. db.subscriptions)))
  modify (λ db. record db { subscriptions = r.1 })
  pure r.0

-- The pool raises `RuntimeError` for its capacity only.
abbrev pub refused : Exn → Exn
refused runtime_error =
    http 507 "Max concurrent recordings reached. Stop one before starting another."
refused e = e

abbrev pub or_refuse : Action Live ℕ → Action Live (Unit {0})
or_refuse m w = let (r, w') = m w in elim r [ ok _ ↦ (ok tt, w') | err e ↦ (err (refused e), w') ]

-- Starts or stops the recorder so that it follows the subscription.
unfoldable pub follow : (ℕ → Text) → ℕ → ℕ → ℕ → WatchSubscription → Action Live (Unit {0})
unfolding start_buffer_recording stop is_recording
follow stream_dir rec_id now id s w =
    let busy = is_recording id w.pool in
    if s.enabled && not busy
    then or_refuse (start_buffer_recording stream_dir rec_id now id) w
    else if not s.enabled && busy
    then (ok tt, record w { pool = stop id w.pool })
    else (ok tt, w)

unfoldable pub patch_watch : (ℕ → Text) → ℕ → ℕ → ℕ → ℕ → Patch → Action Live WatchSubscription
unfolding follow subscribe
patch_watch stream_dir new_id rec_id now id patch = do
  s ← in_db (subscribe new_id id patch)
  follow stream_dir rec_id now id s
  pure s

abbrev pub not_live : StreamKind → Exn
not_live StreamKind.channel =
    http 409 "dvr-pull only valid for kind=live streams (current kind: channel)"
not_live StreamKind.video =
    http 409 "dvr-pull only valid for kind=live streams (current kind: video)"
not_live StreamKind.live = http 409 "dvr-pull only valid for kind=live streams (current kind: live)"

-- A recording of the window of a live stream, for the download queue.
abbrev pub pull_recording : Text → ℕ → ℕ → Stream → Recording
pull_recording staging now id st =
    let path = staging ++ codes "/dvr-" ++ st.youtube_id ++ codes ".%(ext)s" in
    record (live_recording id now path false) { status = vod_queued }

abbrev pub pull_row : Text → ℕ → ℕ → ℕ → Action Db (Unit {0})
pull_row staging rec_id now id = session do
  st ← or_raise no_stream (find id (← gets (λ db. db.streams)))
  raise_if (not (is_live_kind st.kind)) (not_live st.kind)
  modify (add_recording rec_id (pull_recording staging now id st))

-- The row is committed before the queue is told of it.
unfoldable pub dvr_pull : Text → ℕ → ℕ → ℕ → Action World ℕ
unfolding enqueue
dvr_pull staging rec_id now id w =
    let (r, db) = pull_row staging rec_id now id w.db in
    elim r [
      | ok _ ↦ (ok rec_id, record w { db = db; queue = enqueue rec_id w.queue })
      | err e ↦ (err e, record w { db = db })
    ]
