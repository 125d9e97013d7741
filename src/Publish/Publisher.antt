-- ===== src/Publish/Publisher.antt =====
-- The publisher as the VOD handler uses it.
use concertpvr.Prelude.{
  cancelled, ℕ, ◌≡◌, refl, ap, ◌∙◌, Option, none, some, Text, Table, find, update, length, ◌≤◌,
  keys_where, All, Result, ok, err, arith, ◌∷◌, [],
}
use concertpvr.Models.{Db, Segment, Recording}
use concertpvr.Vod.Queue.{World, worker_loop}
use concertpvr.Vod.Queue.Contract.{status_of, status_at, IsSettled}
use concertpvr.Vod.Handler.Laws.{IsPublisher, vod_handler-IsHandler}
use concertpvr.Vod.Handler.{vod_handler}
use concertpvr.Vod
use concertpvr.Vod.Startup.{is_open, startup_drains}
use concertpvr.Vod.Recovery.{startup}
use concertpvr.Publish.Outcome.{produce_lem}
use concertpvr.Publish.Metadata.{Options}
use concertpvr.Publish.Worker.{
  Tools, Source, set_segment, delete_from, mark_deleted, publish, mark_published, conclude,
  complete_from, complete_segment, delete_source_when_done, after_remove, publish_source,
  open_source, produce,
}

mark_deleted-status :
    (j k : ℕ) (t : Table Recording)
    → status_of (find j (update k mark_deleted t)) ≡ status_of (find j t)
mark_deleted-status j k [] = refl
mark_deleted-status j k (e ∷ t) = ground (arith, mark_deleted-status j k t)

-- The row at an index has the status that it had.
abbrev Keeps : ℕ → Db → Db → Type 0
Keeps j db db' = status_of (find j db'.recordings) ≡ status_of (find j db.recordings)

after_remove-Keeps :
    (t : Tools) (rid j : ℕ) (r : Result (Unit {0})) (db : Db) → Keeps j db (after_remove t rid r db)
after_remove-Keeps t rid j (ok _) db = mark_deleted-status j rid db.recordings
after_remove-Keeps t rid j (err _) db = refl

delete_from-Keeps :
    (t : Tools) (rid j : ℕ) (r : Option Recording) (db : Db) → Keeps j db (delete_from t rid r db)
delete_from-Keeps t rid j none db = refl
delete_from-Keeps t rid j (some rec) db =
    ground (arith, after_remove-Keeps t rid j (t.remove rec.path) db)

complete_from-Keeps :
    (t : Tools) (sid j : ℕ) (dir : Text) (r : Option Segment) (db : Db)
    → Keeps j db (complete_from t sid dir r db)
unfolding delete_source_when_done
complete_from-Keeps t sid j dir none db = refl
complete_from-Keeps t sid j dir (some seg) db =
    let marked = set_segment sid (mark_published dir) db in
    delete_from-Keeps t seg.recording_id j (find seg.recording_id marked.recordings) marked

conclude-Keeps :
    (t : Tools) (sid j : ℕ) (r : Result Text) (db : Db) → Keeps j db (conclude t sid (r, db)).1
unfolding complete_segment
conclude-Keeps t sid j (ok dir) db = complete_from-Keeps t sid j dir (find sid db.segments) db
conclude-Keeps t sid j (err cancelled) db = refl
conclude-Keeps t sid j (err e) db = refl

open_source-Keeps : (sid j : ℕ) (db : Db) → Keeps j db (open_source sid db).1
unfolding open_source
open_source-Keeps sid j db = ground arith

publish_source-Keeps :
    (t : Tools) (sid j : ℕ) (opts : Options) (r : Result Source) (db : Db)
    → Keeps j db (publish_source t sid opts (r, db)).1
publish_source-Keeps t sid j opts (ok src) db =
    conclude-Keeps t sid j (produce t opts src db).0 (produce t opts src db).1
    ∙ ap (λ d. status_of (find j d.recordings)) (produce_lem t opts src db)
publish_source-Keeps t sid j opts (err e) db = refl

publish-Keeps :
    (t : Tools) (sid j : ℕ) (opts : Options) (db : Db) → Keeps j db (publish t sid opts db).1
unfolding publish
publish-Keeps t sid j opts db =
    publish_source-Keeps t sid j opts (open_source sid db).0 (open_source sid db).1
    ∙ open_source-Keeps sid j db

-- `publish(segment_id)` as the handler calls it, in the database of the running process.
abbrev pub plain : Options
plain = record { festival = none; venue = none; year = none }

unfoldable pub publish_in : Tools → ℕ → World → Result (Unit {0}) × World
publish_in t sid w = let (r, db) = publish t sid plain w.db in (r, record w { db = db })

-- The publisher keeps the law that the VOD handler asks of it: it leaves the status of every
-- recording, and the queue.
pub publish_in-IsPublisher : (t : Tools) → IsPublisher (publish_in t)
unfolding publish_in
publish_in-IsPublisher t = record {
  keeps_status = λ sid j w. publish-Keeps t sid j plain w.db;
  keeps_queue = λ sid w. refl;
}

-- After a crash and a restart, a worker that goes through the queue with the application's handler and
-- publisher leaves every download that was waiting or running settled, and the queue empty: none is
-- lost or stuck, whatever the tools answer. As many rounds as downloads are enough.
pub restart_drains :
    (tools : Vod.Handler.Tools) (t : Tools) (now : ℕ) (db : Db) (fuel : ℕ)
    → length (keys_where is_open db.recordings) ≤ fuel
    → let w = worker_loop tools.describe (vod_handler tools (publish_in t)) fuel (startup now db) in
      (w.queue.fifo ≡ [])
      × All (λ id. IsSettled (status_at id w)) (keys_where is_open db.recordings)
restart_drains tools t now db fuel enough =
    startup_drains tools.describe (vod_handler tools (publish_in t))
      (vod_handler-IsHandler tools (publish_in t) (publish_in-IsPublisher t)) now db fuel enough
