-- ===== src/Vod/Recovery.antt =====
-- What the application does with downloads and live recordings that a crash left in progress:
-- src/concertpvr/orphan_recovery.py, src/concertpvr/vod_recovery.py, and the part of `lifespan` in
-- src/concertpvr/main.py that calls them and starts the queue.
use concertpvr.Prelude.{
  ℕ, Option, none, some, update_where, keys_where, length, if◌then◌else◌, is_some,
}
use concertpvr.Models.{
  Db, Settings, Recording, is_recording_status, is_vod_downloading, interrupted, vod_queued,
}
use concertpvr.Vod.Queue.{World, create, start_workers, rehydrate_from_db}

abbrev pub interrupt : ℕ → Recording → Recording
interrupt now rec = record rec {
  status = interrupted;
  ended_at = if is_some rec.ended_at then rec.ended_at else some now;
}

-- The number of rows, and the database with them marked.
unfoldable pub mark_interrupted_on_startup : ℕ → Db → ℕ × Db
mark_interrupted_on_startup now db = (
  length (keys_where (λ r. is_recording_status r.status) db.recordings),
  record db {
    recordings = update_where (λ r. is_recording_status r.status) (interrupt now) db.recordings;
  },
)

abbrev pub requeue : Recording → Recording
requeue rec = record rec { status = vod_queued }

unfoldable pub mark_vod_downloads_interrupted_on_startup : Db → ℕ × Db
mark_vod_downloads_interrupted_on_startup db = (
  length (keys_where (λ r. is_vod_downloading r.status) db.recordings),
  record db { recordings = update_where (λ r. is_vod_downloading r.status) requeue db.recordings },
)

-- `_row.max_concurrent_vod_downloads if _row else 2`
abbrev pub vod_cap : Option Settings → ℕ
vod_cap none = 2
vod_cap (some row) = row.max_concurrent_vod_downloads

-- The queue is made, its workers start, and the waiting rows are put into it.
abbrev pub start_queue : Db → World
start_queue db =
    rehydrate_from_db (record { db = db; queue = start_workers (create (vod_cap db.settings)) })

-- `lifespan` up to the rehydrated queue: the recoveries, and then the queue.
unfoldable pub startup : ℕ → Db → World
unfolding mark_interrupted_on_startup mark_vod_downloads_interrupted_on_startup
startup now db =
    let db1 = (mark_interrupted_on_startup now db).1 in
    let db2 = (mark_vod_downloads_interrupted_on_startup db1).1 in start_queue db2
