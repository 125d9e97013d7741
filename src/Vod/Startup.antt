-- ===== src/Vod/Startup.antt =====
-- What the startup after a crash queues and leaves (src/concertpvr/main.py, src/concertpvr/vod_queue.py).
use concertpvr.Prelude.{
  ℕ, ◌≤◌, ◌≡◌, refl, ap, Bool, true, ◌||◌, Option, none, some, [], ◌∷◌, Text, Exn, Result, Table,
  find, update_where, keys_where, length, map, All, arith,
}
use concertpvr.Models.{
  Db, Recording, RecordingStatus, is_recording_status, is_vod_queued, is_vod_downloading,
}
use concertpvr.Vod.Queue.{World, create, start_workers, rehydrate_from_db, job, worker_loop}
use concertpvr.Vod.Queue.Contract.{IsHandler, IsSettled, NotDownloading, status_of, status_at}
use concertpvr.Vod.Queue.Drain.{worker_loop_drains}
use concertpvr.Vod.Recovery.{interrupt, requeue, startup}

-- A download that waits or runs.
abbrev pub is_open : Recording → Bool
is_open rec = is_vod_queued rec.status || is_vod_downloading rec.status

abbrev recovered : ℕ → Table Recording → Table Recording
recovered now t =
    update_where (λ r. is_vod_downloading r.status) requeue
      (update_where (λ r. is_recording_status r.status) (interrupt now) t)

recovered_queued :
    (now : ℕ) (t : Table Recording)
    → keys_where (λ r. is_vod_queued r.status) (recovered now t) ≡ keys_where is_open t
recovered_queued now [] = refl
recovered_queued now ((k, rec) ∷ t) = ground (arith, recovered_queued now t)

-- Neither a live recording nor a download is in progress.
abbrev pub IsStopped : Option RecordingStatus → Type 0
IsStopped (some RecordingStatus.recording) = ⊥
IsStopped (some RecordingStatus.vod_downloading) = ⊥
IsStopped _ = Unit

recovered-IsStopped :
    (now j : ℕ) (t : Table Recording) → IsStopped (status_of (find j (recovered now t)))
recovered-IsStopped now j [] = tt
recovered-IsStopped now j ((k, rec) ∷ t) = ground (arith, recovered-IsStopped now j t)

-- After the startup the queue runs, it holds every download that was waiting or running when the
-- process died, once each and in the order of the rows, and no recording is in progress.
pub startup_requeues :
    (now : ℕ) (db : Db)
    → ((startup now db).queue.running ≡ true)
      × ((startup now db).queue.fifo ≡ map job (keys_where is_open db.recordings))
      × ((j : ℕ) → IsStopped (status_at j (startup now db)))
unfolding startup create start_workers rehydrate_from_db
startup_requeues now db = (
  refl,
  ap (map job) (recovered_queued now db.recordings),
  λ j. recovered-IsStopped now j db.recordings,
)

pub not_downloading : (s : Option RecordingStatus) → IsStopped s → NotDownloading s
not_downloading none p = tt
not_downloading (some RecordingStatus.vod_downloading) p = p
not_downloading (some _) p = tt

-- After a crash and a restart, a worker that goes through the queue leaves every download that was
-- waiting or running settled, and the queue empty: no download is lost or stuck.
pub startup_drains :
    (describe : Exn → Text) (handler : ℕ → World → Result (Unit {0}) × World)
    (h : IsHandler handler) (now : ℕ) (db : Db) (fuel : ℕ)
    → length (keys_where is_open db.recordings) ≤ fuel
    → let w = worker_loop describe handler fuel (startup now db) in
      (w.queue.fifo ≡ [])
      × All (λ id. IsSettled (status_at id w)) (keys_where is_open db.recordings)
startup_drains describe handler h now db fuel enough =
    let s = startup_requeues now db in
    let d =
      worker_loop_drains describe handler h fuel (keys_where is_open db.recordings) (startup now db)
        enough s.0 s.1 (λ j. not_downloading (status_at j (startup now db)) (s.2 j)) in
    (d.0, d.1)
