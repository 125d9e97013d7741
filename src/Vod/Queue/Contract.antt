-- ===== src/Vod/Queue/Contract.antt =====
-- What the queue needs of the handler that it is given, as laws.
use concertpvr.Prelude.{ℕ, ◌≡◌, false, Option, none, some, find, Result, ok, ◌==◌}
use concertpvr.Models.{RecordingStatus, Recording}
use concertpvr.Vod.Queue.{World}

abbrev pub status_of : Option Recording → Option RecordingStatus
status_of none = none
status_of (some rec) = some rec.status

-- The status of the row with an id, if there is one.
abbrev pub status_at : ℕ → World → Option RecordingStatus
status_at id w = status_of (find id w.db.recordings)

-- No download is waiting or running.
abbrev pub IsSettled : Option RecordingStatus → Type 0
IsSettled none = Unit
IsSettled (some RecordingStatus.vod_queued) = ⊥
IsSettled (some RecordingStatus.vod_downloading) = ⊥
IsSettled (some _) = Unit

abbrev pub NotDownloading : Option RecordingStatus → Type 0
NotDownloading (some RecordingStatus.vod_downloading) = ⊥
NotDownloading _ = Unit

-- A handler settles its own recording when it returns, leaves the status of every other, and does
-- not touch the FIFO, the running flag or the cancelled ids, whether it returns or raises.
pub record IsHandler (handler : ℕ → World → Result (Unit {0}) × World) : Type 0 where
  pub settles :
      (id : ℕ) (w : World) → (handler id w).0 ≡ ok tt → IsSettled (status_at id (handler id w).1)
  pub others :
      (id j : ℕ) (w : World) → (j == id) ≡ false → status_at j (handler id w).1 ≡ status_at j w
  pub keeps_fifo : (id : ℕ) (w : World) → (handler id w).1.queue.fifo ≡ w.queue.fifo
  pub keeps_running : (id : ℕ) (w : World) → (handler id w).1.queue.running ≡ w.queue.running
  pub keeps_cancelled :
      (id : ℕ) (w : World) → (handler id w).1.queue.cancelled_queued ≡ w.queue.cancelled_queued
