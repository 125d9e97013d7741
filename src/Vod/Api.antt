-- ===== src/Vod/Api.antt =====
-- `retry_vod` and `cancel_vod_download` of src/concertpvr/api/recordings.py.
use concertpvr.Prelude.{
  ℕ, ◌≡◌, true, not, ◌||◌, ◌&&◌, find-update_missing, ◌++◌, ◌∷◌, [], none, some, find, Exn, http,
  ok, Action, pure, gets, or_raise, raise_if, modify, ◌>>=◌, ◌>>◌, arith, is_some, contains-set_add,
  if◌then◌else◌, update, find-update_self,
}
use concertpvr.Models.{
  Recording, RecordingStatus, is_vod_failed, is_vod_queued, is_vod_downloading, vod_queued,
  vod_cancelled, vod_failed,
}
use concertpvr.Vod.Queue.{
  World, CancelResult, queued, running, not_found, cancel, enqueue, set_recording, job,
  is_cancelled_queued, terminate,
}

abbrev no_recording : Exn
no_recording = http 404 "recording not found"

abbrev retried : Recording → Recording
retried rec = record rec { status = vod_queued; error = none }

-- The answer's status.
unfoldable pub retry_vod : ℕ → Action World RecordingStatus
unfolding enqueue
retry_vod id = do
  rec ← or_raise no_recording (← gets (λ w. find id w.db.recordings))
  raise_if (not (is_vod_failed rec.status)) (http 409 "recording is not in vod_failed state")
  modify (set_recording id retried)
  modify (λ w. record w { queue = enqueue id w.queue })
  pure vod_queued

pub record CancelResponse : Type 0 where
  pub status : RecordingStatus
  pub previous : CancelResult

abbrev cancel_action : ℕ → Action World CancelResult
cancel_action id w = let (r, w') = cancel id w in (ok r, w')

unfoldable pub cancel_vod_download : ℕ → Action World CancelResponse
unfolding cancel
cancel_vod_download id = do
  rec ← or_raise no_recording (← gets (λ w. find id w.db.recordings))
  raise_if (not (is_vod_queued rec.status || is_vod_downloading rec.status))
      (http 409 "only queued/downloading can be cancelled")
  result ← cancel_action id
  pure (record { status = vod_cancelled; previous = result })

-- A failed download that is retried waits at the end of the queue, with its error cleared.
pub retry_vod_lem :
    (id : ℕ) (w : World) (rec : Recording)
    → find id w.db.recordings ≡ some rec
    → rec.status ≡ vod_failed
    → let (r, w') = retry_vod id w in
      (r ≡ ok vod_queued)
      × (w'.queue.fifo ≡ w.queue.fifo ++ job id ∷ [])
      × (find id w'.db.recordings ≡ some (record rec { status = vod_queued; error = none }))
unfolding retry_vod
retry_vod_lem id w rec found status = (
  ground arith,
  ground arith,
  ground (arith, find-update_self id retried w.db.recordings rec found),
)

-- What a cancel request for an open download answers and does: with a subprocess registered, it is
-- terminated; a download that waits is marked, so that its turn is skipped; and one that is
-- downloading with no subprocess yet is answered with the status vod_cancelled like the others,
-- while nothing is changed. The database is the same in each case.
pub cancel_vod_download_lem :
    (id : ℕ) (w : World) (rec : Recording)
    → find id w.db.recordings ≡ some rec
    → (is_vod_queued rec.status || is_vod_downloading rec.status) ≡ true
    → let (r, w') = cancel_vod_download id w in
      let served = is_some (find id w.queue.running_procs) in
      (r
        ≡ ok (record {
          status = vod_cancelled;
          previous =
              if served then running else if is_vod_queued rec.status then queued else not_found;
        }))
      × (w'.queue.running_procs ≡ update id terminate w.queue.running_procs)
      × (is_cancelled_queued id w'.queue
          ≡ (is_cancelled_queued id w.queue || (not served && is_vod_queued rec.status)))
      × (w'.db ≡ w.db)
unfolding cancel_vod_download is_cancelled_queued
cancel_vod_download_lem id w rec found is_open = (
  ground arith,
  ground (arith, find-update_missing id terminate w.queue.running_procs),
  ground (arith, contains-set_add id id w.queue.cancelled_queued),
  ground arith,
)
