-- ===== src/Vod/Workers.antt =====
-- The workers of the queue as they interleave: each `await` of the handler is a point at which other
-- workers and requests run. A state is the world and the ids that workers are serving, with
-- the number of worker tasks that await the queue.
pub mod Invariant
use concertpvr.Prelude.{
  ℕ, suc, ◌≤◌, ◌<◌, ◌≡◌, refl, ap, Bool, true, false, ◌||◌, Option, none, some, List, [], ◌∷◌, Text,
  Exn, Result, ok, err, find, length, contains, arith, ◌==◌, ◌⊎◌, inl, inr, Bool-cases,
  Option-cases, ==_iff, if◌then◌else◌, max,
}
use concertpvr.Models.{Db, Recording, Stream, RecordingStatus, vod_downloading}
use concertpvr.Vod.Queue.{
  World, Queue, Proc, Item, job, enqueue, cancel, register_running, settle, leave, set_recording,
  mark_cancelled, consume_cancelled_queued, with_fifo, create, start_workers,
}
use concertpvr.Vod.Queue.Contract.{NotDownloading, IsSettled, status_of, status_at}
use concertpvr.Vod.Queue.Iterate.{status_at-set_ne, set-Holds}
use concertpvr.Vod.Handler.{Tools, Begun, gone, started, begin, after_download}
use concertpvr.Vod.Handler.Laws.{IsPublisher}

pub record State : Type 0 where
  pub world : World
  pub busy : List ℕ
  pub idle : ℕ

-- One worker is done with an id.
abbrev pub remove : ℕ → List ℕ → List ℕ
remove id [] = []
remove id (j ∷ js) = if id == j then js else j ∷ remove id js

abbrev pub on_queue : (Queue → Queue) → State → State
on_queue f s = record s { world = record s.world { queue = f s.world.queue } }

-- The queue without the item at its head.
abbrev pub popped : List Item → World → World
popped rest w = record w { queue = record w.queue { fifo = rest } }

-- A worker whose handler has returned awaits the queue again.
abbrev pub begun_state : ℕ → ℕ → List ℕ → Begun → World → State
begun_state id idle busy gone w = record { world = w; busy = busy; idle = suc idle }
begun_state id idle busy (started _ _) w = record { world = w; busy = id ∷ busy; idle = idle }

-- The job at the head of the FIFO is taken, and the handler runs up to its first `await`.
abbrev pub take_job : ℕ → ℕ → List ℕ → World → State
take_job id idle busy w = let (b, w') = begin id w in begun_state id idle busy b w'

module _ (t : Tools) (publish : ℕ → World → Result (Unit {0}) × World) where
  -- The rest of the handler, once the download has ended with `r`, and the worker's clean-up.
  abbrev pub finish : ℕ → Text → Result (Unit {0}) → State → State
  finish id path r s =
      let (r', w') = after_download t publish id path r s.world in
      record {
        world = leave t.describe id (settle t.describe id r' w');
        busy = remove id s.busy;
        idle = suc s.idle;
      }

  -- The turn of a cancelled id.
  abbrev pub skip_job : ℕ → World → World
  skip_job id w =
      set_recording id mark_cancelled (record w { queue = (consume_cancelled_queued id w.queue).1 })

  pub data Step (s : State) (s' : State) : Type 0 where
    enqueued : (id : ℕ) → s' ≡ on_queue (enqueue id) s → Step s s'
    -- A request or a job elsewhere changes rows; only the handler writes vod_downloading.
    edited :
        (db : Db)
        → ((j : ℕ)
            → (status_of (find j db.recordings) ≡ status_at j s.world)
              ⊎ NotDownloading (status_of (find j db.recordings)))
        → s' ≡ record s { world = record s.world { db = db } }
        → Step s s'
    cancelled_by : (id : ℕ) → s' ≡ record s { world = (cancel id s.world).1 } → Step s s'
    -- One of the tasks that await the queue gets the job.
    taken :
        (id : ℕ) (rest : List Item) (others : ℕ)
        → s.world.queue.fifo ≡ job id ∷ rest
        → s.idle ≡ suc others
        → contains id s.world.queue.cancelled_queued ≡ false
        → s' ≡ take_job id others s.busy (popped rest s.world)
        → Step s s'
    skipped :
        (id : ℕ) (rest : List Item) (others : ℕ)
        → s.world.queue.fifo ≡ job id ∷ rest
        → s.idle ≡ suc others
        → contains id s.world.queue.cancelled_queued ≡ true
        → s' ≡ record s { world = skip_job id (popped rest s.world) }
        → Step s s'
    spawned :
        (id : ℕ) (p : Proc)
        → contains id s.busy ≡ true
        → s' ≡ on_queue (register_running id p) s
        → Step s s'
    finished :
        (id : ℕ) (path : Text) (r : Result (Unit {0}))
        → contains id s.busy ≡ true
        → s' ≡ finish id path r s
        → Step s s'

  pub data Reach (s : State) : State → Type 0 where
    here : Reach s s
    next : {s' s'' : State} → Reach s s' → Step s' s'' → Reach s s''
