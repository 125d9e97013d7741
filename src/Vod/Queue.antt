-- ===== src/Vod/Queue.antt =====
-- `VodQueue` of src/concertpvr/vod_queue.py: the FIFO of recording ids, the set of ids that were
-- cancelled while they waited, and the subprocesses of the downloads that run. A worker's iteration
-- is a function of the handler that the application passes in.
pub mod Contract
pub mod Iterate
pub mod Drain
pub mod Cancel
use concertpvr.Prelude.{
  ℕ, zero, suc, Bool, true, false, Option, none, some, List, [], ◌∷◌, ◌++◌, Text, Table, find,
  update, erase, keys_where, Exn, Result, ok, err, cancelled, contains, set_add, discard, take, map,
  max, if◌then◌else◌, text_eq, ◌==◌, ◌&&◌, ◌||◌,
}
use concertpvr.Models.{
  Db, Recording, Stream, is_vod_queued, is_vod_downloading, vod_cancelled, vod_failed,
}

-- A `ManagedProcess`, by whether `terminate()` was called on it.
pub record Proc : Type 0 where
  pub terminated : Bool

-- What the asyncio queue holds: recording ids, and the sentinel -1 that `stop` puts.
pub data Item : Type 0 where
  job : ℕ → Item
  sentinel : Item

pub record Queue : Type 0 where
  pub max_concurrent : ℕ
  pub fifo : List Item
  pub running : Bool
  -- The number of worker tasks.
  pub workers : ℕ
  pub running_procs : Table Proc
  pub cancelled_queued : List ℕ

pub record World : Type 0 where
  pub db : Db
  pub queue : Queue

-- `VodQueue(max_concurrent=n)`
unfoldable pub create : ℕ → Queue
create n = record {
  max_concurrent = max 1 n;
  fifo = [];
  running = false;
  workers = 0;
  running_procs = [];
  cancelled_queued = [];
}

unfoldable pub enqueue : ℕ → Queue → Queue
enqueue id q = record q { fifo = q.fifo ++ job id ∷ [] }

unfoldable pub start_workers : Queue → Queue
start_workers q = if q.running then q else record q { running = true; workers = q.max_concurrent }

-- `stop` puts one sentinel for each worker, and forgets the workers once they have ended.
abbrev sentinels : ℕ → List Item
sentinels zero = []
sentinels (suc n) = sentinel ∷ sentinels n

unfoldable pub stop : Queue → Queue
stop q = record q { running = false; fifo = q.fifo ++ sentinels q.workers; workers = 0 }

unfoldable pub register_running : ℕ → Proc → Queue → Queue
register_running id p q = record q { running_procs = (id, p) ∷ erase id q.running_procs }

unfoldable pub unregister_running : ℕ → Queue → Queue
unregister_running id q = record q { running_procs = erase id q.running_procs }

unfoldable pub is_cancelled_queued : ℕ → Queue → Bool
is_cancelled_queued id q = contains id q.cancelled_queued

unfoldable pub consume_cancelled_queued : ℕ → Queue → Bool × Queue
consume_cancelled_queued id q =
    if contains id q.cancelled_queued
    then (true, record q { cancelled_queued = discard id q.cancelled_queued })
    else (false, q)

pub data CancelResult : Type 0 where
  queued running not_found : CancelResult

abbrev pub terminate : Proc → Proc
terminate p = record p { terminated = true }

-- The part of `cancel` for an id with no running subprocess: the row's status decides.
abbrev pub cancel_waiting : ℕ → Option Recording → Queue → CancelResult × Queue
cancel_waiting id none q = (not_found, q)
cancel_waiting id (some rec) q =
    if is_vod_queued rec.status
    then (queued, record q { cancelled_queued = set_add id q.cancelled_queued })
    else (not_found, q)

abbrev pub cancel_from : ℕ → Option Proc → Db → Queue → CancelResult × Queue
cancel_from id (some p) db q =
    (running, record q { running_procs = update id terminate q.running_procs })
cancel_from id none db q = cancel_waiting id (find id db.recordings) q

unfoldable pub cancel : ℕ → World → CancelResult × World
cancel id w =
    let (r, q) = cancel_from id (find id w.queue.running_procs) w.db w.queue in
    (r, record w { queue = q })

-- `s.scalar(select(Stream).where(Stream.youtube_id == youtube_id))`
unfoldable pub stream_by_youtube_id : Text → Table Stream → Option ℕ
stream_by_youtube_id yid [] = none
stream_by_youtube_id yid ((k, st) ∷ t) =
    if text_eq st.youtube_id yid then some k else stream_by_youtube_id yid t

-- The first recording of a stream that is queued or downloading.
unfoldable pub active_recording : ℕ → Table Recording → Option ℕ
active_recording sid [] = none
active_recording sid ((k, rec) ∷ t) =
    if rec.stream_id == sid && (is_vod_queued rec.status || is_vod_downloading rec.status)
    then some k
    else active_recording sid t

abbrev cancel_found : Option ℕ → World → World
cancel_found none w = w
cancel_found (some id) w = (cancel id w).1

abbrev cancel_of_stream : Option ℕ → World → World
cancel_of_stream none w = w
cancel_of_stream (some sid) w = cancel_found (active_recording sid w.db.recordings) w

unfoldable pub cancel_by_youtube_id : Text → World → World
unfolding cancel
cancel_by_youtube_id yid w = cancel_of_stream (stream_by_youtube_id yid w.db.streams) w

-- Every queued row, by id. Rows come in the order of their ids.
unfoldable pub rehydrate_from_db : World → World
rehydrate_from_db w = record w {
  queue = record w.queue {
    fifo = w.queue.fifo ++ map job (keys_where (λ r. is_vod_queued r.status) w.db.recordings);
  };
}

abbrev pub set_recording : ℕ → (Recording → Recording) → World → World
set_recording id f w = record w { db = record w.db { recordings = update id f w.db.recordings } }

-- The row of an id that was cancelled in the FIFO, if it is still queued.
abbrev pub mark_cancelled : Recording → Recording
mark_cancelled rec = if is_vod_queued rec.status then record rec { status = vod_cancelled } else rec

module _ (describe : Exn → Text) where
  -- The row after `except VodCancelled`, and after `except Exception`.
  abbrev pub settle_row : Exn → Recording → Recording
  settle_row cancelled rec = record rec { status = vod_cancelled; error = none }
  settle_row e rec = record rec { status = vod_failed; error = some (take 500 (describe e)) }

  -- The `except` clauses round the handler's call.
  abbrev pub settle : ℕ → Result (Unit {0}) → World → World
  settle id (ok _) w = w
  settle id (err e) w = set_recording id (settle_row e) w

  -- The `finally` clause.
  abbrev pub leave : ℕ → World → World
  leave id w = record w {
    queue = record w.queue { running_procs = erase id w.queue.running_procs };
  }

  module _ (handler : ℕ → World → Result (Unit {0}) × World) where
    abbrev pub dispatch : ℕ → World → World
    dispatch id w = let (r, w') = handler id w in leave id (settle id r w')

    -- One iteration of `_worker_loop` on the id that it took.
    unfoldable pub iterate : ℕ → World → World
    unfolding consume_cancelled_queued
    iterate id w =
        let (skip, q) = consume_cancelled_queued id w.queue in
        if skip
        then set_recording id mark_cancelled (record w { queue = q })
        else dispatch id (record w { queue = q })

    abbrev pub with_fifo : List Item → World → World
    with_fifo items w = record w { queue = record w.queue { fifo = items } }

    -- `_worker_loop` of a worker alone at the queue, for so many rounds: until the queue is stopped,
    -- the sentinel comes, or nothing is left to take.
    unfoldable pub worker_loop : ℕ → World → World
    worker_loop zero w = w
    worker_loop (suc fuel) w = elim w.queue.running [
      | false ↦ w
      | true ↦ elim w.queue.fifo [
        | [] ↦ w
        | sentinel ∷ rest ↦ with_fifo rest w
        | job id ∷ rest ↦ worker_loop fuel (iterate id (with_fifo rest w))
      ]
    ]
