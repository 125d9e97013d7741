-- ===== src/Pool.antt =====
-- `RecorderPool` of src/concertpvr/pool.py and `start_buffer_recording` of
-- src/concertpvr/recording_starter.py. A worker's subprocess and progress messages are left out: what
-- the pool knows of a worker is its stream and whether it was asked to stop.
pub mod Bounds
pub mod Starter
pub mod Streams
mod Tests
use concertpvr.Prelude.{
  ℕ, Bool, true, false, Option, none, some, List, [], ◌∷◌, ◌++◌, Table, find, insert, erase, update,
  length, leb, is_some, Exn, value_error, runtime_error, Action, gets, raise_if, modify, ◌>>=◌,
  ◌>>◌, if◌then◌else◌, ◌==◌, keys,
}

pub record Worker : Type 0 where
  pub stop_requested : Bool

-- `_workers` and `_tasks` are dicts by stream id; of a task only its key is kept.
pub record Pool : Type 0 where
  pub max_concurrent : ℕ
  pub workers : Table Worker
  pub tasks : List ℕ

unfoldable pub create : ℕ → Pool
create n = record { max_concurrent = n; workers = []; tasks = [] }

-- `dict.pop(k, None)`
abbrev pub remove : ℕ → List ℕ → List ℕ
remove k [] = []
remove k (j ∷ js) = if k == j then js else j ∷ remove k js

abbrev pub admit : ℕ → Pool → Pool
admit id p = record p {
  workers = insert id (record { stop_requested = false }) p.workers;
  tasks = p.tasks ++ id ∷ [];
}

unfoldable pub start : ℕ → Action Pool (Unit {0})
start id = do
  raise_if (is_some (find id (← gets (λ p. p.workers)))) value_error
  p ← gets (λ p. p)
  raise_if (leb p.max_concurrent (length p.workers)) runtime_error
  modify (admit id)

-- The `finally` clause of the runner task.
unfoldable pub finished : ℕ → Pool → Pool
finished id p = record p { workers = erase id p.workers; tasks = remove id p.tasks }

abbrev pub request : Worker → Worker
request w = record w { stop_requested = true }

-- `stop` up to its `await`.
unfoldable pub request_stop : ℕ → Pool → Pool
request_stop id p = record p { workers = update id request p.workers }

-- `stop` awaits the task, whose last act is the `finally` clause.
unfoldable pub stop : ℕ → Pool → Pool
unfolding request_stop finished
stop id p = if is_some (find id p.workers) then finished id (request_stop id p) else p

unfoldable pub is_recording : ℕ → Pool → Bool
is_recording id p = is_some (find id p.workers)

unfoldable pub active_stream_ids : Pool → List ℕ
active_stream_ids p = keys p.workers

-- `gather` of all tasks: each one ends.
unfoldable pub finish_all : List ℕ → Pool → Pool
unfolding finished
finish_all [] p = p
finish_all (id ∷ ids) p = finish_all ids (finished id p)

unfoldable pub wait_all : Pool → Pool
unfolding finish_all
wait_all p = finish_all p.tasks p
