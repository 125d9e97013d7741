-- ===== src/Pool/Streams.antt =====
-- The pool of src/concertpvr/pool.py as a list of streams, which forgets the workers and the tasks.
use concertpvr.Prelude.{
  ℕ, ◌≡◌, refl, ap, ◌∙◌, false, ◌||◌, List, [], ◌∷◌, ◌++◌, length, leb, contains, keys, keys-update,
  arith, if◌then◌else◌,
}
use concertpvr.Pool.{
  Pool, create, remove, start, finished, request, request_stop, active_stream_ids,
}
use concertpvr.Pool.Bounds.{
  find-contains, keys-insert, keys-erase, length-keys, IsPool, create-IsPool, react-IsPool, Event,
  starts, stops, ends, react, react_all,
}

-- A stream is recorded from a start for which there is room until its task ends.
abbrev pub step : ℕ → Event → List ℕ → List ℕ
step n (starts id) ids = if contains id ids || leb n (length ids) then ids else ids ++ id ∷ []
step n (stops id) ids = ids
step n (ends id) ids = remove id ids

unfoldable pub replay : ℕ → List Event → List ℕ → List ℕ
replay n [] ids = ids
replay n (e ∷ es) ids = replay n es (step n e ids)

start-step :
    (n id : ℕ) (p : Pool)
    → IsPool n p
    → keys (start id p).1.workers ≡ step n (starts id) (keys p.workers)
unfolding start
start-step n id p h = ground (
  arith,
  find-contains id p.workers,
  length-keys p.workers,
  keys-insert id (record { stop_requested = false }) p.workers,
  h.cap,
)

react-step :
    (n : ℕ) (e : Event) (p : Pool)
    → IsPool n p
    → keys (react e p).workers ≡ step n e (keys p.workers)
unfolding request_stop finished
react-step n (starts id) p h = start-step n id p h
react-step n (stops id) p h = keys-update id request p.workers
react-step n (ends id) p h = keys-erase id p.workers

react_all-replay :
    (n : ℕ) (es : List Event) (p : Pool)
    → IsPool n p
    → keys (react_all es p).workers ≡ replay n es (keys p.workers)
unfolding react_all replay
react_all-replay n [] p h = refl
react_all-replay n (e ∷ es) p h =
    react_all-replay n es (react e p) (react-IsPool n e p h) ∙ ap (replay n es) (react-step n e p h)

-- Whatever is started, asked to stop and finished, in any order: the streams that a pool records are
-- those of the plain list in which a start adds a stream that is not in it where there is room, a
-- request to stop changes nothing, and the end of a task takes its stream out.
pub active_stream_ids-replay :
    (n : ℕ) (es : List Event) → active_stream_ids (react_all es (create n)) ≡ replay n es []
unfolding active_stream_ids create
active_stream_ids-replay n es = react_all-replay n es (create n) (create-IsPool n)
