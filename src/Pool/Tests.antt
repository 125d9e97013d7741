-- ===== src/Pool/Tests.antt =====
-- The theorems about the pool at concrete inputs.
use concertpvr.Prelude.{IsUnique, ◌≡◌, ◌≤◌, refl, List, [], ◌∷◌, length}
use concertpvr.Pool.{create, start, stop, finished, request_stop, active_stream_ids}
use concertpvr.Pool.Bounds.{Event, starts, stops, ends, react_all, pool_bounded}
use concertpvr.Pool.Streams.{replay, active_stream_ids-replay}

abbrev busy_day : List Event
busy_day = starts 1 ∷ starts 2 ∷ starts 1 ∷ starts 3 ∷ stops 1 ∷ ends 1 ∷ starts 3 ∷ []

busy_day_run : active_stream_ids (react_all busy_day (create 2)) ≡ 2 ∷ 3 ∷ []
unfolding active_stream_ids react_all create start stop finished request_stop
busy_day_run = refl

pool_bounded_example :
    let p = react_all busy_day (create 2) in
    (length p.workers ≤ 2) × IsUnique (active_stream_ids p) × (p.tasks ≡ active_stream_ids p)
pool_bounded_example = pool_bounded 2 busy_day

active_stream_ids-replay_example :
    active_stream_ids (react_all busy_day (create 2)) ≡ replay 2 busy_day []
active_stream_ids-replay_example = active_stream_ids-replay 2 busy_day
