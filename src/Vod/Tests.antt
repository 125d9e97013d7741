-- ===== src/Vod/Tests.antt =====
-- The theorems about VOD downloads at concrete inputs.
use concertpvr.Prelude.{
  ℕ, ◌≤◌, ◌≡◌, refl, true, false, some, [], ◌∷◌, map, max, keys_where, contains, Result, ok, length,
}
use concertpvr.Models.{vod_queued, vod_failed, vod_cancelled}
use concertpvr.Examples.{download_of, database, tools, crashed}
use concertpvr.Vod.Queue.{
  World, job, create, start_workers, cancel, queued, iterate, set_recording, mark_cancelled,
  rehydrate_from_db, consume_cancelled_queued, is_cancelled_queued,
}
use concertpvr.Vod.Queue.Contract.{IsHandler, IsSettled, status_at}
use concertpvr.Vod.Queue.Cancel.{turns, cancelled_turn}
use concertpvr.Vod.Handler.{begin, vod_handler}
use concertpvr.Vod.Handler.Laws.{IsPublisher, vod_handler-IsHandler, vod_handler_lem}
use concertpvr.Vod.Recovery.{startup, vod_cap}
use concertpvr.Vod.Startup.{IsStopped, is_open, startup_requeues}
use concertpvr.Vod.Workers.{State, Reach, here, next, taken, take_job, popped}
use concertpvr.Vod.Workers.Invariant.{downloads_bounded, downloading_served}

abbrev publish : ℕ → World → Result (Unit {0}) × World
publish sid w = (ok tt, w)

publish-IsPublisher : IsPublisher publish
publish-IsPublisher = record { keeps_status = λ sid j w. refl; keeps_queue = λ sid w. refl }

handler-IsHandler : IsHandler (vod_handler tools publish)
handler-IsHandler = vod_handler-IsHandler tools publish publish-IsPublisher

startup_run : (startup 3000 crashed).queue.fifo ≡ job 4 ∷ job 6 ∷ []
unfolding startup create start_workers rehydrate_from_db
startup_run = refl

startup_requeues_example :
    ((startup 3000 crashed).queue.running ≡ true)
    × ((startup 3000 crashed).queue.fifo ≡ map job (keys_where is_open crashed.recordings))
    × ((j : ℕ) → IsStopped (status_at j (startup 3000 crashed)))
startup_requeues_example = startup_requeues 3000 crashed

abbrev waiting : World
waiting = record {
  db = database (
      (4, download_of vod_queued) ∷ (5, download_of vod_failed) ∷ (6, download_of vod_queued) ∷ []);
  queue = record {
    max_concurrent = 2;
    fifo = job 4 ∷ job 6 ∷ [];
    running = true;
    workers = 2;
    running_procs = [];
    cancelled_queued = [];
  };
}

vod_handler_example :
    let w' = (vod_handler tools publish 4 waiting).1 in
    IsSettled (status_at 4 w')
    × (status_at 6 w' ≡ status_at 6 waiting)
    × (w'.queue.fifo ≡ waiting.queue.fifo)
unfolding vod_handler begin
vod_handler_example = vod_handler_lem tools publish publish-IsPublisher 4 6 waiting refl refl

cancelled_turn_example :
    let before =
      turns tools.describe
        (vod_handler tools publish)
        handler-IsHandler
        (4 ∷ [])
        (cancel 6 waiting).1 in
    let after = iterate tools.describe (vod_handler tools publish) 6 before in
    ((cancel 6 waiting).0 ≡ queued)
    × (after
        ≡ set_recording 6 mark_cancelled
            (record before { queue = (consume_cancelled_queued 6 before.queue).1 }))
    × (status_at 6 after ≡ some vod_cancelled)
    × (is_cancelled_queued 6 after.queue ≡ false)
cancelled_turn_example =
    cancelled_turn tools.describe (vod_handler tools publish) handler-IsHandler 6 (4 ∷ []) waiting
      (download_of vod_queued) refl refl refl (refl, tt)

-- One worker takes the first job after the restart.
abbrev restarted : State
restarted = record {
  world = startup 3000 crashed;
  busy = [];
  idle = (startup 3000 crashed).queue.workers;
}

abbrev one_taken : State
one_taken = take_job 4 1 [] (popped (job 6 ∷ []) restarted.world)

one_taken-Reach : Reach tools publish restarted one_taken
unfolding startup create start_workers rehydrate_from_db
one_taken-Reach = next here (taken 4 (job 6 ∷ []) 1 refl refl refl refl)

downloads_bounded_example : length one_taken.busy ≤ max 1 (vod_cap crashed.settings)
downloads_bounded_example =
    downloads_bounded tools publish publish-IsPublisher 3000 crashed one_taken one_taken-Reach

downloading_served_example : contains 4 one_taken.busy ≡ true
unfolding startup create start_workers rehydrate_from_db begin
downloading_served_example =
    downloading_served tools publish publish-IsPublisher 3000 4 crashed one_taken one_taken-Reach
      refl
