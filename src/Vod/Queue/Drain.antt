-- ===== src/Vod/Queue/Drain.antt =====
-- Where the worker loop of src/concertpvr/vod_queue.py ends.
use concertpvr.Prelude.{
  ℕ, zero, suc, ◌≤◌, ◌≡◌, refl, sym, subst, true, List, [], ◌∷◌, Text, Exn, Result, length, All,
  map, arith, ◌==◌, inl, inr, Bool-cases, ==_iff, ◌∙◌,
}
use concertpvr.Vod.Queue.{World, Item, job, iterate, worker_loop, with_fifo}
use concertpvr.Vod.Queue.Contract.{IsHandler, IsSettled, status_at}
use concertpvr.Vod.Queue.Iterate.{
  AllStill, iterate-IsSettled, iterate_others, iterate_fifo, iterate-AllStill,
}

module _ (describe : Exn → Text) (handler : ℕ → World → Result (Unit {0}) × World)
    (h : IsHandler handler) where
  -- What has been settled stays so.
  iterate_keeps_IsSettled :
      (id j : ℕ) (w : World)
      → AllStill describe handler h w
      → IsSettled (status_at j w)
      → IsSettled (status_at j (iterate describe handler id w))
  iterate_keeps_IsSettled id j w still p = elim (Bool-cases (j == id)) [
    | inl same ↦ rw ((==_iff j id).0 same) (iterate-IsSettled describe handler h id w (still id))
    | inr ne ↦ rw (iterate_others describe handler h id j w ne) p
  ]

  loop_step :
      (fuel id : ℕ) (rest : List Item) (w : World)
      → w.queue.running ≡ true
      → w.queue.fifo ≡ job id ∷ rest
      → worker_loop describe handler (suc fuel) w
        ≡ worker_loop describe handler fuel
            (iterate describe handler id (with_fifo describe handler rest w))
  unfolding worker_loop
  loop_step fuel id rest w r f = rw (r, f)

  loop_empty :
      (fuel : ℕ) (w : World)
      → w.queue.running ≡ true
      → w.queue.fifo ≡ []
      → worker_loop describe handler fuel w ≡ w
  unfolding worker_loop
  loop_empty zero w r f = refl
  loop_empty (suc fuel) w r f = ground arith

  abbrev pub Drained : List ℕ → World → World → Type 0
  Drained ids w w' =
      (w'.queue.fifo ≡ [])
      × All (λ id. IsSettled (status_at id w')) ids
      × ((j : ℕ) → IsSettled (status_at j w) → IsSettled (status_at j w'))

  -- A running worker alone at a queue of jobs, with no download in progress, takes all of them: the
  -- queue is empty then, each of their recordings is settled (complete, failed or cancelled, if it
  -- is there), and what was settled before still is. As many rounds as jobs are enough.
  pub worker_loop_drains :
      (fuel : ℕ) (ids : List ℕ) (w : World)
      → length ids ≤ fuel
      → w.queue.running ≡ true
      → w.queue.fifo ≡ map job ids
      → AllStill describe handler h w
      → Drained ids w (worker_loop describe handler fuel w)
  worker_loop_drains zero [] w enough run f still =
      subst (Drained [] w) (sym (loop_empty zero w run f)) (f, tt, λ j p. p)
  worker_loop_drains zero (id ∷ ids) w enough run f still = absurd (omega arith)
  worker_loop_drains (suc fuel) [] w enough run f still =
      subst (Drained [] w) (sym (loop_empty (suc fuel) w run f)) (f, tt, λ j p. p)
  worker_loop_drains (suc fuel) (id ∷ ids) w enough run f still =
      let w1 = with_fifo describe handler (map job ids) w in
      let w2 = iterate describe handler id w1 in
      let keeps = iterate_fifo describe handler h id w1 in
      let ih =
        worker_loop_drains fuel ids w2 (omega arith) (keeps.1 ∙ run) keeps.0
          (iterate-AllStill describe handler h id w1 still) in
      subst (Drained (id ∷ ids) w) (sym (loop_step fuel id (map job ids) w run f)) (
        ih.0,
        (ih.2 id (iterate-IsSettled describe handler h id w1 (still id)), ih.1),
        λ j p. ih.2 j (iterate_keeps_IsSettled id j w1 still p),
      )
