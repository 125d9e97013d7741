-- ===== src/Vod/Queue/Cancel.antt =====
-- Cancelling a download that waits (src/concertpvr/vod_queue.py), and its turn.
use concertpvr.Prelude.{
  ℕ, ◌≡◌, refl, ap, ◌∙◌, true, false, Option, none, some, List, [], ◌∷◌, Text, Exn, Result, ok, err,
  find, contains, contains-set_add, contains-discard_self, contains-discard_ne, find-update_self,
  arith, ◌==◌, inl, inr, Bool-cases, All,
}
use concertpvr.Models.{Db, Recording, vod_queued, vod_cancelled}
use concertpvr.Vod.Queue.{
  World, cancel, queued, iterate, mark_cancelled, set_recording, settle, is_cancelled_queued,
  consume_cancelled_queued,
}
use concertpvr.Vod.Queue.Contract.{IsHandler, status_of, status_at}
use concertpvr.Vod.Queue.Iterate.{iterate_skip, iterate_go, iterate_others}

-- Cancelling a queued recording that no subprocess serves answers "queued", and marks the id.
cancel_waiting_lem :
    (id : ℕ) (w : World) (rec : Recording)
    → find id w.queue.running_procs ≡ none
    → find id w.db.recordings ≡ some rec
    → rec.status ≡ vod_queued
    → ((cancel id w).0 ≡ queued)
      × (is_cancelled_queued id (cancel id w).1.queue ≡ true)
      × ((cancel id w).1.db ≡ w.db)
unfolding cancel is_cancelled_queued
cancel_waiting_lem id w rec no_proc found waits =
    ground (arith, contains-set_add id id w.queue.cancelled_queued)

module _ (describe : Exn → Text) (handler : ℕ → World → Result (Unit {0}) × World)
    (h : IsHandler handler) where
  -- The turns of other recordings.
  abbrev pub turns : List ℕ → World → World
  turns [] w = w
  turns (id ∷ ids) w = turns ids (iterate describe handler id w)

  settle_cancelled :
      (id : ℕ) (r : Result (Unit {0})) (w : World)
      → (settle describe id r w).queue.cancelled_queued ≡ w.queue.cancelled_queued
  settle_cancelled id (ok u) w = refl
  settle_cancelled id (err e) w = refl

  -- The turn of another recording neither serves nor forgets a cancelled id.
  iterate_keeps_cancelled :
      (id j : ℕ) (w : World)
      → (j == id) ≡ false
      → contains j (iterate describe handler id w).queue.cancelled_queued
        ≡ contains j w.queue.cancelled_queued
  iterate_keeps_cancelled id j w ne = elim (Bool-cases (contains id w.queue.cancelled_queued)) [
    | inl skip ↦
        rw (iterate_skip describe handler h id w skip)
          (contains-discard_ne j id w.queue.cancelled_queued ne)
    | inr go ↦ rw (iterate_go describe handler h id w go) (
        ap (contains j)
          (settle_cancelled id (handler id w).0 (handler id w).1 ∙ h.keeps_cancelled id w))
  ]

  turns_keep :
      (id : ℕ) (ids : List ℕ) (w : World)
      → All (λ j. (id == j) ≡ false) ids
      → (contains id (turns ids w).queue.cancelled_queued ≡ contains id w.queue.cancelled_queued)
        × (status_at id (turns ids w) ≡ status_at id w)
  turns_keep id [] w _ = (refl, refl)
  turns_keep id (j ∷ ids) w (ne, nes) =
      let ih = turns_keep id ids (iterate describe handler j w) nes in
      (ih.0 ∙ iterate_keeps_cancelled j id w ne, ih.1 ∙ iterate_others describe handler h j id w ne)

  queued_row :
      (id : ℕ) (w : World)
      → status_at id w ≡ some vod_queued
      → (rec : Recording) × (find id w.db.recordings ≡ some rec) × (rec.status ≡ vod_queued)
  queued_row id w e = go (find id w.db.recordings) refl e
    where
      go :
          (o : Option Recording)
          → find id w.db.recordings ≡ o
          → status_of o ≡ some vod_queued
          → (rec : Recording) × (find id w.db.recordings ≡ some rec) × (rec.status ≡ vod_queued)
      go none f e = cc
      go (some rec) f e = (rec, f, cc)

  skipped_turn :
      (id : ℕ) (w : World)
      → contains id w.queue.cancelled_queued ≡ true
      → status_at id w ≡ some vod_queued
      → let after = iterate describe handler id w in
        (after
          ≡ set_recording id mark_cancelled
              (record w { queue = (consume_cancelled_queued id w.queue).1 }))
        × (status_at id after ≡ some vod_cancelled)
        × (contains id after.queue.cancelled_queued ≡ false)
  unfolding consume_cancelled_queued
  skipped_turn id w marked waits =
      let (rec, found, status) = queued_row id w waits in
      rw (iterate_skip describe handler h id w marked, marked)
        (
          refl,
          rw (find-update_self id mark_cancelled w.db.recordings rec found) (ground arith),
          contains-discard_self id w.queue.cancelled_queued,
        )

  -- A queued recording that is cancelled is never handed to the handler at its turn, whatever other
  -- recordings have their turns first: the turn marks the row vod_cancelled and nothing else, and
  -- the mark that `cancel` left is used up.
  pub cancelled_turn :
      (id : ℕ) (ids : List ℕ) (w : World) (rec : Recording)
      → find id w.queue.running_procs ≡ none
      → find id w.db.recordings ≡ some rec
      → rec.status ≡ vod_queued
      → All (λ j. (id == j) ≡ false) ids
      → let before = turns ids (cancel id w).1 in
        let after = iterate describe handler id before in
        ((cancel id w).0 ≡ queued)
        × (after
            ≡ set_recording id mark_cancelled
                (record before { queue = (consume_cancelled_queued id before.queue).1 }))
        × (status_at id after ≡ some vod_cancelled)
        × (is_cancelled_queued id after.queue ≡ false)
  unfolding is_cancelled_queued
  cancelled_turn id ids w rec no_proc found waits others =
      let c = cancel_waiting_lem id w rec no_proc found waits in
      let kept = turns_keep id ids (cancel id w).1 others in
      let turn = skipped_turn id (turns ids (cancel id w).1) (kept.0 ∙ c.1) (
        kept.1
        ∙ ap (λ (db : Db). status_of (find id db.recordings)) c.2
        ∙ ap status_of found
        ∙ ap some waits) in
      (c.0, turn.0, turn.1, turn.2)
