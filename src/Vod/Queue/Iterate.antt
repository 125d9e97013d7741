-- ===== src/Vod/Queue/Iterate.antt =====
-- What one iteration of a worker does to the status of each recording, for any handler that keeps
-- the contract.
use concertpvr.Prelude.{
  ℕ, ◌≡◌, refl, ap, ◌∙◌, true, false, Option, none, some, Text, Exn, cancelled, Result, ok, err,
  find, find-update_self, find-update_ne, find-update_missing, contains, discard, arith, ==_iff,
  ◌==◌, inl, inr, Bool-cases, Option-cases,
}
use concertpvr.Models.{RecordingStatus, Recording}
use concertpvr.Vod.Queue.{
  World, Queue, settle_row, settle, dispatch, iterate, set_recording, mark_cancelled,
}
use concertpvr.Vod.Queue.Contract.{IsHandler, IsSettled, NotDownloading, status_of, status_at}

pub status_at-set_ne :
    (id j : ℕ) (f : Recording → Recording) (w : World)
    → (j == id) ≡ false
    → status_at j (set_recording id f w) ≡ status_at j w
status_at-set_ne id j f w ne = ap status_of (find-update_ne j id f w.db.recordings ne)

-- What an assignment to a row makes of its status, if the row is there.
pub set-Holds :
    (P : Option RecordingStatus → Type 0) (id : ℕ) (f : Recording → Recording) (w : World)
    → P none
    → ((rec : Recording) → find id w.db.recordings ≡ some rec → P (some (f rec).status))
    → P (status_at id (set_recording id f w))
set-Holds P id f w p k = elim (Option-cases (find id w.db.recordings)) [
  | inl e ↦ rw (find-update_missing id f w.db.recordings e, e) p
  | inr (rec, e) ↦ rw (find-update_self id f w.db.recordings rec e) (k rec e)
]

module _ (describe : Exn → Text) (handler : ℕ → World → Result (Unit {0}) × World)
    (h : IsHandler handler) where
  settle_row-IsSettled :
      (e : Exn) (rec : Recording) → IsSettled (some (settle_row describe e rec).status)
  settle_row-IsSettled cancelled rec = tt
  settle_row-IsSettled _ rec = tt

  pub settle-IsSettled :
      (id : ℕ) (r : Result (Unit {0})) (w : World)
      → (r ≡ ok tt → IsSettled (status_at id w))
      → IsSettled (status_at id (settle describe id r w))
  settle-IsSettled id (ok u) w k = k refl
  settle-IsSettled id (err e) w k =
      set-Holds IsSettled id (settle_row describe e) w tt (λ rec _. settle_row-IsSettled e rec)

  pub settle_others :
      (id j : ℕ) (r : Result (Unit {0})) (w : World)
      → (j == id) ≡ false
      → status_at j (settle describe id r w) ≡ status_at j w
  settle_others id j (ok u) w ne = refl
  settle_others id j (err e) w ne = status_at-set_ne id j (settle_row describe e) w ne

  pub mark-IsSettled :
      (rec : Recording)
      → NotDownloading (some rec.status)
      → IsSettled (some (mark_cancelled rec).status)
  mark-IsSettled rec p = ground arith

  pub iterate_skip :
      (id : ℕ) (w : World)
      → contains id w.queue.cancelled_queued ≡ true
      → iterate describe handler id w
        ≡ set_recording id mark_cancelled (record w {
          queue = record w.queue { cancelled_queued = discard id w.queue.cancelled_queued };
        })
  unfolding iterate
  iterate_skip id w e = rw e

  pub iterate_go :
      (id : ℕ) (w : World)
      → contains id w.queue.cancelled_queued ≡ false
      → iterate describe handler id w ≡ dispatch describe handler id w
  unfolding iterate
  iterate_go id w e = rw e

  -- An iteration settles its recording, if no other worker is downloading it.
  pub iterate-IsSettled :
      (id : ℕ) (w : World)
      → NotDownloading (status_at id w)
      → IsSettled (status_at id (iterate describe handler id w))
  iterate-IsSettled id w p = elim (Bool-cases (contains id w.queue.cancelled_queued)) [
    | inl skip ↦
        rw (iterate_skip id w skip)
          (set-Holds IsSettled id mark_cancelled w tt (λ rec e. mark-IsSettled rec (rw e at p)))
    | inr go ↦
        rw (iterate_go id w go)
          (settle-IsSettled id (handler id w).0 (handler id w).1 (h.settles id w))
  ]

  pub iterate_others :
      (id j : ℕ) (w : World)
      → (j == id) ≡ false
      → status_at j (iterate describe handler id w) ≡ status_at j w
  iterate_others id j w ne = elim (Bool-cases (contains id w.queue.cancelled_queued)) [
    | inl skip ↦ rw (iterate_skip id w skip) (status_at-set_ne id j mark_cancelled w ne)
    | inr go ↦
        rw (iterate_go id w go)
          (settle_others id j (handler id w).0 (handler id w).1 ne ∙ h.others id j w ne)
  ]

  -- Settling a recording leaves the queue alone.
  pub settle_queue :
      (id : ℕ) (r : Result (Unit {0})) (w : World) → (settle describe id r w).queue ≡ w.queue
  settle_queue id (ok u) w = refl
  settle_queue id (err e) w = refl

  pub iterate_fifo :
      (id : ℕ) (w : World)
      → ((iterate describe handler id w).queue.fifo ≡ w.queue.fifo)
        × ((iterate describe handler id w).queue.running ≡ w.queue.running)
  iterate_fifo id w = elim (Bool-cases (contains id w.queue.cancelled_queued)) [
    | inl skip ↦ rw (iterate_skip id w skip) (refl, refl)
    | inr go ↦
        let q = settle_queue id (handler id w).0 (handler id w).1 in
        rw (iterate_go id w go) (
          ap (λ (q : Queue). q.fifo) q ∙ h.keeps_fifo id w,
          ap (λ (q : Queue). q.running) q ∙ h.keeps_running id w,
        )
  ]

  -- Between iterations no recording is downloading, and this stays so.
  abbrev pub AllStill : World → Type 0
  AllStill w = (j : ℕ) → NotDownloading (status_at j w)

  pub still_of_settled : (s : Option RecordingStatus) → IsSettled s → NotDownloading s
  still_of_settled none p = tt
  still_of_settled (some RecordingStatus.vod_downloading) p = p
  still_of_settled (some _) p = tt

  pub iterate-AllStill :
      (id : ℕ) (w : World) → AllStill w → AllStill (iterate describe handler id w)
  iterate-AllStill id w p j = elim (Bool-cases (j == id)) [
    | inl same ↦ rw ((==_iff j id).0 same) (
        still_of_settled (status_at id (iterate describe handler id w))
          (iterate-IsSettled id w (p id)))
    | inr ne ↦ rw (iterate_others id j w ne) (p j)
  ]
