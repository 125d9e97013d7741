-- ===== src/Vod/Handler/Laws.antt =====
-- The download handler of src/concertpvr/main.py and the contract of the queue.
use concertpvr.Prelude.{
  ℕ, ◌≡◌, refl, ap, sym, ◌∙◌, false, Option, none, some, List, [], ◌∷◌, Text, cancelled,
  download_error, Result, ok, err, find, update, find-update_self, find-update_ne,
  find-update_missing, arith, ◌==◌, inl, inr, Bool-cases, Option-cases,
}
use concertpvr.Models.{Db, Recording, Stream, complete}
use concertpvr.Segment.Segmenter.{Chapter}
use concertpvr.Segment.AutoSegment.{before_flush, flush_recording}
use concertpvr.Vod.Queue.{World, Queue, unregister_running}
use concertpvr.Vod.Queue.Contract.{IsHandler, IsSettled, status_at}
use concertpvr.Vod.Queue.Iterate.{status_at-set_ne, set-Holds}
use concertpvr.Vod.Handler.{
  Tools, Begun, gone, started, begin, begin_row, begin_stream, completed, complete_download,
  carry_on, publish_all, publishable, auto_publish, auto_publish_from, failed_row, stream_missing,
  downloading, unregistered, request_of, resolve, after_download, download_begun, vod_handler,
}

before_flush_recordings :
    (loads : Text → Option (List Chapter)) (fresh : List ℕ → ℕ) (rid : ℕ) (old new : Recording)
    (db : Db)
    → (before_flush loads fresh rid old new db).recordings ≡ db.recordings
unfolding before_flush
before_flush_recordings loads fresh rid old new db = ground arith

-- The listener changes no recording, so a flush of one row is an update of it.
pub flush_recordings :
    (loads : Text → Option (List Chapter)) (fresh : List ℕ → ℕ) (rid : ℕ)
    (f : Recording → Recording) (db : Db)
    → (flush_recording loads fresh rid f db).recordings ≡ update rid f db.recordings
unfolding flush_recording
flush_recordings loads fresh rid f db = elim (Option-cases (find rid db.recordings)) [
  | inl e ↦ rw e (sym (find-update_missing rid f db.recordings e))
  | inr (rec, e) ↦ rw e (ap (update rid f) (before_flush_recordings loads fresh rid rec (f rec) db))
]

module _ (t : Tools) where
  completed_status : (path : Text) (rec : Recording) → (completed t path rec).status ≡ complete
  unfolding completed
  completed_status path rec = ground arith

  complete_recordings :
      (id : ℕ) (path : Text) (w : World)
      → (complete_download t id path w).db.recordings ≡ update id (completed t path) w.db.recordings
  unfolding complete_download
  complete_recordings id path w = flush_recordings t.loads t.fresh id (completed t path) w.db

  complete_status :
      (id : ℕ) (path : Text) (w : World) → IsSettled (status_at id (complete_download t id path w))
  complete_status id path w = elim (Option-cases (find id w.db.recordings)) [
    | inl e ↦
        rw
          (
            complete_recordings id path w,
            find-update_missing id (completed t path) w.db.recordings e,
            e,
          )
          tt
    | inr (rec, e) ↦
        rw
          (
            complete_recordings id path w,
            find-update_self id (completed t path) w.db.recordings rec e,
            completed_status path rec,
          )
          tt
  ]

  complete_others :
      (id j : ℕ) (path : Text) (w : World)
      → (j == id) ≡ false
      → status_at j (complete_download t id path w) ≡ status_at j w
  complete_others id j path w ne =
      rw (complete_recordings id path w, find-update_ne j id (completed t path) w.db.recordings ne)

-- What the handler needs of the publisher.
pub record IsPublisher (publish : ℕ → World → Result (Unit {0}) × World) : Type 0 where
  pub keeps_status : (sid j : ℕ) (w : World) → status_at j (publish sid w).1 ≡ status_at j w
  pub keeps_queue : (sid : ℕ) (w : World) → (publish sid w).1.queue ≡ w.queue

module _ (t : Tools) (publish : ℕ → World → Result (Unit {0}) × World)
    (p : IsPublisher publish) where
  abbrev Same : World → World → Type 0
  Same w w' = ((j : ℕ) → status_at j w' ≡ status_at j w) × (w'.queue ≡ w.queue)

  carry_on-Same :
      (r : Result (Unit {0})) (w w1 rest : World)
      → Same w w1
      → Same w rest
      → Same w (carry_on t publish r w1 rest)
  carry_on-Same (ok _) w w1 rest here there = there
  carry_on-Same (err cancelled) w w1 rest here there = here
  carry_on-Same (err _) w w1 rest here there = there

  publish_all-Same : (sids : List ℕ) (w : World) → Same w (publish_all t publish sids w)
  unfolding publish_all
  publish_all-Same [] w = (λ j. refl, refl)
  publish_all-Same (sid ∷ sids) w =
      let (r, w1) = publish sid w in
      let ih = publish_all-Same sids w1 in
      carry_on-Same r w w1 (publish_all t publish sids w1)
        (λ j. p.keeps_status sid j w, p.keeps_queue sid w)
        (λ j. ih.0 j ∙ p.keeps_status sid j w, ih.1 ∙ p.keeps_queue sid w)

  auto_publish_from-Same :
      (id : ℕ) (o : Option Recording) (w : World) → Same w (auto_publish_from t publish id o w)
  auto_publish_from-Same id none w = (λ j. refl, refl)
  auto_publish_from-Same id (some rec) w = elim (Bool-cases rec.auto_publish_after_download) [
    | inl e ↦ rw e (publish_all-Same (publishable t id w.db.segments) w)
    | inr e ↦ rw e (λ j. refl, refl)
  ]

  auto_publish-Same : (id : ℕ) (w : World) → Same w (auto_publish t publish id w)
  unfolding auto_publish
  auto_publish-Same id w = auto_publish_from-Same id (find id w.db.recordings) w

  -- The handler's queue is the one before, less the subprocess of its own recording.
  abbrev pub QueueKept : World → World → Type 0
  QueueKept w w' =
      (w'.queue.fifo ≡ w.queue.fifo)
      × (w'.queue.running ≡ w.queue.running)
      × (w'.queue.cancelled_queued ≡ w.queue.cancelled_queued)
      × (w'.queue.workers ≡ w.queue.workers)

  pub after_queue :
      (id : ℕ) (path : Text) (r : Result (Unit {0})) (w : World)
      → QueueKept w (after_download t publish id path r w).1
  unfolding unregister_running complete_download
  after_queue id path (ok u) w =
      rw
        ((auto_publish-Same id
          (complete_download t id (resolve t.glob path) (unregistered t publish id w))).1)
        (refl, refl, refl, refl)
  after_queue id path (err download_error) w = (refl, refl, refl, refl)
  after_queue id path (err _) w = (refl, refl, refl, refl)

  pub after_others :
      (id j : ℕ) (path : Text) (r : Result (Unit {0})) (w : World)
      → (j == id) ≡ false
      → status_at j (after_download t publish id path r w).1 ≡ status_at j w
  after_others id j path (ok u) w ne =
      (auto_publish-Same id
          (complete_download t id (resolve t.glob path) (unregistered t publish id w))).0
        j
      ∙ complete_others t id j (resolve t.glob path) (unregistered t publish id w) ne
  after_others id j path (err download_error) w ne =
      status_at-set_ne id j (failed_row t publish) (unregistered t publish id w) ne
  after_others id j path (err _) w ne = refl

  pub after_settles :
      (id : ℕ) (path : Text) (r : Result (Unit {0})) (w : World)
      → (after_download t publish id path r w).0 ≡ ok tt
      → IsSettled (status_at id (after_download t publish id path r w).1)
  after_settles id path (ok u) w e =
      rw
        ((auto_publish-Same id
            (complete_download t id (resolve t.glob path) (unregistered t publish id w))).0
          id)
        (complete_status t id (resolve t.glob path) (unregistered t publish id w))
  after_settles id path (err download_error) w e =
      set-Holds IsSettled id (failed_row t publish) (unregistered t publish id w) tt (λ rec _. tt)
  after_settles id path (err _) w e = cc

  begin_stream_lem :
      (id : ℕ) (rec : Recording) (o : Option Stream) (w : World)
      → (begin_stream id rec o w).0 ≡ gone
      → IsSettled (status_at id (begin_stream id rec o w).1)
  begin_stream_lem id rec none w e = set-Holds IsSettled id stream_missing w tt (λ rec _. tt)
  begin_stream_lem id rec (some st) w e = cc

  pub begin_lem :
      (id : ℕ) (w : World) → (begin id w).0 ≡ gone → IsSettled (status_at id (begin id w).1)
  unfolding begin
  begin_lem id w = go (find id w.db.recordings) refl
    where
      go :
          (o : Option Recording)
          → find id w.db.recordings ≡ o
          → (begin_row id o w).0 ≡ gone
          → IsSettled (status_at id (begin_row id o w).1)
      go none f e = rw f tt
      go (some rec) f e = begin_stream_lem id rec (find rec.stream_id w.db.streams) w e

  begin_stream_others :
      (id j : ℕ) (rec : Recording) (o : Option Stream) (w : World)
      → (j == id) ≡ false
      → status_at j (begin_stream id rec o w).1 ≡ status_at j w
  begin_stream_others id j rec none w ne = status_at-set_ne id j stream_missing w ne
  begin_stream_others id j rec (some st) w ne = status_at-set_ne id j downloading w ne

  begin_row_others :
      (id j : ℕ) (o : Option Recording) (w : World)
      → (j == id) ≡ false
      → status_at j (begin_row id o w).1 ≡ status_at j w
  begin_row_others id j none w ne = refl
  begin_row_others id j (some rec) w ne =
      begin_stream_others id j rec (find rec.stream_id w.db.streams) w ne

  begin_stream_queue :
      (id : ℕ) (rec : Recording) (o : Option Stream) (w : World)
      → (begin_stream id rec o w).1.queue ≡ w.queue
  begin_stream_queue id rec none w = refl
  begin_stream_queue id rec (some st) w = refl

  begin_row_queue :
      (id : ℕ) (o : Option Recording) (w : World) → (begin_row id o w).1.queue ≡ w.queue
  begin_row_queue id none w = refl
  begin_row_queue id (some rec) w = begin_stream_queue id rec (find rec.stream_id w.db.streams) w

  pub begin_others :
      (id j : ℕ) (w : World) → (j == id) ≡ false → status_at j (begin id w).1 ≡ status_at j w
  unfolding begin
  begin_others id j w ne = begin_row_others id j (find id w.db.recordings) w ne

  pub begin_queue : (id : ℕ) (w : World) → (begin id w).1.queue ≡ w.queue
  unfolding begin
  begin_queue id w = begin_row_queue id (find id w.db.recordings) w

  begun_settles :
      (id : ℕ) (b : Begun) (w : World)
      → (b ≡ gone → IsSettled (status_at id w))
      → (download_begun t publish id b w).0 ≡ ok tt
      → IsSettled (status_at id (download_begun t publish id b w).1)
  begun_settles id gone w k e = k refl
  begun_settles id (started rec st) w k e =
      after_settles id rec.path (t.download (request_of w.db rec st)) w e

  begun_others :
      (id j : ℕ) (b : Begun) (w : World)
      → (j == id) ≡ false
      → status_at j (download_begun t publish id b w).1 ≡ status_at j w
  begun_others id j gone w ne = refl
  begun_others id j (started rec st) w ne =
      after_others id j rec.path (t.download (request_of w.db rec st)) w ne

  begun_queue : (id : ℕ) (b : Begun) (w : World) → QueueKept w (download_begun t publish id b w).1
  begun_queue id gone w = (refl, refl, refl, refl)
  begun_queue id (started rec st) w =
      after_queue id rec.path (t.download (request_of w.db rec st)) w

  handler_queue : (id : ℕ) (w : World) → QueueKept w (vod_handler t publish id w).1
  unfolding vod_handler
  handler_queue id w =
      let q = begin_queue id w in
      let k = begun_queue id (begin id w).0 (begin id w).1 in
      (
        k.0 ∙ ap (λ (q : Queue). q.fifo) q,
        k.1 ∙ ap (λ (q : Queue). q.running) q,
        k.2 ∙ ap (λ (q : Queue). q.cancelled_queued) q,
        k.3 ∙ ap (λ (q : Queue). q.workers) q,
      )

  -- Whatever yt-dlp, ffprobe and the file system answer, the download handler settles its recording
  -- when it returns, changes the status of no other, and leaves the waiting downloads alone.
  pub vod_handler-IsHandler : IsHandler (vod_handler t publish)
  unfolding vod_handler
  vod_handler-IsHandler = record {
    settles = λ id w e. begun_settles id (begin id w).0 (begin id w).1 (begin_lem id w) e;
    others =
        λ id j w ne. begun_others id j (begin id w).0 (begin id w).1 ne ∙ begin_others id j w ne;
    keeps_fifo = λ id w. (handler_queue id w).0;
    keeps_running = λ id w. (handler_queue id w).1;
    keeps_cancelled = λ id w. (handler_queue id w).2;
  }

  -- Whatever yt-dlp, ffprobe and the file system answer, a download handler that returns has settled
  -- its recording: the row is gone, or reads complete, vod_failed or another status that is final; no
  -- other row's status has changed, and the waiting downloads are as before.
  pub vod_handler_lem :
      (id j : ℕ) (w : World)
      → (j == id) ≡ false
      → (vod_handler t publish id w).0 ≡ ok tt
      → let w' = (vod_handler t publish id w).1 in
        IsSettled (status_at id w')
        × (status_at j w' ≡ status_at j w)
        × (w'.queue.fifo ≡ w.queue.fifo)
  vod_handler_lem id j w ne e =
      let h = vod_handler-IsHandler in (h.settles id w e, h.others id j w ne, h.keeps_fifo id w)
