-- ===== src/Vod/Workers/Invariant.antt =====
-- The invariant of the interleaved workers: how many recordings they serve, and which.
use concertpvr.Prelude.{
  ℕ, suc, ◌+◌, ◌≤◌, ◌≡◌, refl, sym, subst, ap, ◌∙◌, Bool, true, false, Option, none, some, List, [],
  ◌∷◌, Text, Result, find, length, contains, arith, ◌==◌, inl, inr, Bool-cases, ==_iff, max,
}
use concertpvr.Models.{Db, Recording, RecordingStatus, vod_downloading}
use concertpvr.Vod.Queue.{
  World, create, start_workers, rehydrate_from_db, enqueue, cancel, register_running, settle,
  mark_cancelled,
}
use concertpvr.Vod.Queue.Contract.{IsSettled, NotDownloading, status_of, status_at}
use concertpvr.Vod.Queue.Iterate.{status_at-set_ne, set-Holds, settle-IsSettled, settle_others}
use concertpvr.Vod.Handler.{Tools, Begun, gone, started, begin, after_download, vod_handler}
use concertpvr.Vod.Handler.Laws.{
  IsPublisher, begin_lem, begin_others, after_others, after_settles, vod_handler-IsHandler,
}
use concertpvr.Vod.Recovery.{startup, vod_cap}
use concertpvr.Vod.Startup.{startup_requeues, not_downloading}
use concertpvr.Vod.Workers.{
  State, remove, popped, begun_state, finish, Step, enqueued, edited, cancelled_by, taken, skipped,
  spawned, finished, Reach, here, next,
}

-- A row that reads vod_downloading has a worker.
abbrev pub IsServed : Bool → Option RecordingStatus → Type 0
IsServed false (some RecordingStatus.vod_downloading) = ⊥
IsServed _ _ = Unit

served : (s : Option RecordingStatus) → IsServed true s
served none = tt
served (some RecordingStatus.vod_downloading) = tt
served (some _) = tt

served_none : (b : Bool) → IsServed b none
served_none true = tt
served_none false = tt

still-IsServed : (b : Bool) (s : Option RecordingStatus) → NotDownloading s → IsServed b s
still-IsServed true s p = served s
still-IsServed false none p = tt
still-IsServed false (some RecordingStatus.vod_downloading) p = p
still-IsServed false (some _) p = tt

settled-IsServed : (b : Bool) (s : Option RecordingStatus) → IsSettled s → IsServed b s
settled-IsServed true s p = served s
settled-IsServed false none p = tt
settled-IsServed false (some RecordingStatus.vod_downloading) p = p
settled-IsServed false (some _) p = tt

-- Each of the n worker tasks serves a recording or awaits the queue.
pub record IsBounded (n : ℕ) (s : State) : Type 0 where
  pub counted : length s.busy + s.idle ≡ n
  pub serves : (j : ℕ) → IsServed (contains j s.busy) (status_at j s.world)

cancel_keeps : (id : ℕ) (w : World) → (cancel id w).1.db ≡ w.db
unfolding cancel
cancel_keeps id w = ground arith

length-remove :
    (id : ℕ) (js : List ℕ) → contains id js ≡ true → suc (length (remove id js)) ≡ length js
length-remove id [] h = cc
length-remove id (j ∷ js) h = ground (arith, length-remove id js)

contains-remove_ne :
    (id j : ℕ) (js : List ℕ) → (j == id) ≡ false → contains j (remove id js) ≡ contains j js
contains-remove_ne id j [] ne = refl
contains-remove_ne id j (k ∷ js) ne = ground (arith, contains-remove_ne id j js ne)

mark-IsServed :
    (b : Bool) (rec : Recording)
    → IsServed b (some rec.status)
    → IsServed b (some (mark_cancelled rec).status)
mark-IsServed true rec p = served (some (mark_cancelled rec).status)
mark-IsServed false rec p = ground arith

module _ (t : Tools) (publish : ℕ → World → Result (Unit {0}) × World)
    (p : IsPublisher publish) where
  -- Starting a download puts its worker among the busy ones; one that cannot start leaves a settled row.
  begun-IsBounded :
      (n id idle : ℕ) (busy : List ℕ) (b : Begun) (w : World)
      → length busy + suc idle ≡ n
      → ((j : ℕ) → (j == id) ≡ false → IsServed (contains j busy) (status_at j w))
      → (b ≡ gone → IsSettled (status_at id w))
      → IsBounded n (begun_state id idle busy b w)
  begun-IsBounded n id idle busy gone w room others settled = record {
    counted = room;
    serves = λ j. elim (Bool-cases (j == id)) [
      | inl same ↦
          rw ((==_iff j id).0 same)
            (settled-IsServed (contains id busy) (status_at id w) (settled refl))
      | inr ne ↦ others j ne
    ];
  }
  begun-IsBounded n id idle busy (started _ _) w room others settled = record {
    counted = omega arith;
    serves = λ j. elim (Bool-cases (j == id)) [
      | inl same ↦ rw same (served (status_at j w))
      | inr ne ↦ rw ne (others j ne)
    ];
  }

  finish-IsBounded :
      (n id : ℕ) (path : Text) (r : Result (Unit {0})) (s : State)
      → contains id s.busy ≡ true
      → IsBounded n s
      → IsBounded n (finish t publish id path r s)
  finish-IsBounded n id path r s mine h =
      let r' = (after_download t publish id path r s.world).0 in
      let w' = (after_download t publish id path r s.world).1 in
      let handler_lem = vod_handler-IsHandler t publish p in
      record {
        counted = omega (arith, h.counted, length-remove id s.busy mine);
        serves = λ j. elim (Bool-cases (j == id)) [
          | inl same ↦ rw ((==_iff j id).0 same) (
              settled-IsServed (contains id (remove id s.busy))
                (status_at id (settle t.describe id r' w'))
                (settle-IsSettled t.describe (vod_handler t publish) handler_lem id r' w'
                  (after_settles t publish p id path r s.world)))
          | inr ne ↦
              rw
                (
                  contains-remove_ne id j s.busy ne,
                  settle_others t.describe (vod_handler t publish) handler_lem id j r' w' ne
                      ∙ after_others t publish p id j path r s.world ne,
                )
                (h.serves j)
        ];
      }

  Step-IsBounded : (n : ℕ) (s s' : State) → Step t publish s s' → IsBounded n s → IsBounded n s'
  unfolding enqueue register_running
  Step-IsBounded n s s' (enqueued id e) h =
      subst (IsBounded n) (sym e) (record { counted = h.counted; serves = h.serves })
  Step-IsBounded n s s' (edited db ok_rows e) h = subst (IsBounded n) (sym e) (record {
    counted = h.counted;
    serves = λ j. elim (ok_rows j) [
      | inl same ↦ rw same (h.serves j)
      | inr still ↦ still-IsServed (contains j s.busy) (status_of (find j db.recordings)) still
    ];
  })
  Step-IsBounded n s s' (cancelled_by id e) h =
      subst (IsBounded n) (sym e)
        (record { counted = h.counted; serves = λ j. rw (cancel_keeps id s.world) (h.serves j) })
  Step-IsBounded n s s' (taken id rest others f room fresh e) h =
      let w = popped rest s.world in
      subst (IsBounded n) (sym e) (
        begun-IsBounded n id others s.busy (begin id w).0 (begin id w).1
          (ap (λ k. length s.busy + k) (sym room) ∙ h.counted)
          (λ j ne. rw (begin_others t publish p id j w ne) (h.serves j))
          (begin_lem t publish p id w))
  Step-IsBounded n s s' (skipped id rest others f room marked e) h =
      subst (IsBounded n) (sym e) (record {
        counted = h.counted;
        serves = λ j. elim (Bool-cases (j == id)) [
          | inl same ↦ rw ((==_iff j id).0 same) (
              set-Holds (IsServed (contains id s.busy)) id mark_cancelled s.world
                (served_none (contains id s.busy))
                (λ rec found. mark-IsServed (contains id s.busy) rec (rw found at (h.serves id))))
          | inr ne ↦ rw (status_at-set_ne id j mark_cancelled s.world ne) (h.serves j)
        ];
      })
  Step-IsBounded n s s' (spawned id q busy e) h =
      subst (IsBounded n) (sym e) (record { counted = h.counted; serves = h.serves })
  Step-IsBounded n s s' (finished id path r busy e) h =
      subst (IsBounded n) (sym e) (finish-IsBounded n id path r s busy h)

  Reach-IsBounded : (n : ℕ) (s s' : State) → IsBounded n s → Reach t publish s s' → IsBounded n s'
  Reach-IsBounded n s s' h here = h
  Reach-IsBounded n s s' h (next {s' = u} r step) =
      Step-IsBounded n u s' step (Reach-IsBounded n s u h r)

  abbrev start : ℕ → Db → State
  start now db = record { world = startup now db; busy = []; idle = (startup now db).queue.workers }

  start-IsBounded : (now : ℕ) (db : Db) → IsBounded (startup now db).queue.workers (start now db)
  start-IsBounded now db = record {
    counted = omega arith;
    serves = λ j.
        still-IsServed false (status_at j (startup now db))
          (not_downloading (status_at j (startup now db)) ((startup_requeues now db).2 j));
  }

  served_eq :
      (b : Bool) (s : Option RecordingStatus) → s ≡ some vod_downloading → IsServed b s → b ≡ true
  served_eq true s e p = refl
  served_eq false s e p = absurd (rw e at p)

  startup_workers :
      (now : ℕ) (db : Db) → (startup now db).queue.workers ≡ max 1 (vod_cap db.settings)
  unfolding startup create start_workers rehydrate_from_db
  startup_workers now db = refl

  started-IsBounded :
      (now : ℕ) (db : Db) (s : State)
      → Reach t publish (start now db) s
      → IsBounded (startup now db).queue.workers s
  started-IsBounded now db s r =
      Reach-IsBounded (startup now db).queue.workers (start now db) s (start-IsBounded now db) r

  -- From the startup on, however workers, requests and downloads interleave, at most the configured
  -- number of recordings (and at least one) are served at a time.
  pub downloads_bounded :
      (now : ℕ) (db : Db) (s : State)
      → Reach t publish (start now db) s
      → length s.busy ≤ max 1 (vod_cap db.settings)
  downloads_bounded now db s r =
      omega (arith, startup_workers now db, (started-IsBounded now db s r).counted)

  -- From the startup on, however workers, requests and downloads interleave, a row that reads
  -- vod_downloading is being served by a worker.
  pub downloading_served :
      (now j : ℕ) (db : Db) (s : State)
      → Reach t publish (start now db) s
      → status_at j s.world ≡ some vod_downloading
      → contains j s.busy ≡ true
  downloading_served now j db s r e =
      served_eq (contains j s.busy) (status_at j s.world) e
        ((started-IsBounded now db s r).serves j)
