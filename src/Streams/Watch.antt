-- ===== src/Streams/Watch.antt =====
-- Whether the recorder follows a subscription patched through src/concertpvr/api/streams.py.
use concertpvr.Prelude.{
  ℕ, ◌≡◌, refl, sym, subst, ap, ◌∙◌, true, false, Bool-cases, ◌⊎◌, inl, inr, none, some, Text, find,
  length, leb, arith, Exn, runtime_error, integrity_error, Result, ok, pure, ◌>>◌, bind-ok, err,
}
use concertpvr.Models.{Db, WatchSubscription}
use concertpvr.Pool.{start, is_recording}
use concertpvr.Pool.Bounds.{IsPool, stop-missing}
use concertpvr.Pool.Starter.{
  Live, in_db, live_recording, start_buffer_recording, start_buffer_recording_full,
  start_buffer_recording_lem,
}
use concertpvr.Streams.Subscriptions.{HasNull, subscribe-cases}
use concertpvr.Streams.Api.{
  Patch, no_stream, subscription_of, subscribe, refused, follow, patch_watch,
}

abbrev pub too_many : Exn
too_many = refused runtime_error

module _ (n : ℕ) (stream_dir : ℕ → Text) (rec_id now id : ℕ) where
  -- What a refused start leaves.
  abbrev pub IsRefused : Live → Live → Type 0
  IsRefused w w' =
      (leb w.pool.max_concurrent (length w.pool.workers) ≡ true)
      × (find rec_id w'.db.recordings ≡ some (live_recording id now (stream_dir id) true))
      × (is_recording id w'.pool ≡ false)

  follow-cases :
      (s : WatchSubscription) (w : Live)
      → IsPool n w.pool
      → find rec_id w.db.recordings ≡ none
      → let (r, w') = follow stream_dir rec_id now id s w in
        (w'.db.subscriptions ≡ w.db.subscriptions)
        × (((r ≡ ok tt) × (is_recording id w'.pool ≡ s.enabled))
            ⊎ ((r ≡ err too_many) × IsRefused w w'))
  unfolding follow start_buffer_recording start is_recording
  follow-cases s w h fresh = elim (Bool-cases s.enabled) [
    | inl on ↦ elim (Bool-cases (is_recording id w.pool)) [
      | inl busy ↦ (ground arith, inl (ground arith, ground arith))
      | inr idle ↦ elim (Bool-cases (leb w.pool.max_concurrent (length w.pool.workers))) [
        | inl full ↦
            let left = start_buffer_recording_full stream_dir rec_id now id w fresh idle full in
            (
              ground arith,
              inr (ground (arith, left.0), (full, ground (arith, left.1), ground (arith, left.2))),
            )
        | inr room ↦
            let left = start_buffer_recording_lem stream_dir rec_id now id w fresh idle room in
            (ground arith, inl (ground (arith, left.0), ground (arith, left.2)))
      ]
    ]
    | inr off ↦ elim (Bool-cases (is_recording id w.pool)) [
      | inl busy ↦ (ground arith, inl (ground arith, ground (arith, stop-missing n id w.pool h)))
      | inr idle ↦ (ground arith, inl (ground arith, ground arith))
    ]
  ]

  -- The three ways in which a patch raises.
  abbrev pub IsError : Patch → Live → Exn → Live → Type 0
  IsError patch w e w' =
      ((e ≡ no_stream) × (find id w.db.streams ≡ none) × (w' ≡ w))
      ⊎ ((e ≡ integrity_error) × HasNull patch × (w' ≡ w))
      ⊎ ((e ≡ too_many) × IsRefused w w')

  -- The recorder follows the subscription in the answer, which is stored; or the patch raised.
  abbrev pub Ended : Patch → Live → Result WatchSubscription → Live → Type 0
  Ended patch w (ok s) w' =
      (is_recording id w'.pool ≡ s.enabled) × (subscription_of id w'.db.subscriptions ≡ some s)
  Ended patch w (err e) w' = IsError patch w e w'

  abbrev after : WatchSubscription → Result (Unit {0}) × Live → Result WatchSubscription × Live
  after s x = elim x.0 [ ok _ ↦ (ok s, x.1) | err e ↦ (err e, x.1) ]

  after-Ended :
      (patch : Patch) (s : WatchSubscription) (w : Live) (x : Result (Unit {0}) × Live)
      → subscription_of id x.1.db.subscriptions ≡ some s
      → ((x.0 ≡ ok tt) × (is_recording id x.1.pool ≡ s.enabled))
        ⊎ ((x.0 ≡ err too_many) × IsRefused w x.1)
      → let y = after s x in Ended patch w y.0 y.1
  after-Ended patch s w (ok _, w') stored (inl (_, on)) = (on, stored)
  after-Ended patch s w (ok _, w') stored (inr (e, _)) = cc
  after-Ended patch s w (err e, w') stored (inl (e', _)) = cc
  after-Ended patch s w (err e, w') stored (inr (e', left)) = inr (inr (cc, left))

  patch_watch-after :
      (new_id : ℕ) (patch : Patch) (w : Live) (s : WatchSubscription) (db : Db)
      → subscribe new_id id patch w.db ≡ (ok s, db)
      → patch_watch stream_dir new_id rec_id now id patch w
        ≡ after s (follow stream_dir rec_id now id s (record w { db = db }))
  unfolding patch_watch
  patch_watch-after new_id patch w s db e =
      bind-ok (in_db (subscribe new_id id patch)) (λ s. follow stream_dir rec_id now id s >> pure s)
        w (record w { db = db }) s (ap (λ x. (x.0, record w { db = x.1 })) e)

  patch_watch-raise :
      (new_id : ℕ) (patch : Patch) (w : Live) (e : Exn)
      → subscribe new_id id patch w.db ≡ (err e, w.db)
      → patch_watch stream_dir new_id rec_id now id patch w ≡ (err e, w)
  unfolding patch_watch
  patch_watch-raise new_id patch w e h = ground (arith, h)

  -- A patch of a subscription, with at most n workers of distinct streams and a key that no recording
  -- has: where it answers, the subscription in the answer is the stored one, and the stream is being
  -- recorded exactly if the subscription is enabled. It raises only where the stream is missing or a
  -- column that refuses null is given null, and then changes nothing, or where the pool is full; then
  -- the answer is 507, the stream is not recorded, and yet a new recording reads as being recorded.
  pub patch_watch-Ended :
      (new_id : ℕ) (patch : Patch) (w : Live)
      → IsPool n w.pool
      → find rec_id w.db.recordings ≡ none
      → let (r, w') = patch_watch stream_dir new_id rec_id now id patch w in Ended patch w r w'
  patch_watch-Ended new_id patch w h fresh =
      let Ends : Result WatchSubscription × Live → Type 0 = λ y. Ended patch w y.0 y.1 in
      elim (subscribe-cases new_id id patch w.db) [
        | inl (e, gone) ↦
            subst Ends (sym (patch_watch-raise new_id patch w no_stream e)) (inl (refl, gone, refl))
        | inr (inl (e, null)) ↦
            subst Ends (sym (patch_watch-raise new_id patch w integrity_error e))
              (inr (inl (refl, null, refl)))
        | inr (inr (s, t, e, stored)) ↦
            let db = record w.db { subscriptions = t } in
            let w1 = record w { db = db } in
            let (kept, ended) = follow-cases s w1 h fresh in
            subst Ends (sym (patch_watch-after new_id patch w s db e)) (
              after-Ended patch s w (follow stream_dir rec_id now id s w1)
                (ap (subscription_of id) kept ∙ stored) ended)
      ]
