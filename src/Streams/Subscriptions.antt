-- ===== src/Streams/Subscriptions.antt =====
-- How a patch of a subscription in src/concertpvr/api/streams.py is stored.
use concertpvr.Prelude.{
  ℕ, ◌≡◌, refl, ap, ◌∙◌, true, ◌⊎◌, inl, inr, Option, none, some, [], ◌∷◌, Table, find, insert,
  ◌==◌, arith, integrity_error, ok, err, changed, changed_null, Option-cases,
}
use concertpvr.Models.{Db, WatchSubscription}
use concertpvr.Streams.Api.{
  Patch, no_stream, subscription_of, set_row, assigned, new_subscription, subscribed, subscribe,
}

-- A null for a column that refuses it.
abbrev pub HasNull : Patch → Type 0
HasNull patch = (patch.enabled ≡ some none) ⊎ (patch.retention_days ≡ some none)

subscription_of-insert :
    (k id : ℕ) (s : WatchSubscription) (t : Table WatchSubscription)
    → (s.stream_id == id) ≡ true
    → subscription_of id t ≡ none
    → subscription_of id (insert k s t) ≡ some s
unfolding subscription_of
subscription_of-insert k id s [] h e = ground arith
subscription_of-insert k id s (r ∷ t) h e = ground (arith, subscription_of-insert k id s t)

subscription_of-set_row :
    (id : ℕ) (old s : WatchSubscription) (t : Table WatchSubscription)
    → (s.stream_id == id) ≡ true
    → subscription_of id t ≡ some old
    → subscription_of id (set_row id s t) ≡ some s
unfolding subscription_of set_row
subscription_of-set_row id old s [] h e = cc
subscription_of-set_row id old s (r ∷ t) h e = ground (arith, subscription_of-set_row id old s t)

subscription_of-stream :
    (id : ℕ) (old : WatchSubscription) (t : Table WatchSubscription)
    → subscription_of id t ≡ some old
    → (old.stream_id == id) ≡ true
unfolding subscription_of
subscription_of-stream id old [] e = cc
subscription_of-stream id old (r ∷ t) e = ground (arith, subscription_of-stream id old t)

changed-cases :
    {A : Type 0} (c : Option (Option A)) (old : A)
    → ((changed c old ≡ none) × (c ≡ some none)) ⊎ ((a : A) × (changed c old ≡ some a))
changed-cases none old = inr (old, refl)
changed-cases (some none) old = inl (refl, refl)
changed-cases (some (some a)) old = inr (a, refl)

-- Assignments keep the stream, and fail for a null only.
assigned-cases :
    (patch : Patch) (old : WatchSubscription)
    → ((assigned patch old ≡ none) × HasNull patch)
      ⊎ ((s : WatchSubscription) × (assigned patch old ≡ some s) × (s.stream_id ≡ old.stream_id))
assigned-cases patch old = elim (changed-cases patch.enabled old.enabled) [
  | inl (fails, null) ↦ inl (rw (fails, assigned) refl, inl null)
  | inr (enabled, e) ↦ elim (changed-cases patch.retention_days old.retention_days) [
    | inl (fails, null) ↦ inl (rw (e, fails, assigned) refl, inr null)
    | inr (days, d) ↦
        let s : WatchSubscription = record old {
          enabled = enabled;
          title_filter = changed_null patch.title_filter old.title_filter;
          quality_cap = changed_null patch.quality_cap old.quality_cap;
          retention_days = days;
        } in
        inr (s, rw (e, d, assigned) refl, refl)
  ]
]

same-key : (id : ℕ) → (id == id) ≡ true
same-key id = ground arith

subscribed-cases :
    (new_id id : ℕ) (patch : Patch) (t : Table WatchSubscription)
    → ((subscribed new_id id patch t ≡ none) × HasNull patch)
      ⊎ ((s : WatchSubscription) × (t' : Table WatchSubscription) × (subscribed new_id id patch t
            ≡ some (s, t'))
          × (subscription_of id t' ≡ some s))
unfolding subscribed
subscribed-cases new_id id patch t = elim (Option-cases (subscription_of id t)) [
  | inl new ↦
      let s = new_subscription id patch in
      inr
        (s, insert new_id s t, ground arith, subscription_of-insert new_id id s t (same-key id) new)
  | inr (old, there) ↦ elim (assigned-cases patch old) [
    | inl (fails, null) ↦ inl (ground arith, null)
    | inr (s, e, same) ↦
        let own = ap (λ k. k == id) same ∙ subscription_of-stream id old t there in
        inr (s, set_row id s t, ground arith, subscription_of-set_row id old s t own there)
  ]
]

-- How a patched subscription is stored, or why not.
pub subscribe-cases :
    (new_id id : ℕ) (patch : Patch) (db : Db)
    → ((subscribe new_id id patch db ≡ (err no_stream, db)) × (find id db.streams ≡ none))
      ⊎ ((subscribe new_id id patch db ≡ (err integrity_error, db)) × HasNull patch)
      ⊎ ((s : WatchSubscription) × (t : Table WatchSubscription) × (subscribe new_id id patch db
            ≡ (ok s, record db { subscriptions = t }))
          × (subscription_of id t ≡ some s))
unfolding subscribe
subscribe-cases new_id id patch db = elim (Option-cases (find id db.streams)) [
  | inl gone ↦ inl (ground arith, gone)
  | inr (st, there) ↦ elim (subscribed-cases new_id id patch db.subscriptions) [
    | inl (fails, null) ↦ inr (inl (ground arith, null))
    | inr (s, t, e, stored) ↦ inr (inr (s, t, ground arith, stored))
  ]
]
