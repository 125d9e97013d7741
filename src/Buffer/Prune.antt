-- ===== src/Buffer/Prune.antt =====
-- What the retention of the subscriptions removes.
use concertpvr.Prelude.{
  ℕ, ◌≡◌, refl, sym, subst, ap, ◌∙◌, Bool, true, not, List, [], ◌∷◌, all, All, arith, inl, inr,
  Result-cases, select, Result, ok, err, Exn,
}
use concertpvr.Models.{WatchSubscription}
use concertpvr.Buffer.{Fragment, bytes, is_expired, prune_older_than, prune_all}

-- Where every expired fragment of a stream can be removed, a pruning removes these and no others, and
-- answers with their bytes.
pub prune_older_than_lem :
    (now id days : ℕ) (ps : List Fragment)
    → all (λ p. p.removable) (select (is_expired now id days) ps) ≡ true
    → prune_older_than now id days ps ≡ (
      ok (bytes (select (is_expired now id days) ps)),
      select (λ p. not (is_expired now id days p)) ps,
    )
unfolding prune_older_than
prune_older_than_lem now id days [] h = refl
prune_older_than_lem now id days (p ∷ ps) h = ground (arith, prune_older_than_lem now id days ps)

-- No fragment of the stream is over its age.
abbrev pub fresh : ℕ → WatchSubscription → Fragment → Bool
fresh now sub p = not (is_expired now sub.stream_id sub.retention_days p)

prune_keeps :
    (f : Fragment → Bool) (now id days : ℕ) (ps : List Fragment)
    → all f ps ≡ true
    → all f (prune_older_than now id days ps).1 ≡ true
unfolding prune_older_than
prune_keeps f now id days [] h = refl
prune_keeps f now id days (p ∷ ps) h = ground (arith, prune_keeps f now id days ps)

prune_older_than-fresh :
    (now : ℕ) (sub : WatchSubscription) (ps : List Fragment) (n : ℕ)
    → (prune_older_than now sub.stream_id sub.retention_days ps).0 ≡ ok n
    → all (fresh now sub) (prune_older_than now sub.stream_id sub.retention_days ps).1 ≡ true
unfolding prune_older_than
prune_older_than-fresh now sub [] n e = refl
prune_older_than-fresh now sub (p ∷ ps) n e =
    elim (Result-cases (prune_older_than now sub.stream_id sub.retention_days ps).0) [
      | inl (m, ok_rest) ↦ ground (arith, prune_older_than-fresh now sub ps m ok_rest)
      | inr (x, failed_rest) ↦ ground (arith, failed_rest)
    ]

prune_all_keeps :
    (f : Fragment → Bool) (now : ℕ) (subs : List WatchSubscription) (ps : List Fragment)
    → all f ps ≡ true
    → all f (prune_all now subs ps).1 ≡ true
unfolding prune_all
prune_all_keeps f now [] ps h = h
prune_all_keeps f now (sub ∷ subs) ps h =
    let kept = prune_keeps f now sub.stream_id sub.retention_days ps h in
    elim (Result-cases (prune_older_than now sub.stream_id sub.retention_days ps).0) [
      | inl (n, e) ↦ ground (
        arith,
        e,
        kept,
        prune_all_keeps f now subs (prune_older_than now sub.stream_id sub.retention_days ps).1,
      )
      | inr (x, e) ↦ ground (arith, e, kept)
    ]

prune_all-next :
    (now : ℕ) (sub : WatchSubscription) (subs : List WatchSubscription) (ps : List Fragment) (n : ℕ)
    → (prune_older_than now sub.stream_id sub.retention_days ps).0 ≡ ok n
    → prune_all now (sub ∷ subs) ps
      ≡ prune_all now subs (prune_older_than now sub.stream_id sub.retention_days ps).1
unfolding prune_all
prune_all-next now sub subs ps n e = ground (arith, e)

prune_all-failed :
    (now : ℕ) (sub : WatchSubscription) (subs : List WatchSubscription) (ps : List Fragment)
    (x : Exn)
    → (prune_older_than now sub.stream_id sub.retention_days ps).0 ≡ err x
    → (prune_all now (sub ∷ subs) ps).0 ≡ err x
unfolding prune_all
prune_all-failed now sub subs ps x e = ground (arith, e)

err_ok : (x : Exn) (r : Result (Unit {0})) → r ≡ err x → r ≡ ok tt → ⊥
err_ok x r e e' = cc

-- Once the pruning of all subscriptions has returned, no fragment of a subscribed stream is over the
-- age of the subscription.
pub prune_all_lem :
    (now : ℕ) (subs : List WatchSubscription) (ps : List Fragment)
    → (prune_all now subs ps).0 ≡ ok tt
    → All (λ sub. all (fresh now sub) (prune_all now subs ps).1 ≡ true) subs
unfolding prune_all
prune_all_lem now [] ps e = tt
prune_all_lem now (sub ∷ subs) ps e =
    elim (Result-cases (prune_older_than now sub.stream_id sub.retention_days ps).0) [
      | inl (n, done) ↦
          let step = prune_all-next now sub subs ps n done in
          let ps' = (prune_older_than now sub.stream_id sub.retention_days ps).1 in
          subst
            (λ r.
              (all (fresh now sub) r.1 ≡ true) × All (λ sub'. all (fresh now sub') r.1 ≡ true) subs)
            (sym step)
            (
              prune_all_keeps (fresh now sub) now subs ps'
                  (prune_older_than-fresh now sub ps n done),
              prune_all_lem now subs ps' (sym (ap (λ r. r.0) step) ∙ e),
            )
      | inr (x, failed) ↦
          absurd (
            err_ok x (prune_all now (sub ∷ subs) ps).0 (prune_all-failed now sub subs ps x failed)
              e)
    ]
