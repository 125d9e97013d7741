-- ===== src/Buffer/Free.antt =====
-- What the pruning of a full disk removes.
use concertpvr.Prelude.{
  ℕ, ◌+◌, ◌<◌, ◌≡◌, refl, sym, subst, Bool, true, false, not, ◌||◌, some, List, [], ◌∷◌, ◌++◌, leb,
  all, arith, inl, inr, Bool-cases,
}
use mathlib.Core.List.{Perm}
use mathlib.Core.List.Perm
use concertpvr.Buffer.{
  Fragment, bytes, by_mtime, list_all_fragments, reclaim, prune_oldest_until_free,
}

-- Either enough is free in the end, or nothing is left that could be removed.
reclaim-enough :
    (target free : ℕ) (ps : List Fragment)
    → (leb target (free + bytes (reclaim target free ps).0)
        || all (λ p. not p.removable) (reclaim target free ps).1)
      ≡ true
unfolding reclaim
reclaim-enough target free [] = ground arith
reclaim-enough target free (p ∷ ps) =
    ground (arith, reclaim-enough target (free + p.size) ps, reclaim-enough target free ps)

-- Without the last one that it removed, there was too little.
reclaim-needed :
    (target free : ℕ) (ps ds : List Fragment) (p : Fragment)
    → (reclaim target free ps).0 ≡ ds ++ p ∷ []
    → free + bytes ds < target
unfolding reclaim
reclaim-needed target free [] [] p e = cc
reclaim-needed target free [] (d ∷ ds) p e = cc
reclaim-needed target free (q ∷ ps) [] p e = ground (arith, reclaim-needed target free ps [] p)
reclaim-needed target free (q ∷ ps) (d ∷ ds) p e =
    ground (
      arith,
      reclaim-needed target (free + q.size) ps ds p,
      reclaim-needed target free ps (d ∷ ds) p,
    )

-- No removed fragment is younger than one that could have been removed and was left.
abbrev pub oldest : List Fragment → Fragment → Bool
oldest kept p = all (λ q. not q.removable || leb p.mtime q.mtime) kept

abbrev StartsAt : ℕ → List Fragment → Type 0
StartsAt time [] = Unit
StartsAt time (p ∷ ps) = (leb time p.mtime ≡ true) × StartsAt time ps

abbrev IsSorted : List Fragment → Type 0
IsSorted [] = Unit
IsSorted (p ∷ ps) = StartsAt p.mtime ps × IsSorted ps

StartsAt-down : (s t : ℕ) (ps : List Fragment) → leb s t ≡ true → StartsAt t ps → StartsAt s ps
StartsAt-down s t [] le h = tt
StartsAt-down s t (p ∷ ps) le h = (ground arith, StartsAt-down s t ps le h.1)

by_mtime-StartsAt :
    (time : ℕ) (p : Fragment) (ps : List Fragment)
    → leb time p.mtime ≡ true
    → StartsAt time ps
    → StartsAt time (by_mtime p ps)
by_mtime-StartsAt time p [] le h = (le, tt)
by_mtime-StartsAt time p (q ∷ ps) le h = ground (arith, by_mtime-StartsAt time p ps le h.1)

by_mtime-IsSorted : (p : Fragment) (ps : List Fragment) → IsSorted ps → IsSorted (by_mtime p ps)
by_mtime-IsSorted p [] h = (tt, tt)
by_mtime-IsSorted p (q ∷ ps) h = elim (Bool-cases (leb p.mtime q.mtime)) [
  | inl le ↦ rw le ((le, StartsAt-down p.mtime q.mtime ps le h.0), h)
  | inr gt ↦ rw gt (by_mtime-StartsAt q.mtime p ps (ground arith) h.0, by_mtime-IsSorted p ps h.1)
]

list_all_fragments-IsSorted : (ps : List Fragment) → IsSorted (list_all_fragments ps)
unfolding list_all_fragments
list_all_fragments-IsSorted [] = tt
list_all_fragments-IsSorted (p ∷ ps) =
    by_mtime-IsSorted p (list_all_fragments ps) (list_all_fragments-IsSorted ps)

StartsAt-all : (p : Fragment) (ps : List Fragment) → StartsAt p.mtime ps → oldest ps p ≡ true
StartsAt-all p [] h = refl
StartsAt-all p (q ∷ ps) h = ground (arith, StartsAt-all p ps h.1)

reclaim-StartsAt :
    (target free time : ℕ) (ps : List Fragment)
    → StartsAt time ps
    → StartsAt time (reclaim target free ps).1
unfolding reclaim
reclaim-StartsAt target free time [] h = tt
reclaim-StartsAt target free time (p ∷ ps) h = ground (
  arith,
  reclaim-StartsAt target (free + p.size) time ps h.1,
  reclaim-StartsAt target free time ps h.1,
)

oldest_skip :
    (q : Fragment) (ks ds : List Fragment)
    → q.removable ≡ false
    → all (oldest ks) ds ≡ true
    → all (oldest (q ∷ ks)) ds ≡ true
oldest_skip q ks [] fixed h = refl
oldest_skip q ks (d ∷ ds) fixed h = ground (arith, oldest_skip q ks ds fixed)

oldest_none : (ks : List Fragment) → all (oldest ks) [] ≡ true
oldest_none ks = refl

reclaim-oldest :
    (target free : ℕ) (ps : List Fragment)
    → IsSorted ps
    → all (oldest (reclaim target free ps).1) (reclaim target free ps).0 ≡ true
unfolding reclaim
reclaim-oldest target free [] h = refl
reclaim-oldest target free (p ∷ ps) h = ground (
  arith,
  StartsAt-all p (reclaim target (free + p.size) ps).1
      (reclaim-StartsAt target (free + p.size) p.mtime ps h.0),
  reclaim-oldest target (free + p.size) ps h.1,
  reclaim-oldest target free ps h.1,
  oldest_skip p (reclaim target free ps).1 (reclaim target free ps).0,
  oldest_none (p ∷ ps),
)

Perm-middle : (p : Fragment) (ds ks : List Fragment) → Perm (ds ++ p ∷ ks) (p ∷ ds ++ ks)
Perm-middle p [] ks = Perm.refl (p ∷ ks)
Perm-middle p (d ∷ ds) ks =
    Perm.trans (Perm.cons d (Perm-middle p ds ks)) (Perm.swap p d (ds ++ ks))

reclaim_stop :
    (target free : ℕ) (p : Fragment) (ps : List Fragment)
    → leb target free ≡ true
    → reclaim target free (p ∷ ps) ≡ ([], p ∷ ps)
unfolding reclaim
reclaim_stop target free p ps enough = ground arith

reclaim_remove :
    (target free : ℕ) (p : Fragment) (ps : List Fragment)
    → leb target free ≡ false
    → p.removable ≡ true
    → reclaim target free (p ∷ ps)
      ≡ (p ∷ (reclaim target (free + p.size) ps).0, (reclaim target (free + p.size) ps).1)
unfolding reclaim
reclaim_remove target free p ps short able = ground arith

reclaim_pass :
    (target free : ℕ) (p : Fragment) (ps : List Fragment)
    → leb target free ≡ false
    → p.removable ≡ false
    → reclaim target free (p ∷ ps) ≡ ((reclaim target free ps).0, p ∷ (reclaim target free ps).1)
unfolding reclaim
reclaim_pass target free p ps short fixed = ground arith

reclaim-Perm :
    (target free : ℕ) (ps : List Fragment)
    → Perm ((reclaim target free ps).0 ++ (reclaim target free ps).1) ps
unfolding reclaim
reclaim-Perm target free [] = Perm.refl []
reclaim-Perm target free (p ∷ ps) = elim (Bool-cases (leb target free)) [
  | inl enough ↦
      subst (λ r. Perm (r.0 ++ r.1) (p ∷ ps)) (sym (reclaim_stop target free p ps enough))
        (Perm.refl (p ∷ ps))
  | inr short ↦ elim (Bool-cases p.removable) [
    | inl able ↦
        subst (λ r. Perm (r.0 ++ r.1) (p ∷ ps)) (sym (reclaim_remove target free p ps short able))
          (Perm.cons p (reclaim-Perm target (free + p.size) ps))
    | inr fixed ↦
        subst (λ r. Perm (r.0 ++ r.1) (p ∷ ps)) (sym (reclaim_pass target free p ps short fixed))
          (Perm.trans (Perm-middle p (reclaim target free ps).0 (reclaim target free ps).1)
            (Perm.cons p (reclaim-Perm target free ps)))
  ]
]

by_mtime-Perm : (p : Fragment) (ps : List Fragment) → Perm (by_mtime p ps) (p ∷ ps)
by_mtime-Perm p [] = Perm.refl (p ∷ [])
by_mtime-Perm p (q ∷ ps) = elim (Bool-cases (leb p.mtime q.mtime)) [
  | inl le ↦ rw le (Perm.refl (p ∷ q ∷ ps))
  | inr gt ↦ rw gt (Perm.trans (Perm.cons q (by_mtime-Perm p ps)) (Perm.swap p q ps))
]

list_all_fragments-Perm : (ps : List Fragment) → Perm (list_all_fragments ps) ps
unfolding list_all_fragments
list_all_fragments-Perm [] = Perm.refl []
list_all_fragments-Perm (p ∷ ps) =
    Perm.trans (by_mtime-Perm p (list_all_fragments ps)) (Perm.cons p (list_all_fragments-Perm ps))

-- Where less than the target is free, pruning splits the fragments into those removed and those left,
-- answers with the bytes of the first, and stops with the target reached or with nothing left that can
-- be removed; no fragment removed is younger than one that could have been removed and was left.
pub prune_oldest_until_free_lem :
    (free target : ℕ) (ps : List Fragment)
    → leb target free ≡ false
    → let (removed, left) = reclaim target free (list_all_fragments ps) in
      (prune_oldest_until_free (some free) target ps ≡ (bytes removed, left))
      × Perm (removed ++ left) ps
      × ((leb target (free + bytes removed) || all (λ p. not p.removable) left) ≡ true)
      × (all (oldest left) removed ≡ true)
unfolding prune_oldest_until_free
prune_oldest_until_free_lem free target ps short = (
  rw short refl,
  Perm.trans (reclaim-Perm target free (list_all_fragments ps)) (list_all_fragments-Perm ps),
  reclaim-enough target free (list_all_fragments ps),
  reclaim-oldest target free (list_all_fragments ps) (list_all_fragments-IsSorted ps),
)

-- Pruning removes no more than it needs: without the last fragment that it removes, less than the
-- target would be free.
pub prune_oldest-needed :
    (free target : ℕ) (ps ds : List Fragment) (p : Fragment)
    → (reclaim target free (list_all_fragments ps)).0 ≡ ds ++ p ∷ []
    → free + bytes ds < target
prune_oldest-needed free target ps ds p e =
    reclaim-needed target free (list_all_fragments ps) ds p e
