-- ===== src/Backlog/Views.antt =====
-- The second step of a slow refresh in src/concertpvr/backlog_cache.py: the probes of the videos.
use concertpvr.Prelude.{
  ℕ, ◌≡◌, refl, sym, subst, ◌∙◌, Bool-cases, true, false, some, List, [], ◌∷◌, map, Text, All,
  length, find, find-update_self, ◌-◌, contains, is_empty, arith, inl, inr, if◌then◌else◌,
}
use concertpvr.Vod.Handler.{cookies_of}
use concertpvr.Backlog.Cache.{
  Item, Cache, CacheStatus, complete, fetching, is_probed, BroadcastInfo, Backlog, Tools, Ended,
  finished, stopped, row_gone, set_row, item_of, finish, close, probe_batches, probe_views,
  unprobed, batches,
}
use concertpvr.Backlog.Batches.{concat-batches}
use concertpvr.Backlog.Merge.{Both, Known, Left, Both-done, Both-unprobed, fill}
use concertpvr.Backlog.Loop.{
  Lists, Lists-set, IsAside, IsQuiet, Settled, probe_batches-Settled, probe_batches-Partly,
}

pub items-unprobed :
    (infos : List BroadcastInfo) → All (λ f. is_probed f ≡ false) (map item_of infos)
unfolding is_probed
items-unprobed [] = tt
items-unprobed (i ∷ infos) = (refl, items-unprobed infos)

empty-nil : (ids : List Text) → is_empty ids ≡ true → ids ≡ []
empty-nil [] h = refl
empty-nil (id ∷ ids) h = cc

module _ (t : Tools) (wid : ℕ) where
  -- The row is complete, with these items.
  abbrev pub IsListed : List Item → Backlog → Type 0
  IsListed items b =
      (c : Cache) × (find wid b.caches ≡ some c)
      × (c.status ≡ complete)
      × (c.items_json ≡ some items)

  IsListed-finish :
      (items : List Item) (b : Backlog)
      → Lists wid items b
      → IsListed items (set_row wid (finish t) b)
  IsListed-finish items b (c, here, e) =
      (finish t c, find-update_self wid (finish t) b.caches c here, refl, e)

  close-Lists :
      (ended : Ended) (items : List Item) (b : Backlog)
      → Lists wid items b
      → Lists wid items (close t wid ended b)
  close-Lists finished items b h = Lists-set wid items (finish t) b (λ _. refl) h
  close-Lists stopped items b h =
      Lists-set wid items (λ c. record c { status = CacheStatus.cancelled }) b (λ _. refl) h
  close-Lists row_gone items b h = h

  started : List Item → Backlog → Backlog
  started is b =
      let pct =
        if is_empty is then 0 else t.percent (length is - length (unprobed is)) (length is) in
      set_row wid (λ c. record c { status = fetching; progress_pct = pct }) b

  started-Lists : (is : List Item) (b : Backlog) → Lists wid is b → Lists wid is (started is b)
  unfolding started
  started-Lists is b h =
      let pct =
        if is_empty is then 0 else t.percent (length is - length (unprobed is)) (length is) in
      Lists-set wid is (λ c. record c { status = fetching; progress_pct = pct }) b (λ _. refl) h

  module _ (away : List Text → Backlog → Backlog) where
    looped : List Item → Backlog → Ended × Backlog
    looped is b =
        probe_batches t away wid (length is) (cookies_of b.db.settings)
          (batches (length (unprobed is)) (unprobed is)) [] (started is b)

    probe_views-none :
        (is : List Item) (b : Backlog)
        → is_empty (unprobed is) ≡ true
        → probe_views t away wid is b ≡ set_row wid (finish t) (started is b)
    unfolding probe_views started
    probe_views-none is b h = rw h refl

    probe_views-some :
        (is : List Item) (b : Backlog)
        → is_empty (unprobed is) ≡ false
        → probe_views t away wid is b ≡ close t wid (looped is b).0 (looped is b).1
    unfolding probe_views started looped
    probe_views-some is b h = rw h refl

    -- What the second step leaves where nothing interferes, and where anything may.
    abbrev pub Complete : List Item → Backlog → Backlog → Type 0
    Complete flats b b' =
        (b'.db ≡ b.db) × IsListed (map (fill t (cookies_of b.db.settings)) flats) b'

    abbrev pub Partial : List Item → Backlog → Backlog → Type 0
    Partial flats b b' =
        (b'.db ≡ b.db)
        × ((is : List Item) × Lists wid is b' × Both (Known t (cookies_of b.db.settings)) flats is)

    closed-Complete :
        (flats : List Item) (b : Backlog) (total : ℕ) (r : Ended × Backlog)
        → Settled t away wid total (cookies_of b.db.settings) flats b r
        → Complete flats b (close t wid r.0 r.1)
    closed-Complete flats b total (finished, b') (_, same, lists) =
        (same, IsListed-finish (map (fill t (cookies_of b.db.settings)) flats) b' lists)
    closed-Complete flats b total (stopped, b') (e, same, lists) = cc
    closed-Complete flats b total (row_gone, b') (e, same, lists) = cc

    close-db : (ended : Ended) (b : Backlog) → (close t wid ended b).db ≡ b.db
    close-db finished b = refl
    close-db stopped b = refl
    close-db row_gone b = refl

    pub probe_views-Complete :
        (flats is : List Item) (b : Backlog)
        → IsQuiet away
        → contains wid b.cancel_requests ≡ false
        → All (λ f. is_probed f ≡ false) flats
        → Both (Known t (cookies_of b.db.settings)) flats is
        → Lists wid is b
        → Complete flats b (probe_views t away wid is b)
    unfolding started looped
    probe_views-Complete flats is b quiet go bare known lists =
        let cookies = cookies_of b.db.settings in
        let left = Both-unprobed t cookies flats is bare known in
        elim (Bool-cases (is_empty (unprobed is))) [
          | inl none_left ↦ subst (Complete flats b) (sym (probe_views-none is b none_left)) (
            refl,
            IsListed-finish (map (fill t cookies) flats) (started is b) (
                subst (λ x. Lists wid x (started is b))
                  (Both-done t cookies flats is (
                    subst (λ ids. Both (Left t cookies ids) flats is)
                      (empty-nil (unprobed is) none_left) left))
                  (started-Lists is b lists)),
          )
          | inr some_left ↦ subst (Complete flats b) (sym (probe_views-some is b some_left)) (
              closed-Complete flats b (length is) (looped is b) (
                probe_batches-Settled t away wid (length is) cookies
                  (batches (length (unprobed is)) (unprobed is)) [] [] flats is (started is b) quiet
                  go (λ _. refl)
                  (subst (λ ids. Both (Left t cookies ids) flats is)
                    (sym (concat-batches (length (unprobed is)) (unprobed is) (omega arith))) left)
                  (started-Lists is b lists)))
        ]

    pub probe_views-Partial :
        (flats is : List Item) (b : Backlog)
        → IsAside away
        → Both (Known t (cookies_of b.db.settings)) flats is
        → Lists wid is b
        → Partial flats b (probe_views t away wid is b)
    unfolding started looped
    probe_views-Partial flats is b aside known lists = elim (Bool-cases (is_empty (unprobed is))) [
      | inl none_left ↦
          subst (Partial flats b) (sym (probe_views-none is b none_left))
            (refl, (is, close-Lists finished is (started is b) (started-Lists is b lists), known))
      | inr some_left ↦
          let cookies = cookies_of b.db.settings in
          let r = looped is b in
          let (same, (is', lists', known')) =
            probe_batches-Partly t away wid (length is) cookies
              (batches (length (unprobed is)) (unprobed is)) [] [] flats is (started is b) aside
              (λ _. refl) known (started-Lists is b lists) in
          subst (Partial flats b) (sym (probe_views-some is b some_left))
            (close-db r.0 r.1 ∙ same, (is', close-Lists r.0 is' r.1 lists', known'))
    ]
