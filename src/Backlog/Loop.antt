-- ===== src/Backlog/Loop.antt =====
-- The loop over the batches of a slow refresh in src/concertpvr/backlog_cache.py.
use concertpvr.Prelude.{
  ℕ, ◌≡◌, refl, sym, ap, subst, ◌∙◌, Bool, Bool-cases, Option-cases, true, false, ◌||◌, Option,
  some, List, [], ◌∷◌, ◌++◌, map, Text, find, find-update_self, find-insert_self, contains, discard,
  is_some, arith, inl, inr,
}
use concertpvr.Backlog.Cache.{
  Item, Cache, ProbeResult, Backlog, Tools, Ended, finished, stopped, new_cache, set_row,
  set_or_add_row, items_of, merge, add_results, merge_row, consume_cancel, probe_batches,
}
use concertpvr.Backlog.Batches.{concat}
use concertpvr.Backlog.Merge.{
  Both, Covers, Covers-add, Known, Left, Both-Known, Both-Left, Both-done, probe, fill, member,
  member-append,
}

-- The row of the watcher is there, with these items.
abbrev pub Lists : ℕ → List Item → Backlog → Type 0
Lists wid items b = (c : Cache) × (find wid b.caches ≡ some c) × (c.items_json ≡ some items)

pub Lists-set :
    (wid : ℕ) (items : List Item) (f : Cache → Cache) (b : Backlog)
    → ((c : Cache) → (f c).items_json ≡ c.items_json)
    → Lists wid items b
    → Lists wid items (set_row wid f b)
Lists-set wid items f b same (c, here, e) =
    (f c, find-update_self wid f b.caches c here, same c ∙ e)

Lists-merge :
    (t : Tools) (wid total : ℕ) (items : List Item) (got : List ProbeResult) (b : Backlog)
    → Lists wid items b
    → Lists wid (map (merge got) items) (set_row wid (merge_row t total got) b)
Lists-merge t wid total items got b (c, here, e) = (
  merge_row t total got c,
  find-update_self wid (merge_row t total got) b.caches c here,
  ap (λ o. some (map (merge got) (items_of o))) e,
)

Lists-here :
    (wid : ℕ) (items : List Item) (b : Backlog)
    → Lists wid items b
    → is_some (find wid b.caches) ≡ true
Lists-here wid items b (c, here, e) = ap is_some here

pub set_or_add_row-found :
    (wid : ℕ) (f : Cache → Cache) (b : Backlog)
    → (c : Cache) × (find wid (set_or_add_row wid f b).caches ≡ some (f c))
set_or_add_row-found wid f b = elim (Option-cases (find wid b.caches)) [
  | inl missing ↦ (new_cache, ground (arith, find-insert_self wid (f new_cache) b.caches missing))
  | inr (c, here) ↦ (c, ground (arith, find-update_self wid f b.caches c here))
]

in_batch :
    (done batch : List Text) (yid : Text)
    → member yid batch ≡ true
    → member yid (done ++ batch) ≡ true
in_batch done batch yid h = member-append yid done batch ∙ or_true (member yid done) h
  where
    or_true : {b : Bool} (a : Bool) → b ≡ true → (a || b) ≡ true
    or_true true h = refl
    or_true false h = h

-- What runs during an await leaves the database and the cache rows, and may ask for cancels.
abbrev pub IsAside : (List Text → Backlog → Backlog) → Type 0
IsAside away =
    (ids : List Text) (b : Backlog) → ((away ids b).db ≡ b.db) × ((away ids b).caches ≡ b.caches)

-- Nothing else runs during an await.
abbrev pub IsQuiet : (List Text → Backlog → Backlog) → Type 0
IsQuiet away = (ids : List Text) (b : Backlog) → away ids b ≡ b

pub Lists-away :
    (wid : ℕ) (items : List Item) (ids : List Text) (away : List Text → Backlog → Backlog)
    (b : Backlog)
    → IsAside away
    → Lists wid items b
    → Lists wid items (away ids b)
Lists-away wid items ids away b aside (c, here, e) = (c, ap (find wid) (aside ids b).1 ∙ here, e)

pub IsQuiet-IsAside : (away : List Text → Backlog → Backlog) → IsQuiet away → IsAside away
IsQuiet-IsAside away quiet ids b =
    (ap (λ (x : Backlog). x.db) (quiet ids b), ap (λ (x : Backlog). x.caches) (quiet ids b))

module _ (t : Tools) (away : List Text → Backlog → Backlog) (wid total : ℕ)
    (cookies : Option Text) where
  merged : List Text → List ProbeResult → Backlog → Backlog
  merged batch got b =
      set_row wid (merge_row t total (add_results (map (probe t cookies) batch) got)) (away batch b)

  probe_batches-next :
      (batch : List Text) (rest : List (List Text)) (got : List ProbeResult) (b : Backlog)
      → contains wid b.cancel_requests ≡ false
      → is_some (find wid (away batch b).caches) ≡ true
      → probe_batches t away wid total cookies (batch ∷ rest) got b
        ≡ probe_batches t away wid total cookies rest
            (add_results (map (probe t cookies) batch) got)
            (merged batch got b)
  unfolding probe_batches consume_cancel merged
  probe_batches-next batch rest got b go here = rw go (rw here refl)

  probe_batches-stopped :
      (batch : List Text) (rest : List (List Text)) (got : List ProbeResult) (b : Backlog)
      → contains wid b.cancel_requests ≡ true
      → probe_batches t away wid total cookies (batch ∷ rest) got b
        ≡ (stopped, record b { cancel_requests = discard wid b.cancel_requests })
  unfolding probe_batches consume_cancel
  probe_batches-stopped batch rest got b stop = rw stop refl

  -- Without a cancel the loop goes through all batches, and then every item has its counts.
  abbrev pub Settled : List Item → Backlog → Ended × Backlog → Type 0
  Settled flats b (ended, b') =
      (ended ≡ finished) × (b'.db ≡ b.db) × Lists wid (map (fill t cookies) flats) b'

  pub probe_batches-Settled :
      (rest : List (List Text)) (done : List Text) (got : List ProbeResult) (flats is : List Item)
      (b : Backlog)
      → IsQuiet away
      → contains wid b.cancel_requests ≡ false
      → Covers t cookies done got
      → Both (Left t cookies (concat rest)) flats is
      → Lists wid is b
      → Settled flats b (probe_batches t away wid total cookies rest got b)
  unfolding probe_batches merged
  probe_batches-Settled [] done got flats is b quiet go cov left (c, here, e) =
      (refl, refl, (c, here, e ∙ ap some (Both-done t cookies flats is left)))
  probe_batches-Settled (batch ∷ rest) done got flats is b quiet go cov left lists =
      let got' = add_results (map (probe t cookies) batch) got in
      let cov' = Covers-add t cookies batch done got cov in
      let lists' = Lists-away wid is batch away b (IsQuiet-IsAside away quiet) lists in
      let ih =
        probe_batches-Settled rest (done ++ batch) got' flats (map (merge got') is)
          (merged batch got b) quiet
          (ap (λ (x : Backlog). contains wid x.cancel_requests) (quiet batch b) ∙ go) cov'
          (Both-Left t cookies (done ++ batch) got' cov' batch (concat rest) flats is
            (in_batch done batch) left)
          (Lists-merge t wid total is got' (away batch b) lists') in
      subst (Settled flats b)
        (sym (probe_batches-next batch rest got b go (Lists-here wid is (away batch b) lists')))
        (ih.0, ih.1 ∙ (IsQuiet-IsAside away quiet batch b).0, ih.2)

  -- Whatever runs meanwhile, the items stay those of the list, some of them with their counts.
  abbrev pub Partly : List Item → Backlog → Ended × Backlog → Type 0
  Partly flats b (_, b') =
      (b'.db ≡ b.db) × ((is : List Item) × Lists wid is b' × Both (Known t cookies) flats is)

  pub probe_batches-Partly :
      (rest : List (List Text)) (done : List Text) (got : List ProbeResult) (flats is : List Item)
      (b : Backlog)
      → IsAside away
      → Covers t cookies done got
      → Both (Known t cookies) flats is
      → Lists wid is b
      → Partly flats b (probe_batches t away wid total cookies rest got b)
  unfolding probe_batches merged
  probe_batches-Partly [] done got flats is b aside cov known lists = (refl, (is, lists, known))
  probe_batches-Partly (batch ∷ rest) done got flats is b aside cov known lists =
      elim (Bool-cases (contains wid b.cancel_requests)) [
        | inl stop ↦
            subst (Partly flats b) (sym (probe_batches-stopped batch rest got b stop))
              (refl, (is, lists, known))
        | inr go ↦
            let got' = add_results (map (probe t cookies) batch) got in
            let cov' = Covers-add t cookies batch done got cov in
            let lists' = Lists-away wid is batch away b aside lists in
            let ih =
              probe_batches-Partly rest (done ++ batch) got' flats (map (merge got') is)
                (merged batch got b) aside cov'
                (Both-Known t cookies (done ++ batch) got' cov' flats is known)
                (Lists-merge t wid total is got' (away batch b) lists') in
            subst (Partly flats b)
              (sym
                (probe_batches-next batch rest got b go (Lists-here wid is (away batch b) lists')))
              (ih.0 ∙ (aside batch b).0, ih.1)
      ]
