-- ===== src/Backlog/Resume.antt =====
-- What slow refreshes of src/concertpvr/backlog_cache.py leave in the cache, cancelled or not.
use concertpvr.Prelude.{
  bind-ok, pure, modify, ◌>>◌, ℕ, ◌≡◌, refl, sym, ap, subst, ◌∙◌, Bool-cases, true, false, Option,
  none, some, List, [], ◌∷◌, map, Text, ok, All, length, find, contains, arith, inl, inr, ◌⊎◌,
}
use concertpvr.Models.{Db, ChannelWatcher}
use concertpvr.Vod.Handler.{cookies_of}
use concertpvr.Backlog.Cache.{
  Item, BroadcastInfo, Backlog, Tools, set_row, set_or_add_row, begin, resumed, item_of, row_items,
  is_resumable, listed, probe_views, probe_listed, first_step, fetch_full_channel,
  fetch_full_channel_with_views,
}
use concertpvr.Backlog.Merge.{Both, Known, fill}
use concertpvr.Backlog.Loop.{
  Lists, Lists-set, set_or_add_row-found, IsAside, IsQuiet, IsQuiet-IsAside,
}
use concertpvr.Backlog.Views.{items-unprobed, IsListed, probe_views-Complete, probe_views-Partial}

Both-self : (t : Tools) (cookies : Option Text) (is : List Item) → Both (Known t cookies) is is
Both-self t cookies [] = tt
Both-self t cookies (i ∷ is) = (inl refl, Both-self t cookies is)

module _ (t : Tools) (wid : ℕ) (w : ChannelWatcher) (infos : List BroadcastInfo) (db : Db) where
  flats : List Item
  flats = map item_of infos

  -- The watcher is there, and its channel can be listed.
  abbrev IsListable : Type 0
  IsListable =
      (find wid db.watchers ≡ some w)
      × (t.list_all_uploads w.channel_url (cookies_of db.settings) ≡ ok infos)

  -- A row that a refresh would resume from holds the list, some of it with counts.
  abbrev IsReady : Backlog → Type 0
  IsReady b =
      (b.db ≡ db)
      × ((is_resumable (find wid b.caches) ≡ false)
          ⊎ ((is : List Item) × Lists wid is b × Both (Known t (cookies_of db.settings)) flats is))

  module _ (away : List Text → Backlog → Backlog) where
    begun : Backlog → Backlog
    begun b = away [] (set_or_add_row wid begin b)

    fetched : Backlog → Backlog
    fetched b = set_or_add_row wid (listed t.now flats) (begun b)

    fetch_full_channel_lem :
        (b : Backlog)
        → IsListable
        → b.db ≡ db
        → fetch_full_channel t away wid b ≡ (ok (length infos), fetched b)
    unfolding fetch_full_channel fetched begun flats
    fetch_full_channel_lem b (there, can) same =
        let there' = ap (λ (d : Db). find wid d.watchers) same ∙ there in
        let can' =
          ap (λ (d : Db). t.list_all_uploads w.channel_url (cookies_of d.settings)) same ∙ can in
        ground arith

    first_step-resumed :
        (b : Backlog)
        → is_resumable (find wid b.caches) ≡ true
        → first_step t away wid b
          ≡ (ok (length (row_items (find wid b.caches))), set_row wid resumed b)
    first_step-resumed b h = rw h refl

    first_step-fetched :
        (b : Backlog)
        → is_resumable (find wid b.caches) ≡ false
        → first_step t away wid b ≡ fetch_full_channel t away wid b
    first_step-fetched b h = rw h refl

    with_views :
        (b b1 : Backlog) (n : ℕ) (is : List Item)
        → first_step t away wid b ≡ (ok n, b1)
        → Lists wid is b1
        → fetch_full_channel_with_views t away wid b ≡ (ok n, probe_views t away wid is b1)
    unfolding fetch_full_channel_with_views
    with_views b b1 n is h (c, here, e) =
        bind-ok (first_step t away wid)
          (λ count. modify (λ x. probe_listed t away wid (find wid x.caches) x) >> pure count) b b1
          n h
        ∙ ap (λ o. (ok n, probe_listed t away wid o b1)) here
        ∙ ap (λ o. (ok n, elim o [ none ↦ b1 | some items ↦ probe_views t away wid items b1 ])) e

    fetched-Lists : (b : Backlog) → Lists wid flats (fetched b)
    unfolding fetched flats
    fetched-Lists b =
        let (c, here) = set_or_add_row-found wid (listed t.now (map item_of infos)) (begun b) in
        (listed t.now (map item_of infos) c, here, refl)

    resumed-Lists :
        (is : List Item) (b : Backlog) → Lists wid is b → Lists wid is (set_row wid resumed b)
    resumed-Lists is b h = Lists-set wid is resumed b (λ _. refl) h

    -- The first step leaves a list, some of it with counts.
    abbrev FirstStep : Backlog → Type 0
    FirstStep b =
        (n : ℕ) × (b1 : Backlog) × (is : List Item) × (first_step t away wid b ≡ (ok n, b1))
        × (b1.db ≡ db)
        × Lists wid is b1
        × Both (Known t (cookies_of db.settings)) flats is
        × ((b1 ≡ fetched b) ⊎ (b1 ≡ set_row wid resumed b))

    FirstStep-new :
        IsListable
        → IsAside away
        → (b : Backlog) → b.db ≡ db
        → is_resumable (find wid b.caches) ≡ false
        → FirstStep b
    unfolding flats fetched begun
    FirstStep-new can aside b same fresh = (
      length infos,
      fetched b,
      flats,
      first_step-fetched b fresh ∙ fetch_full_channel_lem b can same,
      (aside [] (set_or_add_row wid begin b)).0 ∙ same,
      fetched-Lists b,
      Both-self t (cookies_of db.settings) flats,
      inl refl,
    )

    FirstStep-ready : IsListable → IsAside away → (b : Backlog) → IsReady b → FirstStep b
    unfolding flats
    FirstStep-ready can aside b (same, inl fresh) = FirstStep-new can aside b same fresh
    FirstStep-ready can aside b (same, inr (is, lists, known)) =
        elim (Bool-cases (is_resumable (find wid b.caches))) [
          | inr fresh ↦ FirstStep-new can aside b same fresh
          | inl kept ↦ (
            length (row_items (find wid b.caches)),
            set_row wid resumed b,
            is,
            first_step-resumed b kept,
            same,
            resumed-Lists is b lists,
            known,
            inr refl,
          )
        ]

    not_pending :
        (b b1 : Backlog)
        → IsQuiet away
        → (b1 ≡ fetched b) ⊎ (b1 ≡ set_row wid resumed b)
        → contains wid b.cancel_requests ≡ false
        → contains wid b1.cancel_requests ≡ false
    unfolding fetched begun
    not_pending b b1 quiet (inl e) go =
        ap (λ (x : Backlog). contains wid x.cancel_requests) e
        ∙ ap (λ (x : Backlog). contains wid x.cancel_requests)
            (quiet [] (set_or_add_row wid begin b))
        ∙ go
    not_pending b b1 quiet (inr e) go = ap (λ (x : Backlog). contains wid x.cancel_requests) e ∙ go

    -- Whatever runs meanwhile, a slow refresh leaves a row to resume from.
    refresh-IsReady :
        IsListable
        → IsAside away
        → (b : Backlog) → IsReady b
        → IsReady (fetch_full_channel_with_views t away wid b).1
    refresh-IsReady can aside b ready =
        let (n, b1, is, h, same, lists, known, _) = FirstStep-ready can aside b ready in
        let known1 =
          subst (λ (d : Db). Both (Known t (cookies_of d.settings)) flats is) (sym same) known in
        let (same', (is', lists', known')) =
          probe_views-Partial t wid away flats is b1 aside known1 lists in
        subst IsReady (sym (ap (λ r. r.1) (with_views b b1 n is h lists))) (
          same' ∙ same,
          inr (
            is',
            lists',
            subst (λ (d : Db). Both (Known t (cookies_of d.settings)) flats is') same known',
          ),
        )

    refresh-IsListed :
        IsListable
        → IsQuiet away
        → (b : Backlog) → IsReady b
        → contains wid b.cancel_requests ≡ false
        → IsListed t wid
            (map (fill t (cookies_of db.settings)) flats)
            (fetch_full_channel_with_views t away wid b).1
    unfolding flats
    refresh-IsListed can quiet b ready go =
        let aside = IsQuiet-IsAside away quiet in
        let (n, b1, is, h, same, lists, known, from) = FirstStep-ready can aside b ready in
        let known1 =
          subst (λ (d : Db). Both (Known t (cookies_of d.settings)) flats is) (sym same) known in
        let (_, done) =
          probe_views-Complete t wid away flats is b1 quiet (not_pending b b1 quiet from go)
            (items-unprobed infos) known1 lists in
        subst (IsListed t wid (map (fill t (cookies_of db.settings)) flats))
          (sym (ap (λ r. r.1) (with_views b b1 n is h lists)))
          (subst
            (λ (d : Db).
              IsListed t wid (map (fill t (cookies_of d.settings)) flats)
                (probe_views t away wid is b1))
            same done)

-- Slow refreshes of a watcher one after the other, with what runs during their awaits.
unfoldable pub refresh_all : Tools → ℕ → List (List Text → Backlog → Backlog) → Backlog → Backlog
refresh_all t wid [] b = b
refresh_all t wid (away ∷ aways) b =
    refresh_all t wid aways (fetch_full_channel_with_views t away wid b).1

refresh_all-IsReady :
    (t : Tools) (wid : ℕ) (w : ChannelWatcher) (infos : List BroadcastInfo) (db : Db)
    (aways : List (List Text → Backlog → Backlog)) (b : Backlog)
    → IsListable t wid w infos db
    → All IsAside aways
    → IsReady t wid w infos db b
    → IsReady t wid w infos db (refresh_all t wid aways b)
unfolding refresh_all
refresh_all-IsReady t wid w infos db [] b can asides ready = ready
refresh_all-IsReady t wid w infos db (away ∷ aways) b can (aside, asides) ready =
    refresh_all-IsReady t wid w infos db aways (fetch_full_channel_with_views t away wid b).1 can
      asides (refresh-IsReady t wid w infos db away can aside b ready)

-- Where the row of a watcher is not one to resume from, the channel's list can be had, and yt-dlp answers
-- the same in every refresh, while other tasks leave the database and the cache rows alone: however many
-- slow refreshes of the watcher are cancelled, and whenever the cancels come, the next one, with no cancel
-- pending before it nor coming during it, ends with the row complete, and in it the items of the channel's
-- list, in order and each with the counts of its video: the same as without any cancel.
pub refresh_all-IsListed :
    (t : Tools) (wid : ℕ) (w : ChannelWatcher) (infos : List BroadcastInfo)
    (aways : List (List Text → Backlog → Backlog)) (away : List Text → Backlog → Backlog)
    (b : Backlog)
    → find wid b.db.watchers ≡ some w
    → t.list_all_uploads w.channel_url (cookies_of b.db.settings) ≡ ok infos
    → is_resumable (find wid b.caches) ≡ false
    → All IsAside aways
    → IsQuiet away
    → contains wid (refresh_all t wid aways b).cancel_requests ≡ false
    → IsListed t wid
        (map (fill t (cookies_of b.db.settings)) (map item_of infos))
        (fetch_full_channel_with_views t away wid (refresh_all t wid aways b)).1
unfolding flats
refresh_all-IsListed t wid w infos aways away b there can fresh asides quiet go =
    refresh-IsListed t wid w infos b.db away (there, can) quiet (refresh_all t wid aways b)
      (refresh_all-IsReady t wid w infos b.db aways b (there, can) asides (refl, inl fresh)) go
