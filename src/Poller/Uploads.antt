-- ===== src/Poller/Uploads.antt =====
-- What a check for new uploads adds.
use concertpvr.Prelude.{
  ℕ, ◌≡◌, refl, sym, subst, ap, ◌∙◌, Bool, true, false, ◌||◌, Option, none, some, List, [], ◌∷◌,
  ◌++◌, Text, Table, insert, keys, keys_where, is_some, text_eq, map, arith, inl, inr, Bool-cases,
  append-nil, append_assoc,
}
use concertpvr.Models.{Db, Stream, Recording, ChannelWatcher, is_vod_queued}
use concertpvr.Vod.Queue.{World, job, enqueue, stream_by_youtube_id}
use concertpvr.Poller.{
  Upload, Info, Tools, is_new, is_candidate, stream_of, recording_of, probed, visit, ids_after,
  known_after, visit_all, enqueue_all, check_for_new_vod_uploads, youtube_ids,
}

-- No video has two streams.
abbrev pub IsDistinct : Table Stream → Type 0
IsDistinct [] = Unit
IsDistinct ((_, st) ∷ t) = (is_some (stream_by_youtube_id st.youtube_id t) ≡ false) × IsDistinct t

text_eq_sym : (a b : Text) → text_eq a b ≡ text_eq b a
unfolding text_eq
text_eq_sym [] [] = refl
text_eq_sym [] (d ∷ b) = refl
text_eq_sym (c ∷ a) [] = refl
text_eq_sym (c ∷ a) (d ∷ b) = ground (arith, text_eq_sym a b)

known-insert :
    (yid : Text) (k : ℕ) (st : Stream) (t : Table Stream)
    → text_eq st.youtube_id yid ≡ false
    → is_some (stream_by_youtube_id yid t) ≡ false
    → is_some (stream_by_youtube_id yid (insert k st t)) ≡ false
unfolding stream_by_youtube_id
known-insert yid k st [] ne h = ground arith
known-insert yid k st ((j, s) ∷ t) ne h = ground (arith, known-insert yid k st t ne)

pub IsDistinct-insert :
    (k : ℕ) (st : Stream) (t : Table Stream)
    → IsDistinct t
    → is_some (stream_by_youtube_id st.youtube_id t) ≡ false
    → IsDistinct (insert k st t)
unfolding stream_by_youtube_id
IsDistinct-insert k st [] h new = (refl, tt)
IsDistinct-insert k st ((j, s) ∷ t) h new = elim (Bool-cases (text_eq s.youtube_id st.youtube_id)) [
  | inl same ↦ absurd (ground arith)
  | inr other ↦ (
    known-insert s.youtube_id k st t (text_eq_sym st.youtube_id s.youtube_id ∙ other) h.0,
    IsDistinct-insert k st t h.1 (ground arith),
  )
]

pub keys_where-insert :
    (p : Recording → Bool) (k : ℕ) (a : Recording) (t : Table Recording)
    → p a ≡ true
    → keys_where p (insert k a t) ≡ keys_where p t ++ k ∷ []
keys_where-insert p k a [] h = ground arith
keys_where-insert p k a (e ∷ t) h = ground (arith, keys_where-insert p k a t h)

abbrev pub queued_rows : Db → List ℕ
queued_rows db = keys_where (λ rec. is_vod_queued rec.status) db.recordings

ids_after-append : (a : Option (ℕ × Text)) (ids : List ℕ) → ids_after a [] ++ ids ≡ ids_after a ids
ids_after-append none ids = refl
ids_after-append (some _) ids = refl

pub enqueue_all_lem :
    (ids : List ℕ) (v : World)
    → ((enqueue_all ids v).queue.fifo ≡ v.queue.fifo ++ map job ids)
      × ((enqueue_all ids v).db ≡ v.db)
unfolding enqueue_all enqueue
enqueue_all_lem [] v = (sym (append-nil v.queue.fifo), refl)
enqueue_all_lem (id ∷ ids) v =
    let ih = enqueue_all_lem ids (record v { queue = enqueue id v.queue }) in
    (ih.0 ∙ append_assoc v.queue.fifo (job id ∷ []) (map job ids), ih.1)

module _ (t : Tools) where
  probed-IsDistinct :
      (id : ℕ) (w : ChannelWatcher) (o : Option Info) (db : Db)
      → IsDistinct db.streams
      → IsDistinct (probed t id w o db).1.streams
  probed-IsDistinct id w none db h = h
  probed-IsDistinct id w (some info) db h =
      elim (Bool-cases
        (info.is_live || is_some (stream_by_youtube_id info.youtube_id db.streams))) [
          | inl skipped ↦ rw skipped h
          | inr new ↦ rw new (
              IsDistinct-insert (t.fresh (keys db.streams)) (stream_of t id info) db.streams h
                (ground arith))
        ]

  probed-rows :
      (id : ℕ) (w : ChannelWatcher) (o : Option Info) (db : Db)
      → queued_rows (probed t id w o db).1 ≡ queued_rows db ++ ids_after (probed t id w o db).0 []
  probed-rows id w none db = sym (append-nil (queued_rows db))
  probed-rows id w (some info) db =
      elim (Bool-cases
        (info.is_live || is_some (stream_by_youtube_id info.youtube_id db.streams))) [
          | inl skipped ↦ rw skipped (sym (append-nil (queued_rows db)))
          | inr new ↦ rw new (
              keys_where-insert (λ rec. is_vod_queued rec.status) (t.fresh (keys db.recordings))
                (recording_of t w (t.fresh (keys db.streams)) info) db.recordings refl)
        ]

  visit-IsDistinct :
      (id : ℕ) (w : ChannelWatcher) (known : List Text) (u : Upload) (db : Db)
      → IsDistinct db.streams
      → IsDistinct (visit t id w known u db).1.streams
  visit-IsDistinct id w known u db h = elim (Bool-cases (is_candidate t w known u)) [
    | inl c ↦ rw c (probed-IsDistinct id w (t.probe u.url w.extract_setlist_from_comments) db h)
    | inr c ↦ rw c h
  ]

  visit-rows :
      (id : ℕ) (w : ChannelWatcher) (known : List Text) (u : Upload) (db : Db)
      → queued_rows (visit t id w known u db).1
        ≡ queued_rows db ++ ids_after (visit t id w known u db).0 []
  visit-rows id w known u db = elim (Bool-cases (is_candidate t w known u)) [
    | inl c ↦ rw c (probed-rows id w (t.probe u.url w.extract_setlist_from_comments) db)
    | inr c ↦ rw c (sym (append-nil (queued_rows db)))
  ]

  visit_all-IsDistinct :
      (id : ℕ) (w : ChannelWatcher) (known : List Text) (us : List Upload) (db : Db)
      → IsDistinct db.streams
      → IsDistinct (visit_all t id w known us db).1.streams
  unfolding visit_all
  visit_all-IsDistinct id w known [] db h = h
  visit_all-IsDistinct id w known (u ∷ us) db h =
      let x = visit t id w known u db in
      visit_all-IsDistinct id w (known_after x.0 known) us x.1 (visit-IsDistinct id w known u db h)

  visit_all-rows :
      (id : ℕ) (w : ChannelWatcher) (known : List Text) (us : List Upload) (db : Db)
      → queued_rows (visit_all t id w known us db).1
        ≡ queued_rows db ++ (visit_all t id w known us db).0
  unfolding visit_all
  visit_all-rows id w known [] db = sym (append-nil (queued_rows db))
  visit_all-rows id w known (u ∷ us) db =
      let x = visit t id w known u db in
      let rest = (visit_all t id w (known_after x.0 known) us x.1).0 in
      visit_all-rows id w (known_after x.0 known) us x.1
      ∙ ap (λ ks. ks ++ rest) (visit-rows id w known u db)
      ∙ append_assoc (queued_rows db) (ids_after x.0 []) rest
      ∙ ap (λ ks. queued_rows db ++ ks) (ids_after-append x.0 rest)

  -- Whether an upload is from a day after the watcher was added.
  abbrev pub is_later : ChannelWatcher → Upload → Bool
  is_later w u = is_new (t.date_of w.added_at) u.upload_date

  -- The rest of the loop after an upload.
  abbrev rest_of :
      ℕ → ChannelWatcher → List Text → List Upload → Option (ℕ × Text) × Db → List ℕ × Db
  rest_of id w known us x =
      let y = visit_all t id w (known_after x.0 known) us x.1 in (ids_after x.0 y.0, y.1)

  -- Where no video has two streams, it is so after a check, whatever yt-dlp answers.
  pub check_for_new_vod_uploads-IsDistinct :
      (id : ℕ) (w : ChannelWatcher) (o : Option (List Upload)) (v : World)
      → IsDistinct v.db.streams
      → IsDistinct (check_for_new_vod_uploads t id w o v).db.streams
  unfolding check_for_new_vod_uploads
  check_for_new_vod_uploads-IsDistinct id w none v h = h
  check_for_new_vod_uploads-IsDistinct id w (some us) v h =
      let x = visit_all t id w (youtube_ids v.db.streams) us v.db in
      subst (λ (db : Db). IsDistinct db.streams)
        (sym (enqueue_all_lem x.0 (record v { db = x.1 })).1)
        (visit_all-IsDistinct id w (youtube_ids v.db.streams) us v.db h)

  -- The recordings that a check adds as queued are those that it puts at the end of the download queue,
  -- in the same order, whatever yt-dlp answers.
  pub check_for_new_vod_uploads_lem :
      (id : ℕ) (w : ChannelWatcher) (o : Option (List Upload)) (v : World)
      → (ids : List ℕ) × (queued_rows (check_for_new_vod_uploads t id w o v).db
          ≡ queued_rows v.db ++ ids)
        × ((check_for_new_vod_uploads t id w o v).queue.fifo ≡ v.queue.fifo ++ map job ids)
  unfolding check_for_new_vod_uploads
  check_for_new_vod_uploads_lem id w none v =
      ([], sym (append-nil (queued_rows v.db)), sym (append-nil v.queue.fifo))
  check_for_new_vod_uploads_lem id w (some us) v =
      let x = visit_all t id w (youtube_ids v.db.streams) us v.db in
      let e = enqueue_all_lem x.0 (record v { db = x.1 }) in
      (x.0, ap queued_rows e.1 ∙ visit_all-rows id w (youtube_ids v.db.streams) us v.db, e.0)
