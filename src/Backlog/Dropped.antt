-- ===== src/Backlog/Dropped.antt =====
-- What a request to cancel waiting downloads removes (`cancel_backlog_downloads` of
-- src/concertpvr/api/channel_watchers.py).
use concertpvr.Prelude.{
  ℕ, ◌≡◌, refl, sym, ap, ◌∙◌, subst, Bool-cases, inl, inr, false, true, Option, none, some, List,
  [], ◌∷◌, Text, Table, find, erase, is_some, text_eq, text_eq_self, eq_of_text_eq, ok, arith, All,
  All-append, ◌==◌,
}
use concertpvr.Models.{Db, Stream, Recording}
use concertpvr.Vod.Queue.{World, stream_by_youtube_id, cancel_by_youtube_id}
use concertpvr.Poller.Uploads.{IsDistinct}
use concertpvr.Backlog.Downloads.{
  drop_stream, drop_recording, drop_all, dropped, is_used, cancel_all, named_streams, queued_of,
  cancel_backlog_downloads,
}

known_stream :
    (k : ℕ) (t : Table Stream) (st : Stream)
    → find k t ≡ some st
    → is_some (stream_by_youtube_id st.youtube_id t) ≡ true
unfolding stream_by_youtube_id
known_stream k [] st h = cc
known_stream k ((j, s) ∷ t) st h = ground (arith, known_stream k t st, text_eq_self st.youtube_id)

-- A video without a stream has none after a stream is deleted.
none-erase :
    (yid : Text) (k : ℕ) (t : Table Stream)
    → is_some (stream_by_youtube_id yid t) ≡ false
    → is_some (stream_by_youtube_id yid (erase k t)) ≡ false
unfolding stream_by_youtube_id
none-erase yid k [] h = h
none-erase yid k ((j, s) ∷ t) h = ground (arith, none-erase yid k t)

IsDistinct-erase : (k : ℕ) (t : Table Stream) → IsDistinct t → IsDistinct (erase k t)
IsDistinct-erase k [] h = h
IsDistinct-erase k ((j, s) ∷ t) h = elim (Bool-cases (k == j)) [
  | inl here ↦ rw here h.1
  | inr later ↦ rw later (none-erase s.youtube_id k t h.0, IsDistinct-erase k t h.1)
]

head_is :
    (k j : ℕ) (s st : Stream) (t : Table Stream)
    → (k == j) ≡ true
    → find k ((j, s) ∷ t) ≡ some st
    → s ≡ st
head_is k j s st t here h = ground arith

later_is :
    (k j : ℕ) (s st : Stream) (t : Table Stream)
    → (k == j) ≡ false
    → find k ((j, s) ∷ t) ≡ some st
    → find k t ≡ some st
later_is k j s st t later h = ground arith

twice :
    (k : ℕ) (s st : Stream) (t : Table Stream)
    → s.youtube_id ≡ st.youtube_id
    → is_some (stream_by_youtube_id s.youtube_id t) ≡ false
    → find k t ≡ some st
    → ⊥
twice k s st t same new h =
    clash (sym new ∙ ap (λ y. is_some (stream_by_youtube_id y t)) same ∙ known_stream k t st h)
  where
    clash : false ≡ true → ⊥
    clash e = cc

erased_later :
    (k j : ℕ) (s st : Stream) (t : Table Stream)
    → (k == j) ≡ false
    → text_eq s.youtube_id st.youtube_id ≡ false
    → is_some (stream_by_youtube_id st.youtube_id (erase k t)) ≡ false
    → is_some (stream_by_youtube_id st.youtube_id (erase k ((j, s) ∷ t))) ≡ false
unfolding stream_by_youtube_id
erased_later k j s st t later other h = ground arith

erased_stream :
    (k : ℕ) (t : Table Stream) (st : Stream)
    → IsDistinct t
    → find k t ≡ some st
    → is_some (stream_by_youtube_id st.youtube_id (erase k t)) ≡ false
erased_stream k [] st d h = cc
erased_stream k ((j, s) ∷ t) st d h = elim (Bool-cases (k == j)) [
  | inl here ↦
      subst
        (λ (x : Stream). is_some (stream_by_youtube_id x.youtube_id (erase k ((j, s) ∷ t))) ≡ false)
        (head_is k j s st t here h) (rw here d.0)
  | inr later ↦ elim (Bool-cases (text_eq s.youtube_id st.youtube_id)) [
    | inl same ↦ absurd (
        twice k s st t (eq_of_text_eq s.youtube_id st.youtube_id same) d.0
          (later_is k j s st t later h))
    | inr other ↦
        erased_later k j s st t later other (erased_stream k t st d.1 (later_is k j s st t later h))
  ]
]

-- No stream is left for a video.
abbrev IsGone : Db → Text → Type 0
IsGone db yid = is_some (stream_by_youtube_id yid db.streams) ≡ false

-- What a part of the loop leaves: the videos answered have no stream, and those that had none before
-- have none.
abbrev Drops : Db → List Text × Db → Type 0
Drops db (yids, db') =
    All (IsGone db') yids × IsDistinct db'.streams × ((yid : Text) → IsGone db yid → IsGone db' yid)

drop_stream-Drops :
    (sid : ℕ) (o : Option Stream) (db : Db)
    → IsDistinct db.streams
    → find sid db.streams ≡ o
    → Drops db (drop_stream sid o db)
drop_stream-Drops sid none db d h = (tt, d, λ yid gone. gone)
drop_stream-Drops sid (some st) db d h = (
  (erased_stream sid db.streams st d h, tt),
  IsDistinct-erase sid db.streams d,
  λ yid gone. none-erase yid sid db.streams gone,
)

drop_recording-Drops :
    (id : ℕ) (o : Option Recording) (db : Db)
    → IsDistinct db.streams
    → Drops db (drop_recording id o db)
drop_recording-Drops id none db d = (tt, d, λ yid gone. gone)
drop_recording-Drops id (some rec) db d =
    let db1 = record db { recordings = erase id db.recordings } in
    elim (Bool-cases (is_used rec.stream_id db1.recordings)) [
      | inl used ↦ rw used (tt, d, λ yid gone. gone)
      | inr free ↦
          rw free (drop_stream-Drops rec.stream_id (find rec.stream_id db.streams) db1 d refl)
    ]

All-mono :
    (db db' : Db) (yids : List Text)
    → ((yid : Text) → IsGone db yid → IsGone db' yid)
    → All (IsGone db) yids
    → All (IsGone db') yids
All-mono db db' [] f h = tt
All-mono db db' (yid ∷ yids) f (h, hs) = (f yid h, All-mono db db' yids f hs)

drop_all-Drops : (ids : List ℕ) (db : Db) → IsDistinct db.streams → Drops db (drop_all ids db)
unfolding drop_all
drop_all-Drops [] db d = (tt, d, λ yid gone. gone)
drop_all-Drops (id ∷ ids) db d =
    let x = drop_recording id (find id db.recordings) db in
    let (gone1, d1, kept1) = drop_recording-Drops id (find id db.recordings) db d in
    let (gone2, d2, kept2) = drop_all-Drops ids x.1 d1 in
    let y = drop_all ids x.1 in
    (
      All-append (IsGone y.1) x.0 y.0 (All-mono x.1 y.1 x.0 kept2 gone1) gone2,
      d2,
      λ yid gone. kept2 yid (kept1 yid gone),
    )

not_found : (o : Option ℕ) → is_some o ≡ false → o ≡ none
not_found none h = refl
not_found (some k) h = cc

cancel_gone : (yid : Text) (w : World) → IsGone w.db yid → cancel_by_youtube_id yid w ≡ w
unfolding cancel_by_youtube_id
cancel_gone yid w gone = rw (not_found (stream_by_youtube_id yid w.db.streams) gone) refl

cancel_all-gone : (yids : List Text) (w : World) → All (IsGone w.db) yids → cancel_all yids w ≡ w
unfolding cancel_all
cancel_all-gone [] w h = refl
cancel_all-gone (yid ∷ yids) w (h, hs) =
    ap (cancel_all yids) (cancel_gone yid w h) ∙ cancel_all-gone yids w hs

-- A request to cancel waiting downloads deletes their rows but leaves the download queue as it was,
-- where no video has two streams: the cancels by video id come after the streams were deleted, and so
-- find nothing.
pub cancel_backlog_downloads-queue :
    (wid : ℕ) (yids : List Text) (w : World)
    → IsDistinct w.db.streams
    → is_some (find wid w.db.watchers) ≡ true
    → let ids = queued_of (named_streams yids w.db.streams) w.db.recordings in
      cancel_backlog_downloads wid yids w
      ≡ (ok (drop_all ids w.db).0, record w { db = (drop_all ids w.db).1 })
unfolding cancel_backlog_downloads
cancel_backlog_downloads-queue wid yids w d there =
    let ids = queued_of (named_streams yids w.db.streams) w.db.recordings in
    let x = drop_all ids w.db in
    run
    ∙ ap (λ (v : World). (ok x.0, v))
        (cancel_all-gone x.0 (record w { db = x.1 }) (drop_all-Drops ids w.db d).0)
  where
    run :
        cancel_backlog_downloads wid yids w
        ≡ dropped (drop_all (queued_of (named_streams yids w.db.streams) w.db.recordings) w.db) w
    run = ground arith
