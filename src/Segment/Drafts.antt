-- ===== src/Segment/Drafts.antt =====
-- What the drafts of src/concertpvr/segmenter.py are.
use mathlib.Core.List.{Perm}
use mathlib.Core.List.Perm
use concertpvr.Prelude.{
  ℕ, ℤ, ◌≡◌, refl, ap, sym, subst, Bool-cases, inl, inr, ◌≢◌, Bool, ◌&&◌, not, Option, List, [],
  ◌∷◌, map, Text, Table, leb_ℤ, ◌≤ℤ◌, ◌<ℤ◌, is_empty, select, values, All, arith, if◌then◌else◌,
  ◌==◌,
}
use concertpvr.Models.{Recording, Segment, SegmentSource, Setlist, chapter, setlist, draft}
use concertpvr.Segment.Segmenter.{
  Chapter, heading, seconds, new_segment, from_chapters, from_setlist, by_start, order_by_start,
  setlist_of, chapters_of, derive_draft_segments,
}

-- A chapter with a title that is not blank, which ends after it starts.
abbrev pub is_usable : Chapter → Bool
is_usable ch =
    not (is_empty (heading ch.title)) && not (leb_ℤ (seconds ch.end_time) (seconds ch.start_time))

abbrev pub of_chapter : ℕ → Chapter → Segment
of_chapter rid ch =
    new_segment rid (heading ch.title) (seconds ch.start_time) (seconds ch.end_time) chapter

-- The drafts from chapters are those of the usable chapters, in their order.
pub from_chapters_lem :
    (rid : ℕ) (chs : List Chapter)
    → from_chapters rid chs ≡ map (of_chapter rid) (select is_usable chs)
unfolding from_chapters
from_chapters_lem rid [] = refl
from_chapters_lem rid (ch ∷ chs) = ground (arith, from_chapters_lem rid chs)

-- A draft that can be published: a named clip of positive length.
abbrev pub IsDraft : ℕ → Segment → Type 0
IsDraft rid seg =
    (seg.recording_id ≡ rid) × (seg.status ≡ draft) × (seg.artist ≢ []) × (seg.start_s <ℤ seg.end_s)

-- Every draft from chapters belongs to the recording, is a draft, has an artist, and ends after it
-- starts, whatever the chapters are.
pub from_chapters-IsDraft :
    (rid : ℕ) (chs : List Chapter) → All (IsDraft rid) (from_chapters rid chs)
unfolding from_chapters
from_chapters-IsDraft rid [] = tt
from_chapters-IsDraft rid (ch ∷ chs) = ground (arith, from_chapters-IsDraft rid chs)

abbrev pub of_row : ℕ → Setlist → Segment
of_row rid row = new_segment rid row.artist row.start_s row.end_s setlist

pub from_setlist_lem :
    (rid : ℕ) (rows : List Setlist) → from_setlist rid rows ≡ map (of_row rid) rows
unfolding from_setlist
from_setlist_lem rid [] = refl
from_setlist_lem rid (row ∷ rows) = ap (◌∷◌ (of_row rid row)) (from_setlist_lem rid rows)

-- No item starts before the one in front of it.
abbrev pub StartsAfter : ℤ → List Setlist → Type 0
StartsAfter x [] = Unit
StartsAfter x (y ∷ ys) = (x ≤ℤ y.start_s) × StartsAfter y.start_s ys

abbrev pub IsOrdered : List Setlist → Type 0
IsOrdered [] = Unit
IsOrdered (x ∷ xs) = StartsAfter x.start_s xs

by_start-StartsAfter :
    (b : ℤ) (x : Setlist) (ys : List Setlist)
    → b ≤ℤ x.start_s
    → StartsAfter b ys
    → StartsAfter b (by_start x ys)
by_start-StartsAfter b x [] h hs = (h, tt)
by_start-StartsAfter b x (y ∷ ys) h hs = ground (arith, by_start-StartsAfter y.start_s x ys)

by_start-IsOrdered : (x : Setlist) (ys : List Setlist) → IsOrdered ys → IsOrdered (by_start x ys)
by_start-IsOrdered x [] h = tt
by_start-IsOrdered x (y ∷ ys) h = ground (arith, by_start-StartsAfter y.start_s x ys)

pub order_by_start-IsOrdered : (xs : List Setlist) → IsOrdered (order_by_start xs)
unfolding order_by_start
order_by_start-IsOrdered [] = tt
order_by_start-IsOrdered (x ∷ xs) =
    by_start-IsOrdered x (order_by_start xs) (order_by_start-IsOrdered xs)

by_start-perm : (x : Setlist) (ys : List Setlist) → Perm (by_start x ys) (x ∷ ys)
by_start-perm x [] = Perm.refl (x ∷ [])
by_start-perm x (y ∷ ys) = elim (Bool-cases (leb_ℤ x.start_s y.start_s)) [
  | inl le ↦ rw le (Perm.refl (x ∷ y ∷ ys))
  | inr gt ↦ rw gt (Perm.trans (Perm.cons y (by_start-perm x ys)) (Perm.swap x y ys))
]

pub order_by_start-perm : (xs : List Setlist) → Perm (order_by_start xs) xs
unfolding order_by_start
order_by_start-perm [] = Perm.refl []
order_by_start-perm (x ∷ xs) =
    Perm.trans (by_start-perm x (order_by_start xs)) (Perm.cons x (order_by_start-perm xs))

-- The setlist rows that drafts are made of are those of the recording, ordered by start.
pub setlist_of_lem :
    (rid : ℕ) (t : Table Setlist)
    → Perm (setlist_of rid t) (select (λ row. row.recording_id == rid) (values t))
      × IsOrdered (setlist_of rid t)
unfolding setlist_of
setlist_of_lem rid t =
    let rows = select (λ (row : Setlist). row.recording_id == rid) (values t) in
    (order_by_start-perm rows, order_by_start-IsOrdered rows)

-- A draft with these columns.
abbrev pub IsClip : ℕ → SegmentSource → Text → ℤ → ℤ → Segment → Type 0
IsClip rid source artist start end seg =
    (seg.recording_id ≡ rid)
    × (seg.source ≡ source)
    × (seg.artist ≡ artist)
    × (seg.start_s ≡ start)
    × (seg.end_s ≡ end)
    × (seg.status ≡ draft)

abbrev pub OfChapter : ℕ → Chapter → Segment → Type 0
OfChapter rid ch seg =
    IsClip rid chapter (heading ch.title) (seconds ch.start_time) (seconds ch.end_time) seg

abbrev pub OfRow : ℕ → Setlist → Segment → Type 0
OfRow rid row seg = IsClip rid setlist row.artist row.start_s row.end_s seg

-- Two lists of one length, the items of which are related one by one.
abbrev pub Pairs : {A B : Type 0} → (A → B → Type 0) → List A → List B → Type 0
Pairs R [] [] = Unit
Pairs R [] (b ∷ ys) = ⊥
Pairs R (a ∷ xs) [] = ⊥
Pairs R (a ∷ xs) (b ∷ ys) = R a b × Pairs R xs ys

Pairs-map :
    {A B : Type 0} (R : A → B → Type 0) (f : A → B) (xs : List A)
    → ((a : A) → R a (f a))
    → Pairs R xs (map f xs)
Pairs-map R f [] h = tt
Pairs-map R f (a ∷ xs) h = (h a, Pairs-map R f xs h)

-- The drafts of a recording, by its chapters and the setlist rows.
abbrev pub Drafts : ℕ → Table Setlist → List Chapter → List Segment → Type 0
Drafts rid t [] drafts =
    (rows : List Setlist) × Perm rows (select (λ row. row.recording_id == rid) (values t))
    × IsOrdered rows
    × Pairs (OfRow rid) rows drafts
Drafts rid t (ch ∷ chs) drafts =
    Pairs (OfChapter rid) (select is_usable (ch ∷ chs)) drafts × All (IsDraft rid) drafts

module _ (loads : Text → Option (List Chapter)) where
  -- Chapters are preferred: where the recording has any, there is one draft for each chapter with a
  -- title that ends after it starts, in order, with its stripped title as the artist and its times, and
  -- none for the setlist, even if no chapter is left; each of them has an artist and ends after it
  -- starts. Otherwise there is one draft for each setlist row of the recording, ordered by start, with
  -- the row's artist and times as they stand.
  pub derive_draft_segments-Drafts :
      (rid : ℕ) (rec : Recording) (t : Table Setlist)
      → Drafts rid t
          (chapters_of loads rec.raw_chapters_json)
          (derive_draft_segments loads rid rec t)
  unfolding derive_draft_segments
  derive_draft_segments-Drafts rid rec t = go (chapters_of loads rec.raw_chapters_json)
    where
      go :
          (chs : List Chapter)
          → Drafts rid t chs
              (if is_empty chs then from_setlist rid (setlist_of rid t) else from_chapters rid chs)
      go [] =
          let (same, up) = setlist_of_lem rid t in
          (
            setlist_of rid t,
            same,
            up,
            subst (Pairs (OfRow rid) (setlist_of rid t))
                (sym (from_setlist_lem rid (setlist_of rid t)))
                (Pairs-map (OfRow rid) (of_row rid) (setlist_of rid t)
                  (λ row. (refl, refl, refl, refl, refl, refl))),
          )
      go (ch ∷ chs) = (
        subst (Pairs (OfChapter rid) (select is_usable (ch ∷ chs)))
            (sym (from_chapters_lem rid (ch ∷ chs)))
            (Pairs-map (OfChapter rid) (of_chapter rid) (select is_usable (ch ∷ chs))
              (λ c. (refl, refl, refl, refl, refl, refl))),
        from_chapters-IsDraft rid (ch ∷ chs),
      )
