-- ===== src/Backlog/Merge.antt =====
-- What merging the results of a batch does to the items of the cache (src/concertpvr/backlog_cache.py).
use mathlib.Core.Path.{ap₂}
use concertpvr.Prelude.{
  ◌≡◌, refl, sym, ap, subst, ◌∙◌, Bool, Bool-cases, true, false, ◌||◌, Option, none, some, List, [],
  ◌∷◌, ◌++◌, append-nil, append_assoc, map, Text, All, text_eq, text_eq_self, eq_of_text_eq, arith,
  inl, inr, ◌⊎◌, if◌then◌else◌,
}
use concertpvr.Backlog.Cache.{
  Item, ProbeResult, Tools, is_probed, lookup, add_results, with_counts, merge,
  probe_video_metadata, unprobed,
}

-- `yid in ids`
abbrev pub member : Text → List Text → Bool
member yid [] = false
member yid (i ∷ is) = text_eq i yid || member yid is

pub member-append :
    (yid : Text) (is js : List Text) → member yid (is ++ js) ≡ (member yid is || member yid js)
member-append yid [] js = refl
member-append yid (i ∷ is) js = ground (arith, member-append yid is js)

or_right : {b : Bool} (a : Bool) → b ≡ true → (a || b) ≡ true
or_right true h = refl
or_right false h = h

or_left : {a : Bool} (b : Bool) → a ≡ true → (a || b) ≡ true
or_left {a = true} b h = refl
or_left {a = false} b h = cc

unprobed-probed : (i : Item) (is : List Item) → is_probed i ≡ true → unprobed (i ∷ is) ≡ unprobed is
unprobed-probed i is h = rw h refl

unprobed-bare :
    (i : Item) (is : List Item)
    → is_probed i ≡ false
    → unprobed (i ∷ is) ≡ i.youtube_id ∷ unprobed is
unprobed-bare i is h = rw h refl

-- A property of the items at the same place of two lists of one length.
abbrev pub Both : (Item → Item → Type 0) → List Item → List Item → Type 0
Both P [] [] = Unit
Both P [] (_ ∷ _) = ⊥
Both P (_ ∷ _) [] = ⊥
Both P (x ∷ xs) (y ∷ ys) = P x y × Both P xs ys

either_way :
    (a b : Bool) (r : ProbeResult)
    → (if a then some r else (if b then some r else none))
      ≡ (if b || (a || false) then some r else none)
either_way true true r = refl
either_way true false r = refl
either_way false true r = refl
either_way false false r = refl

-- What a lookup finds once the ids were probed.
abbrev pub found : (Text → ProbeResult) → Text → List Text → Option ProbeResult
found probe yid ids = if member yid ids then some (probe yid) else none

module _ (t : Tools) (cookies : Option Text) where
  abbrev pub probe : Text → ProbeResult
  probe yid = probe_video_metadata t cookies yid

  probe-id : (yid : Text) → (probe yid).youtube_id ≡ yid
  unfolding probe_video_metadata
  probe-id yid = ground arith

  -- An item with the counts of its video.
  abbrev pub fill : Item → Item
  fill it = with_counts (some (probe it.youtube_id)) it

  -- What is got are the results of the ids.
  abbrev pub Covers : List Text → List ProbeResult → Type 0
  Covers ids got = (yid : Text) → lookup yid got ≡ found probe yid ids

  lookup-next :
      (yid id : Text) (got : List ProbeResult)
      → lookup yid (probe id ∷ got) ≡ (if text_eq id yid then some (probe yid) else lookup yid got)
  unfolding probe_video_metadata
  lookup-next yid id got = elim (Bool-cases (text_eq id yid)) [
    | inl same ↦ rw (probe-id id, same) (ap (λ y. some (probe y)) (eq_of_text_eq id yid same))
    | inr other ↦ rw (probe-id id, other) refl
  ]

  Covers-next :
      (id : Text) (done : List Text) (got : List ProbeResult)
      → Covers done got
      → Covers (done ++ id ∷ []) (probe id ∷ got)
  Covers-next id done got h yid =
      rw (lookup-next yid id got, h yid, member-append yid done (id ∷ []))
        (either_way (text_eq id yid) (member yid done) (probe yid))

  pub Covers-add :
      (ids done : List Text) (got : List ProbeResult)
      → Covers done got
      → Covers (done ++ ids) (add_results (map probe ids) got)
  Covers-add [] done got h = subst (λ d. Covers d got) (sym (append-nil done)) h
  Covers-add (id ∷ ids) done got h =
      subst (λ d. Covers d (add_results (map probe ids) (probe id ∷ got)))
        (append_assoc done (id ∷ []) ids)
        (Covers-add ids (done ++ id ∷ []) (probe id ∷ got) (Covers-next id done got h))

  -- An item of the list as it was, or with its counts.
  abbrev pub Known : Item → Item → Type 0
  Known f i = (i ≡ f) ⊎ (i ≡ fill f)

  -- An item that is among the ids left to probe, or has its counts.
  abbrev pub Left : List Text → Item → Item → Type 0
  Left ids f i = Known f i × ((member f.youtube_id ids ≡ true) ⊎ (i ≡ fill f))

  module _ (done : List Text) (got : List ProbeResult) (h : Covers done got) where
    merge-plain : (f : Item) → member f.youtube_id done ≡ false → merge got f ≡ f
    unfolding merge
    merge-plain f no_ =
        ap (λ o. with_counts o f)
          (h f.youtube_id ∙ ap (λ m. if m then some (probe f.youtube_id) else none) no_)

    merge-counted : (f : Item) → member f.youtube_id done ≡ true → merge got f ≡ fill f
    unfolding merge
    merge-counted f in_ =
        ap (λ o. with_counts o f)
          (h f.youtube_id ∙ ap (λ m. if m then some (probe f.youtube_id) else none) in_)

    merge-fill : (f : Item) → merge got (fill f) ≡ fill f
    unfolding merge
    merge-fill f = elim (Bool-cases (member f.youtube_id done)) [
      | inl in_ ↦ merge-counted (fill f) in_
      | inr out ↦ merge-plain (fill f) out
    ]

    merge-settles :
        (f i : Item) → Known f i → member f.youtube_id done ≡ true → merge got i ≡ fill f
    merge-settles f i (inl flat) in_ = ap (merge got) flat ∙ merge-counted f in_
    merge-settles f i (inr filled) in_ = ap (merge got) filled ∙ merge-fill f

    merge-Known : (f i : Item) → Known f i → Known f (merge got i)
    merge-Known f i (inl flat) = elim (Bool-cases (member f.youtube_id done)) [
      | inl in_ ↦ inr (ap (merge got) flat ∙ merge-counted f in_)
      | inr out ↦ inl (ap (merge got) flat ∙ merge-plain f out)
    ]
    merge-Known f i (inr filled) = inr (ap (merge got) filled ∙ merge-fill f)

    pub Both-Known : (fs is : List Item) → Both Known fs is → Both Known fs (map (merge got) is)
    Both-Known [] [] k = tt
    Both-Known [] (i ∷ is) k = absurd k
    Both-Known (f ∷ fs) [] k = absurd k
    Both-Known (f ∷ fs) (i ∷ is) (k, ks) = (merge-Known f i k, Both-Known fs is ks)

    merge-Left :
        (ids rest : List Text) (f i : Item)
        → ((yid : Text) → member yid ids ≡ true → member yid done ≡ true)
        → Left (ids ++ rest) f i
        → Left rest f (merge got i)
    merge-Left ids rest f i sub (k, inr filled) =
        (merge-Known f i k, inr (ap (merge got) filled ∙ merge-fill f))
    merge-Left ids rest f i sub (k, inl left) = elim (Bool-cases (member f.youtube_id ids)) [
      | inl in_ ↦ (merge-Known f i k, inr (merge-settles f i k (sub f.youtube_id in_)))
      | inr out ↦ (
        merge-Known f i k,
        inl (
            ap (λ m. m || member f.youtube_id rest) (sym out)
            ∙ sym (member-append f.youtube_id ids rest)
            ∙ left),
      )
    ]

    pub Both-Left :
        (ids rest : List Text) (fs is : List Item)
        → ((yid : Text) → member yid ids ≡ true → member yid done ≡ true)
        → Both (Left (ids ++ rest)) fs is
        → Both (Left rest) fs (map (merge got) is)
    Both-Left ids rest [] [] sub k = tt
    Both-Left ids rest [] (i ∷ is) sub k = absurd k
    Both-Left ids rest (f ∷ fs) [] sub k = absurd k
    Both-Left ids rest (f ∷ fs) (i ∷ is) sub (k, ks) =
        (merge-Left ids rest f i sub k, Both-Left ids rest fs is sub ks)

  pub Both-done : (fs is : List Item) → Both (Left []) fs is → is ≡ map fill fs
  Both-done [] [] k = refl
  Both-done [] (i ∷ is) k = absurd k
  Both-done (f ∷ fs) [] k = absurd k
  Both-done (f ∷ fs) (i ∷ is) ((_, inl left), ks) = cc
  Both-done (f ∷ fs) (i ∷ is) ((_, inr filled), ks) = ap₂ ◌∷◌ filled (Both-done fs is ks)

  Both-more :
      (id : Text) (ids : List Text) (fs is : List Item)
      → Both (Left ids) fs is
      → Both (Left (id ∷ ids)) fs is
  Both-more id ids [] [] k = tt
  Both-more id ids [] (i ∷ is) k = absurd k
  Both-more id ids (f ∷ fs) [] k = absurd k
  Both-more id ids (f ∷ fs) (i ∷ is) ((k, inr filled), ks) =
      ((k, inr filled), Both-more id ids fs is ks)
  Both-more id ids (f ∷ fs) (i ∷ is) ((k, inl left), ks) =
      ((k, inl (or_right (text_eq id f.youtube_id) left)), Both-more id ids fs is ks)

  Known-probed : (f i : Item) → is_probed f ≡ false → Known f i → is_probed i ≡ true → i ≡ fill f
  Known-probed f i flat (inl plain) probed =
      absurd (clash (sym flat ∙ ap is_probed (sym plain) ∙ probed))
    where
      clash : false ≡ true → ⊥
      clash h = cc
  Known-probed f i flat (inr filled) probed = filled

  same_id : (f i : Item) → Known f i → text_eq i.youtube_id f.youtube_id ≡ true
  same_id f i (inl plain) = rw plain (text_eq_self f.youtube_id)
  same_id f i (inr filled) = rw filled (text_eq_self f.youtube_id)

  -- Where the list has no counts, every item that has none is among the ids to probe.
  pub Both-unprobed :
      (fs is : List Item)
      → All (λ f. is_probed f ≡ false) fs
      → Both Known fs is
      → Both (Left (unprobed is)) fs is
  Both-unprobed [] [] flat k = tt
  Both-unprobed [] (i ∷ is) flat k = absurd k
  Both-unprobed (f ∷ fs) [] flat k = absurd k
  Both-unprobed (f ∷ fs) (i ∷ is) (flat, flats) (k, ks) = elim (Bool-cases (is_probed i)) [
    | inl probed ↦
        subst (λ ids. Both (Left ids) (f ∷ fs) (i ∷ is)) (sym (unprobed-probed i is probed))
          ((k, inr (Known-probed f i flat k probed)), Both-unprobed fs is flats ks)
    | inr bare ↦
        subst (λ ids. Both (Left ids) (f ∷ fs) (i ∷ is)) (sym (unprobed-bare i is bare))
          (
            (k, inl (or_left (member f.youtube_id (unprobed is)) (same_id f i k))),
            Both-more i.youtube_id (unprobed is) fs is (Both-unprobed fs is flats ks),
          )
  ]
