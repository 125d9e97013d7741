-- ===== src/Recordings/Chunks.antt =====
-- What the media endpoint of src/concertpvr/api/recordings.py sends.
use concertpvr.Prelude.{
  ℕ, zero, suc, pos, ◌-ℤ◌, ◌+◌, ◌-◌, ◌≤◌, ◌<◌, ◌≡◌, refl, sym, ap, ◌∙◌, subst, Bool-cases, inl, inr,
  true, false, Option, none, some, List, [], ◌∷◌, ◌++◌, Text, find, is_empty, length, take, drop,
  min, length-take, length-append, take-append-drop, ◌==◌, Result, ok, arith,
}
use concertpvr.Models.{Db, Recording}
use concertpvr.Recordings.Media.{
  Entry, file, Media, chunk_size, cons_some, read_chunks, stream_file, match_range, stop_of, ranged,
  whole, served, get_recording_media,
}

abbrev pub concat : List (List ℕ) → List ℕ
concat [] = []
concat (c ∷ cs) = c ++ concat cs

take-length-take : (k : ℕ) (s : List ℕ) → take (length (take k s)) s ≡ take k s
take-length-take zero s = refl
take-length-take (suc k) [] = refl
take-length-take (suc k) (x ∷ s) = ap (◌∷◌ x) (take-length-take k s)

take-nil : (r : ℕ) → take {A = ℕ} r [] ≡ []
take-nil zero = refl
take-nil (suc r) = refl

take-split : (k r : ℕ) (s : List ℕ) → k ≤ r → take k s ++ take (r - k) (drop k s) ≡ take r s
take-split zero r s h = ap (λ m. take m s) (omega arith)
take-split (suc k) zero s h = absurd (omega arith)
take-split (suc k) (suc r) [] h = take-nil (suc r - suc k)
take-split (suc k) (suc r) (x ∷ s) h =
    ap (◌∷◌ x)
      (ap (λ m. take k s ++ take m (drop k s)) (fewer k r) ∙ take-split k r s (omega arith))
  where
    fewer : (k r : ℕ) → suc r - suc k ≡ r - k
    fewer k r = omega arith

nothing_left : (k : ℕ) (s : List ℕ) → 1 ≤ k → is_empty (take k s) ≡ true → s ≡ []
nothing_left zero s h e = absurd (omega arith)
nothing_left (suc k) [] h e = refl
nothing_left (suc k) (x ∷ s) h e = cc

length-pos : (s : List ℕ) → is_empty s ≡ false → 1 ≤ length s
length-pos [] h = cc
length-pos (x ∷ s) h = omega arith

is_zero : (n : ℕ) → (n == 0) ≡ true → n ≡ 0
is_zero n h = ground arith

is_positive : (n : ℕ) → (n == 0) ≡ false → 1 ≤ n
is_positive n h = ground arith

-- A loop that comes to its end, with what its chunks make together.
abbrev pub Reads : List ℕ → Option (List (List ℕ)) → Type 0
Reads bytes o = (chunks : List (List ℕ)) × (o ≡ some chunks) × (concat chunks ≡ bytes)

Reads-cons :
    (chunk bytes : List ℕ) (o : Option (List (List ℕ)))
    → Reads bytes o
    → Reads (chunk ++ bytes) (cons_some chunk o)
Reads-cons chunk bytes o (chunks, e, all_of) =
    (chunk ∷ chunks, ap (cons_some chunk) e, ap (λ c. chunk ++ c) all_of)

-- One round more than there are bytes to send is enough.
read_chunks-Reads :
    (n remaining : ℕ) (rest : List ℕ)
    → remaining < n
    → Reads (take remaining rest) (read_chunks n remaining rest)
unfolding read_chunks
read_chunks-Reads zero remaining rest h = absurd (omega arith)
read_chunks-Reads (suc n) remaining rest h = elim (Bool-cases (remaining == 0)) [
  | inl done ↦ rw done ([], refl, ap (λ m. take m rest) (sym (is_zero remaining done)))
  | inr more ↦
      let chunk = take (min chunk_size remaining) rest in
      let k = length chunk in
      elim (Bool-cases (is_empty chunk)) [
        | inl ended ↦
            rw (more, ended)
              (
                [],
                refl,
                sym (take-nil remaining)
                    ∙ ap (take remaining) (
                        sym (
                          nothing_left (min chunk_size remaining) rest
                            (omega (arith, is_positive remaining more)) ended)),
              )
        | inr some_read ↦
            let whole_of =
              ap (λ c. c ++ take (remaining - k) (drop k rest))
                (sym (take-length-take (min chunk_size remaining) rest))
              ∙ take-split k remaining rest
                  (omega (arith, length-take (min chunk_size remaining) rest)) in
            let next =
              read_chunks-Reads n (remaining - k) (drop k rest)
                (omega (arith, length-pos chunk some_read, is_positive remaining more)) in
            rw (more, some_read)
              (subst
                (λ bytes.
                  Reads bytes (cons_some chunk (read_chunks n (remaining - k) (drop k rest))))
                whole_of
                (Reads-cons chunk (take (remaining - k) (drop k rest))
                  (read_chunks n (remaining - k) (drop k rest)) next))
      ]
]

length-drop : (n : ℕ) (s : List ℕ) → n ≤ length s → length (drop n s) + n ≡ length s
length-drop n s h =
    omega (
      arith,
      length-append (take n s) (drop n s),
      ap length (take-append-drop n s),
      length-take n s,
    )

length-slice :
    (start stop : ℕ) (s : List ℕ)
    → start < stop
    → stop ≤ length s
    → length (take (stop - start) (drop start s)) ≡ stop - start
length-slice start stop s h le =
    omega (arith, length-take (stop - start) (drop start s), length-drop start s (omega arith))

difference : (start stop : ℕ) → start < stop → (pos stop -ℤ pos start) ≡ pos (stop - start)
unfolding ◌-ℤ◌
difference start stop h = ground arith

-- What an answer sends: its status, its bytes in chunks that come to an end, and the number of these as the content length.
abbrev pub Sends : ℕ → List ℕ → Result Media → Type 0
Sends status bytes r =
    (m : Media) × (r ≡ ok m)
    × (m.status ≡ status)
    × Reads bytes m.body
    × (m.content_length ≡ pos (length bytes))

stream_file_lem :
    (bytes : List ℕ) (start stop : ℕ)
    → Reads (take (stop - start) (drop start bytes)) (stream_file bytes start stop)
unfolding stream_file
stream_file_lem bytes start stop =
    read_chunks-Reads (suc (stop - start)) (stop - start) (drop start bytes) (omega arith)

ranged-inside :
    (bytes : List ℕ) (start : ℕ) (end : Option ℕ)
    → start < stop_of (length bytes) end
    → stop_of (length bytes) end ≤ length bytes
    → ranged bytes (start, end) ≡ record {
      status = 206;
      content_length = pos (stop_of (length bytes) end) -ℤ pos start;
      body = stream_file bytes start (stop_of (length bytes) end);
    }
unfolding ranged
ranged-inside bytes start end h le = ground arith

ranged-Sends :
    (bytes : List ℕ) (start : ℕ) (end : Option ℕ)
    → start < stop_of (length bytes) end
    → stop_of (length bytes) end ≤ length bytes
    → Sends 206
        (take (stop_of (length bytes) end - start) (drop start bytes))
        (ok (ranged bytes (start, end)))
ranged-Sends bytes start end h le =
    let stop = stop_of (length bytes) end in
    (
      record {
        status = 206;
        content_length = pos stop -ℤ pos start;
        body = stream_file bytes start stop;
      },
      ap ok (ranged-inside bytes start end h le),
      refl,
      stream_file_lem bytes start stop,
      difference start stop h ∙ ap pos (sym (length-slice start stop bytes h le)),
    )

take-all : (s : List ℕ) → take (length s) s ≡ s
take-all [] = refl
take-all (x ∷ s) = ap (◌∷◌ x) (take-all s)

whole-Sends : (bytes : List ℕ) → Sends 200 bytes (ok (whole bytes))
whole-Sends bytes = (
  whole bytes,
  refl,
  refl,
  subst (λ sent. Reads sent (stream_file bytes 0 (length bytes)))
      (ap (λ n. take n bytes) (minus_zero (length bytes)) ∙ take-all bytes)
      (stream_file_lem bytes 0 (length bytes)),
  refl,
)
  where
    minus_zero : (n : ℕ) → n - 0 ≡ n
    minus_zero n = omega arith

served-ranged :
    (header : Text) (bytes : List ℕ) (range : ℕ × Option ℕ)
    → match_range header ≡ some range
    → served (some header) bytes ≡ ok (ranged bytes range)
unfolding match_range
served-ranged [] bytes range h = cc
served-ranged (c ∷ s) bytes range h = rw (h, served) refl

from_file :
    (entry : Text → Entry) (header : Option Text) (id : ℕ) (db : Db) (rec : Recording)
    (bytes : List ℕ)
    → find id db.recordings ≡ some rec
    → entry rec.path ≡ file bytes
    → get_recording_media entry header id db ≡ served header bytes
unfolding get_recording_media
from_file entry header id db rec bytes found here = ground arith

-- The file of a recording is sent whole, with status 200, where no range is asked for; a range that
-- starts before it ends and ends within the file is answered with status 206 and exactly its bytes. The
-- content length is the number of bytes sent each time, and the loop that reads them comes to an end.
pub get_recording_media_lem :
    (entry : Text → Entry) (header : Text) (id : ℕ) (db : Db) (rec : Recording) (bytes : List ℕ)
    (start : ℕ) (end : Option ℕ)
    → find id db.recordings ≡ some rec
    → entry rec.path ≡ file bytes
    → match_range header ≡ some (start, end)
    → start < stop_of (length bytes) end
    → stop_of (length bytes) end ≤ length bytes
    → Sends 200 bytes (get_recording_media entry none id db)
      × Sends 206
          (take (stop_of (length bytes) end - start) (drop start bytes))
          (get_recording_media entry (some header) id db)
unfolding get_recording_media
get_recording_media_lem entry header id db rec bytes start end found here parsed h le = (
  subst (Sends 200 bytes) (sym (from_file entry none id db rec bytes found here))
      (whole-Sends bytes),
  subst (Sends 206 (take (stop_of (length bytes) end - start) (drop start bytes)))
      (sym (
        from_file entry (some header) id db rec bytes found here
        ∙ served-ranged header bytes (start, end) parsed))
      (ranged-Sends bytes start end h le),
)
