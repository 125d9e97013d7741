-- ===== src/Setlists/Replace.antt =====
-- Reading a setlist of src/concertpvr/api/setlists.py after it was replaced.
use mathlib.Core.List.{Perm}
use concertpvr.Prelude.{
  ℕ, ◌≡◌, refl, sym, ap, ◌∙◌, true, false, is_some, find, List, [], ◌∷◌, ◌++◌, map, Table, insert,
  keys, select, select-append, values, arith, ◌==◌, if◌then◌else◌, ok, err, append-nil,
  append_assoc,
}
use concertpvr.Models.{Db, Setlist}
use concertpvr.Segment.Segmenter.{setlist_of, order_by_start}
use concertpvr.Segment.Drafts.{IsOrdered, order_by_start-IsOrdered, order_by_start-perm}
use concertpvr.Setlists.Api.{
  Entry, row_of, delete_of, add_rows, replace_entries, get_setlist, post_setlist, no_recording,
}

values-insert :
    {A : Type 0} (k : ℕ) (a : A) (t : Table A) → values (insert k a t) ≡ values t ++ a ∷ []
values-insert k a [] = refl
values-insert k a ((j, b) ∷ t) = ap (◌∷◌ b) (values-insert k a t)

values-add_rows :
    (fresh : List ℕ → ℕ) (rows : List Setlist) (t : Table Setlist)
    → values (add_rows fresh rows t) ≡ values t ++ rows
unfolding add_rows
values-add_rows fresh [] t = sym (append-nil (values t))
values-add_rows fresh (row ∷ rows) t =
    values-add_rows fresh rows (insert (fresh (keys t)) row t)
    ∙ ap (λ vs. vs ++ rows) (values-insert (fresh (keys t)) row t)
    ∙ append_assoc (values t) (row ∷ []) rows

abbrev of : ℕ → List Setlist → List Setlist
of rid rows = select (λ row. row.recording_id == rid) rows

of-delete_of_self : (rid : ℕ) (t : Table Setlist) → of rid (values (delete_of rid t)) ≡ []
unfolding delete_of
of-delete_of_self rid [] = refl
of-delete_of_self rid ((k, row) ∷ t) = ground (arith, of-delete_of_self rid t)

of-delete_of_ne :
    (j rid : ℕ) (t : Table Setlist)
    → (j == rid) ≡ false
    → of j (values (delete_of rid t)) ≡ of j (values t)
unfolding delete_of
of-delete_of_ne j rid [] ne = refl
of-delete_of_ne j rid ((k, row) ∷ t) ne = ground (arith, of-delete_of_ne j rid t)

of-rows_self : (rid : ℕ) (es : List Entry) → of rid (map (row_of rid) es) ≡ map (row_of rid) es
of-rows_self rid [] = refl
of-rows_self rid (e ∷ es) = ground (arith, of-rows_self rid es)

of-rows_ne : (j rid : ℕ) (es : List Entry) → (j == rid) ≡ false → of j (map (row_of rid) es) ≡ []
of-rows_ne j rid [] ne = refl
of-rows_ne j rid (e ∷ es) ne = ground (arith, of-rows_ne j rid es)

get_setlist_lem :
    (rid : ℕ) (db : Db)
    → get_setlist rid db ≡ (
      if is_some (find rid db.recordings)
          then ok (setlist_of rid db.setlists)
          else err no_recording,
      db,
    )
unfolding get_setlist
get_setlist_lem rid db = ground arith

module _ (fresh : List ℕ → ℕ) (rid : ℕ) (es : List Entry) where
  abbrev replaced : Table Setlist → Table Setlist
  replaced t = add_rows fresh (map (row_of rid) es) (delete_of rid t)

  replaced_self : (t : Table Setlist) → of rid (values (replaced t)) ≡ map (row_of rid) es
  replaced_self t = rw (
    values-add_rows fresh (map (row_of rid) es) (delete_of rid t),
    select-append (λ (row : Setlist). row.recording_id == rid) (values (delete_of rid t))
        (map (row_of rid) es),
    of-delete_of_self rid t,
    of-rows_self rid es,
  )

  replaced_ne :
      (j : ℕ) (t : Table Setlist)
      → (j == rid) ≡ false
      → of j (values (replaced t)) ≡ of j (values t)
  replaced_ne j t ne = rw (
    values-add_rows fresh (map (row_of rid) es) (delete_of rid t),
    select-append (λ (row : Setlist). row.recording_id == j) (values (delete_of rid t))
        (map (row_of rid) es),
    of-delete_of_ne j rid t ne,
    of-rows_ne j rid es ne,
    append-nil (of j (values t)),
  )

  post_setlist_lem :
      (db : Db)
      → is_some (find rid db.recordings) ≡ true
      → post_setlist fresh rid es db
        ≡ (ok (map (row_of rid) es), record db { setlists = replaced db.setlists })
  unfolding post_setlist replace_entries
  post_setlist_lem db here = ground arith

  read_self :
      (db : Db)
      → is_some (find rid db.recordings) ≡ true
      → (get_setlist rid (record db { setlists = replaced db.setlists })).0
        ≡ ok (order_by_start (map (row_of rid) es))
  unfolding setlist_of
  read_self db here = rw (
    get_setlist_lem rid (record db { setlists = replaced db.setlists }),
    here,
    replaced_self db.setlists,
  )

  read_ne :
      (j : ℕ) (db : Db)
      → (j == rid) ≡ false
      → (get_setlist j (record db { setlists = replaced db.setlists })).0 ≡ (get_setlist j db).0
  unfolding setlist_of
  read_ne j db ne = rw (
    get_setlist_lem j (record db { setlists = replaced db.setlists }),
    get_setlist_lem j db,
    replaced_ne j db.setlists ne,
  )

  -- Replacing the setlist of a recording that is there answers with the new rows; read again, it is the entries
  -- given, each once and ordered by start, and the setlist of any other recording is as before.
  pub get-replace :
      (j : ℕ) (db : Db)
      → is_some (find rid db.recordings) ≡ true
      → (j == rid) ≡ false
      → let (r, db') = post_setlist fresh rid es db in
        (r ≡ ok (map (row_of rid) es))
        × ((get_setlist rid db').0 ≡ ok (order_by_start (map (row_of rid) es)))
        × Perm (order_by_start (map (row_of rid) es)) (map (row_of rid) es)
        × IsOrdered (order_by_start (map (row_of rid) es))
        × ((get_setlist j db').0 ≡ (get_setlist j db).0)
  get-replace j db here ne = rw (post_setlist_lem db here) (
    refl,
    read_self db here,
    order_by_start-perm (map (row_of rid) es),
    order_by_start-IsOrdered (map (row_of rid) es),
    read_ne j db ne,
  )
