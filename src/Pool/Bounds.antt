-- ===== src/Pool/Bounds.antt =====
-- What holds of the pool whatever is started, stopped and finished, in any order.
use concertpvr.Prelude.{
  IsUnique, ℕ, suc, ◌≤◌, ◌≡◌, refl, sym, subst, ap, ◌∙◌, false, List, [], ◌∷◌, ◌++◌, Table, find,
  insert, erase, update, length, leb, leb-false, is_some, keys, contains, arith, inl, inr,
  Bool-cases, ◌==◌, keys-update, length-append, ==_iff,
}
use concertpvr.Pool.{
  Worker, Pool, create, remove, admit, start, finished, request, request_stop, stop, is_recording,
  active_stream_ids,
}

pub find-contains : (k : ℕ) (t : Table Worker) → is_some (find k t) ≡ contains k (keys t)
find-contains k [] = refl
find-contains k (e ∷ t) = ground (arith, find-contains k t)

pub keys-insert : (k : ℕ) (a : Worker) (t : Table Worker) → keys (insert k a t) ≡ keys t ++ k ∷ []
keys-insert k a [] = refl
keys-insert k a (e ∷ t) = ap (◌∷◌ e.0) (keys-insert k a t)

pub keys-erase : (k : ℕ) (t : Table Worker) → keys (erase k t) ≡ remove k (keys t)
keys-erase k [] = refl
keys-erase k (e ∷ t) = ground (arith, keys-erase k t)

pub length-keys : (t : Table Worker) → length (keys t) ≡ length t
length-keys [] = refl
length-keys (e ∷ t) = ap suc (length-keys t)

contains-snoc :
    (j k : ℕ) (ks : List ℕ)
    → (j == k) ≡ false
    → contains j ks ≡ false
    → contains j (ks ++ k ∷ []) ≡ false
contains-snoc j k [] ne h = ground arith
contains-snoc j k (i ∷ ks) ne h = ground (arith, contains-snoc j k ks ne)

IsUnique-snoc :
    (k : ℕ) (ks : List ℕ) → IsUnique ks → contains k ks ≡ false → IsUnique (ks ++ k ∷ [])
IsUnique-snoc k [] h out = (refl, tt)
IsUnique-snoc k (j ∷ ks) h out =
    (contains-snoc j k ks (ground arith) h.0, IsUnique-snoc k ks h.1 (ground arith))

contains-remove : (j k : ℕ) (ks : List ℕ) → contains j ks ≡ false → contains j (remove k ks) ≡ false
contains-remove j k [] h = refl
contains-remove j k (i ∷ ks) h = ground (arith, contains-remove j k ks)

IsUnique-remove : (k : ℕ) (ks : List ℕ) → IsUnique ks → IsUnique (remove k ks)
IsUnique-remove k [] h = tt
IsUnique-remove k (j ∷ ks) h = ground (arith, contains-remove j k ks h.0, IsUnique-remove k ks h.1)

length-remove : (k : ℕ) (ks : List ℕ) → length (remove k ks) ≤ length ks
length-remove k [] = omega arith
length-remove k (j ∷ ks) = ground (arith, length-remove k ks)

-- At most the allowed number of workers, one for each stream, and a task for each worker.
pub record IsPool (n : ℕ) (p : Pool) : Type 0 where
  pub cap : p.max_concurrent ≡ n
  pub bounded : length p.workers ≤ n
  pub unique : IsUnique (keys p.workers)
  pub paired : p.tasks ≡ keys p.workers

pub create-IsPool : (n : ℕ) → IsPool n (create n)
unfolding create
create-IsPool n = record { cap = refl; bounded = omega arith; unique = tt; paired = refl }

admit-IsPool :
    (n id : ℕ) (p : Pool)
    → IsPool n p
    → leb p.max_concurrent (length p.workers) ≡ false
    → is_some (find id p.workers) ≡ false
    → IsPool n (admit id p)
admit-IsPool n id p h room new = record {
  cap = h.cap;
  bounded =
      let new_row : List (ℕ × Worker) = (id, record { stop_requested = false }) ∷ [] in
      omega (
        arith,
        length-append p.workers new_row,
        leb-false p.max_concurrent (length p.workers) room,
        h.cap,
      );
  unique =
      subst IsUnique (sym (keys-insert id (record { stop_requested = false }) p.workers))
        (IsUnique-snoc id (keys p.workers) h.unique (sym (find-contains id p.workers) ∙ new));
  paired =
      ap (λ ks. ks ++ id ∷ []) h.paired
      ∙ sym (keys-insert id (record { stop_requested = false }) p.workers);
}

start-IsPool : (n id : ℕ) (p : Pool) → IsPool n p → IsPool n (start id p).1
unfolding start
start-IsPool n id p h = elim (Bool-cases (is_some (find id p.workers))) [
  | inl there ↦ ground (arith, h)
  | inr new ↦ elim (Bool-cases (leb p.max_concurrent (length p.workers))) [
    | inl full ↦ ground (arith, h)
    | inr room ↦ ground (arith, admit-IsPool n id p h room new)
  ]
]

finished-IsPool : (n id : ℕ) (p : Pool) → IsPool n p → IsPool n (finished id p)
unfolding finished
finished-IsPool n id p h = record {
  cap = h.cap;
  bounded = omega (
    arith,
    length-keys (erase id p.workers),
    ap length (keys-erase id p.workers),
    length-remove id (keys p.workers),
    length-keys p.workers,
    h.bounded,
  );
  unique =
      subst IsUnique (sym (keys-erase id p.workers)) (IsUnique-remove id (keys p.workers) h.unique);
  paired = ap (remove id) h.paired ∙ sym (keys-erase id p.workers);
}

request_stop-IsPool : (n id : ℕ) (p : Pool) → IsPool n p → IsPool n (request_stop id p)
unfolding request_stop
request_stop-IsPool n id p h =
    let kept = keys-update id request p.workers in
    record {
      cap = h.cap;
      bounded = omega (
        arith,
        length-keys (update id request p.workers),
        ap length kept,
        length-keys p.workers,
        h.bounded,
      );
      unique = subst IsUnique (sym kept) h.unique;
      paired = h.paired ∙ sym kept;
    }

-- What happens to a pool between two `await`s: a request to start, one to stop, or the end of a task.
pub data Event : Type 0 where
  starts stops ends : ℕ → Event

abbrev pub react : Event → Pool → Pool
react (starts id) p = (start id p).1
react (stops id) p = request_stop id p
react (ends id) p = finished id p

unfoldable pub react_all : List Event → Pool → Pool
react_all [] p = p
react_all (e ∷ es) p = react_all es (react e p)

pub react-IsPool : (n : ℕ) (e : Event) (p : Pool) → IsPool n p → IsPool n (react e p)
react-IsPool n (starts id) p h = start-IsPool n id p h
react-IsPool n (stops id) p h = request_stop-IsPool n id p h
react-IsPool n (ends id) p h = finished-IsPool n id p h

react_all-IsPool : (n : ℕ) (es : List Event) (p : Pool) → IsPool n p → IsPool n (react_all es p)
unfolding react_all
react_all-IsPool n [] p h = h
react_all-IsPool n (e ∷ es) p h = react_all-IsPool n es (react e p) (react-IsPool n e p h)

-- Whatever is started, asked to stop and finished, in any order: a pool has at most `n` workers, for
-- `n` the number that it was made for, no two for one stream, and a task for each worker.
pub pool_bounded :
    (n : ℕ) (es : List Event)
    → let p = react_all es (create n) in
      (length p.workers ≤ n) × IsUnique (active_stream_ids p) × (p.tasks ≡ active_stream_ids p)
unfolding active_stream_ids
pool_bounded n es =
    let h = react_all-IsPool n es (create n) (create-IsPool n) in (h.bounded, h.unique, h.paired)

remove-missing : (k : ℕ) (ks : List ℕ) → IsUnique ks → contains k (remove k ks) ≡ false
remove-missing k [] h = refl
remove-missing k (j ∷ ks) h = ground (arith, remove-missing k ks h.1, ==_iff k j)

pub stop-missing : (n id : ℕ) (p : Pool) → IsPool n p → is_recording id (stop id p) ≡ false
unfolding is_recording stop request_stop finished
stop-missing n id p h =
    let gone =
      find-contains id (erase id (update id request p.workers))
      ∙ ap (contains id) (keys-erase id (update id request p.workers))
      ∙ ap (λ ks. contains id (remove id ks)) (keys-update id request p.workers)
      ∙ remove-missing id (keys p.workers) h.unique in
    elim (Bool-cases (is_some (find id p.workers))) [
      | inl there ↦ rw there gone
      | inr missing ↦ rw missing missing
    ]

-- After a stop returns, its stream is not being recorded, whatever was started, asked to stop and
-- finished before.
pub stop_lem :
    (n id : ℕ) (es : List Event) → is_recording id (stop id (react_all es (create n))) ≡ false
stop_lem n id es =
    stop-missing n id (react_all es (create n)) (react_all-IsPool n es (create n) (create-IsPool n))
