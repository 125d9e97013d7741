-- ===== src/Backlog/Batches.antt =====
-- The batches of the slow refresh in src/concertpvr/backlog_cache.py.
use concertpvr.Prelude.{
  ℕ, zero, suc, ◌≤◌, ◌≡◌, refl, ap, ◌∙◌, List, [], ◌∷◌, ◌++◌, Text, All, length, take, drop,
  length-take-le, take-append-drop, length-take, arith, length-append,
}
use concertpvr.Backlog.Cache.{batch_size, batches}

abbrev pub concat : List (List Text) → List Text
concat [] = []
concat (b ∷ bs) = b ++ concat bs

length-drop :
    (ids : List Text) (id : Text) (n : ℕ) → length ids ≤ n → length (drop batch_size (id ∷ ids)) ≤ n
length-drop ids id n h = omega (
  arith,
  length-append (take batch_size (id ∷ ids)) (drop batch_size (id ∷ ids)),
  ap length (take-append-drop batch_size (id ∷ ids)),
  length-take batch_size (id ∷ ids),
)

-- As many rounds as there are ids are enough: the batches are the ids, in order.
pub concat-batches : (n : ℕ) (ids : List Text) → length ids ≤ n → concat (batches n ids) ≡ ids
unfolding batches
concat-batches zero [] h = refl
concat-batches zero (id ∷ ids) h = absurd (omega arith)
concat-batches (suc n) [] h = refl
concat-batches (suc n) (id ∷ ids) h =
    ap (λ rest. take batch_size (id ∷ ids) ++ rest)
      (concat-batches n (drop batch_size (id ∷ ids)) (length-drop ids id n (omega arith)))
    ∙ take-append-drop batch_size (id ∷ ids)

batches-bounded :
    (n : ℕ) (ids : List Text) → All (λ b. (1 ≤ length b) × (length b ≤ 20)) (batches n ids)
unfolding batches
batches-bounded zero ids = tt
batches-bounded (suc n) [] = tt
batches-bounded (suc n) (id ∷ ids) =
    ((omega arith, length-take-le 20 (id ∷ ids)), batches-bounded n (drop batch_size (id ∷ ids)))

-- The batches of a list of ids are the ids, each in one batch and in order, and no batch is empty or has
-- more than twenty of them.
pub batches_lem :
    (ids : List Text)
    → (concat (batches (length ids) ids) ≡ ids)
      × All (λ b. (1 ≤ length b) × (length b ≤ 20)) (batches (length ids) ids)
batches_lem ids = (concat-batches (length ids) ids (omega arith), batches-bounded (length ids) ids)
