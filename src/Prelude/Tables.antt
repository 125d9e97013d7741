-- ===== src/Prelude/Tables.antt =====
-- A table of the database: rows by primary key, in the order in which they were added. The keys of
-- new rows are the database's choice; definitions that add rows take the key as an argument.
use Prim.Native.Nat.{ℕ}
use mathlib.Core.Path.{◌≡◌, refl}
use mathlib.Core.Bool.{Bool, false}
use mathlib.Core.Option.{Option, none, some}
use mathlib.Core.List.{List, [], ◌∷◌, ◌++◌}
use native.Mathlib.Omega.{arith}
use concertpvr.Prelude.Tests.{◌==◌, if◌then◌else◌}

abbrev pub Table : Type 0 → Type 0
Table A = List (ℕ × A)

module _ {A : Type 0} where
  -- `s.get(Model, k)`
  abbrev pub find : ℕ → Table A → Option A
  find k [] = none
  find k ((j, a) ∷ t) = if k == j then some a else find k t

  -- Assignments to the attributes of the row with key `k`.
  abbrev pub update : ℕ → (A → A) → Table A → Table A
  update k f [] = []
  update k f ((j, a) ∷ t) = if k == j then (j, f a) ∷ t else (j, a) ∷ update k f t

  -- `s.add(row)` and `s.flush()`, with the key that the database gave the row.
  abbrev pub insert : ℕ → A → Table A → Table A
  insert k a t = t ++ (k, a) ∷ []

  -- `s.delete(row)`
  abbrev pub erase : ℕ → Table A → Table A
  erase k [] = []
  erase k ((j, a) ∷ t) = if k == j then t else (j, a) ∷ erase k t

  -- Assignments to the rows that a test selects.
  abbrev pub update_where : (A → Bool) → (A → A) → Table A → Table A
  update_where p f [] = []
  update_where p f ((j, a) ∷ t) =
      if p a then (j, f a) ∷ update_where p f t else (j, a) ∷ update_where p f t

  -- The keys of the rows that a test selects.
  abbrev pub keys_where : (A → Bool) → Table A → List ℕ
  keys_where p [] = []
  keys_where p ((j, a) ∷ t) = if p a then j ∷ keys_where p t else keys_where p t

  -- `dict[k] = a`, and `dict.pop(k, None)` of a dict kept as a table.
  abbrev pub put : ℕ → A → Table A → Table A
  put k a [] = (k, a) ∷ []
  put k a ((j, b) ∷ t) = if k == j then (j, a) ∷ t else (j, b) ∷ put k a t

  abbrev pub without : ℕ → Table A → Table A
  without k [] = []
  without k ((j, a) ∷ t) = if k == j then without k t else (j, a) ∷ without k t

  abbrev pub values : Table A → List A
  values [] = []
  values ((_, a) ∷ t) = a ∷ values t

  abbrev pub keys : Table A → List ℕ
  keys [] = []
  keys ((k, _) ∷ t) = k ∷ keys t

  pub find-update_self :
      (k : ℕ) (f : A → A) (t : Table A) (a : A)
      → find k t ≡ some a
      → find k (update k f t) ≡ some (f a)
  find-update_self k f [] a h = cc
  find-update_self k f (e ∷ t) a h = ground (arith, find-update_self k f t a)

  pub find-update_missing : (k : ℕ) (f : A → A) (t : Table A) → find k t ≡ none → update k f t ≡ t
  find-update_missing k f [] h = refl
  find-update_missing k f (e ∷ t) h = ground (arith, find-update_missing k f t)

  pub find-update_ne :
      (j k : ℕ) (f : A → A) (t : Table A) → (j == k) ≡ false → find j (update k f t) ≡ find j t
  find-update_ne j k f [] h = refl
  find-update_ne j k f (e ∷ t) h = ground (arith, find-update_ne j k f t h)

  pub find-insert_self :
      (k : ℕ) (a : A) (t : Table A) → find k t ≡ none → find k (insert k a t) ≡ some a
  find-insert_self k a [] h = ground arith
  find-insert_self k a (e ∷ t) h = ground (arith, find-insert_self k a t)

  pub find-insert_ne :
      (j k : ℕ) (a : A) (t : Table A) → (j == k) ≡ false → find j (insert k a t) ≡ find j t
  find-insert_ne j k a [] h = ground arith
  find-insert_ne j k a (e ∷ t) h = ground (arith, find-insert_ne j k a t h)

  pub find-put_self : (k : ℕ) (a : A) (t : Table A) → find k (put k a t) ≡ some a
  find-put_self k a [] = ground arith
  find-put_self k a (e ∷ t) = ground (arith, find-put_self k a t)

  pub find-put_ne :
      (j k : ℕ) (a : A) (t : Table A) → (j == k) ≡ false → find j (put k a t) ≡ find j t
  find-put_ne j k a [] h = ground arith
  find-put_ne j k a (e ∷ t) h = ground (arith, find-put_ne j k a t h)

  pub find-without_self : (k : ℕ) (t : Table A) → find k (without k t) ≡ none
  find-without_self k [] = refl
  find-without_self k (e ∷ t) = ground (arith, find-without_self k t)

  pub find-without_ne : (j k : ℕ) (t : Table A) → (j == k) ≡ false → find j (without k t) ≡ find j t
  find-without_ne j k [] h = refl
  find-without_ne j k (e ∷ t) h = ground (arith, find-without_ne j k t h)

  pub find-erase_ne : (j k : ℕ) (t : Table A) → (j == k) ≡ false → find j (erase k t) ≡ find j t
  find-erase_ne j k [] h = refl
  find-erase_ne j k (e ∷ t) h = ground (arith, find-erase_ne j k t h)

  pub keys-update : (k : ℕ) (f : A → A) (t : Table A) → keys (update k f t) ≡ keys t
  keys-update k f [] = refl
  keys-update k f (e ∷ t) = ground (arith, keys-update k f t)

  pub keys-update_where :
      (p : A → Bool) (f : A → A) (t : Table A) → keys (update_where p f t) ≡ keys t
  keys-update_where p f [] = refl
  keys-update_where p f (e ∷ t) = ground (arith, keys-update_where p f t)

-- A property of every row.
abbrev pub Rows {κ} : {A : Type 0} → (A → Type κ) → Table A → Type κ
Rows P [] = Unit
Rows P ((_, a) ∷ t) = P a × Rows P t

module _ {A : Type 0} (P : A → Type 0) where
  pub Rows-find : (k : ℕ) (t : Table A) (a : A) → Rows P t → find k t ≡ some a → P a
  Rows-find k [] a h e = cc
  Rows-find k (r ∷ t) a h e = ground (arith, Rows-find k t a h.1)

  pub Rows-insert : (k : ℕ) (a : A) (t : Table A) → Rows P t → P a → Rows P (insert k a t)
  Rows-insert k a [] h p = (p, tt)
  Rows-insert k a (r ∷ t) h p = (h.0, Rows-insert k a t h.1 p)

  pub Rows-update :
      (k : ℕ) (f : A → A) (t : Table A)
      → ((a : A) → P a → P (f a))
      → Rows P t
      → Rows P (update k f t)
  Rows-update k f [] h p = tt
  Rows-update k f (r ∷ t) h p = ground (arith, h r.1, Rows-update k f t h p.1)

  pub Rows-erase : (k : ℕ) (t : Table A) → Rows P t → Rows P (erase k t)
  Rows-erase k [] h = tt
  Rows-erase k (r ∷ t) h = ground (arith, Rows-erase k t h.1)
