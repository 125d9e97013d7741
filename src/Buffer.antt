-- ===== src/Buffer.antt =====
-- The DVR buffer: src/concertpvr/buffer.py and the pruning job of src/concertpvr/retention.py. The
-- file system is a list of the fragments of all streams, in the order of their paths.
pub mod Prune
pub mod Free
mod Tests
use concertpvr.Prelude.{
  ℕ, suc, ◌+◌, ◌-◌, ◌*◌, ◌/◌, Bool, true, false, not, ◌&&◌, Option, none, some, List, [], ◌∷◌, Text,
  Table, Exn, os_error, Result, ok, err, ltb, leb, values, map, select, if◌then◌else◌, ◌==◌,
}
use concertpvr.Models.{Db, Settings, WatchSubscription}

-- A file in a stream's folder. The operating system may refuse to remove it.
pub record Fragment : Type 0 where
  pub stream_id : ℕ
  pub name : Text
  pub size : ℕ
  pub mtime : ℕ
  pub removable : Bool

-- Sums of the sizes.
abbrev pub bytes : List Fragment → ℕ
bytes [] = 0
bytes (p ∷ ps) = p.size + bytes ps

abbrev pub of_stream : ℕ → List Fragment → List Fragment
of_stream id ps = select (λ p. p.stream_id == id) ps

unfoldable pub total_bytes : ℕ → List Fragment → ℕ
total_bytes id ps = bytes (of_stream id ps)

-- Fragments of a stream from before the cutoff, `time.time() - retention_days * 86400`: written
-- without the subtraction.
abbrev pub is_expired : ℕ → ℕ → ℕ → Fragment → Bool
is_expired now id days p = (p.stream_id == id) && ltb (p.mtime + days * 86400) now

-- The removal of a file ends the loop with its exception. The bytes freed, and what is left.
abbrev kept_file : Fragment → Result ℕ × List Fragment → Result ℕ × List Fragment
kept_file p (r, ps) = (r, p ∷ ps)

abbrev removed_file : Fragment → Result ℕ × List Fragment → Result ℕ × List Fragment
removed_file p (ok n, ps) = (ok (p.size + n), ps)
removed_file p (err e, ps) = (err e, ps)

unfoldable pub prune_older_than : ℕ → ℕ → ℕ → List Fragment → Result ℕ × List Fragment
prune_older_than now id days [] = (ok 0, [])
prune_older_than now id days (p ∷ ps) =
    let rest = prune_older_than now id days ps in
    if is_expired now id days p
    then if p.removable then removed_file p rest else (err os_error, p ∷ ps)
    else kept_file p rest

-- `files.sort(key=mtime)` is stable.
abbrev pub by_mtime : Fragment → List Fragment → List Fragment
by_mtime p [] = p ∷ []
by_mtime p (q ∷ ps) = if leb p.mtime q.mtime then p ∷ q ∷ ps else q ∷ by_mtime p ps

unfoldable pub list_all_fragments : List Fragment → List Fragment
list_all_fragments [] = []
list_all_fragments (p ∷ ps) = by_mtime p (list_all_fragments ps)

-- What the loop of `prune_oldest_until_free` removes, and what it leaves, of the fragments still to
-- come, oldest first. A file that the system refuses to remove is passed over.
abbrev pub Split : Type 0
Split = List Fragment × List Fragment

unfoldable pub reclaim : ℕ → ℕ → List Fragment → Split
reclaim target free [] = ([], [])
reclaim target free (p ∷ ps) = elim (leb target free) [
  | true ↦ ([], p ∷ ps)
  | false ↦ elim p.removable [
    | true ↦ let (d, k) = reclaim target (free + p.size) ps in (p ∷ d, k)
    | false ↦ let (d, k) = reclaim target free ps in (d, p ∷ k)
  ]
]

-- `free` is what `disk_usage` says, or nothing if it raises. The bytes freed and what is left.
unfoldable pub prune_oldest_until_free : Option ℕ → ℕ → List Fragment → ℕ × List Fragment
unfolding reclaim list_all_fragments
prune_oldest_until_free none target ps = (0, ps)
prune_oldest_until_free (some free) target ps =
    if leb target free
    then (0, ps)
    else let (d, k) = reclaim target free (list_all_fragments ps) in (bytes d, k)

-- What the operating system says of the file system, by the fragments on it: its size and what is
-- free, or nothing if `disk_usage` raises; and the two floating-point operations of the job.
pub record Disk : Type 0 where
  pub usage : List Fragment → Option (ℕ × ℕ)
  -- `free / total < LOW_FREE_THRESHOLD`
  pub is_low : ℕ → ℕ → Bool
  -- `int(total * TARGET_FREE_RATIO)`
  pub target_of : ℕ → ℕ

-- `free_space_ratio() < LOW_FREE_THRESHOLD`: the ratio is 1.0 if it cannot be told.
abbrev low_space : Disk → Option (ℕ × ℕ) → Bool
low_space disk none = false
low_space disk (some (total, free)) = not (total == 0) && disk.is_low total free

abbrev free_of : Option (ℕ × ℕ) → Option ℕ
free_of none = none
free_of (some (_, free)) = some free

abbrev prune_full : Disk → Option (ℕ × ℕ) → List Fragment → List Fragment
prune_full disk none ps = ps
prune_full disk (some (total, free)) ps =
    (prune_oldest_until_free (free_of (disk.usage ps)) (disk.target_of total) ps).1

abbrev auto_prune_of : Option Settings → Bool
auto_prune_of none = false
auto_prune_of (some row) = row.auto_prune_when_full

-- The loop over the subscriptions. An exception ends it.
unfoldable pub prune_all :
    ℕ → List WatchSubscription → List Fragment → Result (Unit {0}) × List Fragment
unfolding prune_older_than
prune_all now [] ps = (ok tt, ps)
prune_all now (sub ∷ subs) ps =
    let (r, ps') = prune_older_than now sub.stream_id sub.retention_days ps in
    elim r [ ok n ↦ prune_all now subs ps' | err e ↦ (err e, ps') ]

abbrev after_all : Disk → Db → Result (Unit {0}) × List Fragment → Result (Unit {0}) × List Fragment
after_all disk db (ok _, ps) = (
  ok tt,
  if auto_prune_of db.settings && low_space disk (disk.usage ps)
      then prune_full disk (disk.usage ps) ps
      else ps,
)
after_all disk db (err e, ps) = (err e, ps)

-- The job of `build_prune_job`.
unfoldable pub prune : Disk → ℕ → Db → List Fragment → Result (Unit {0}) × List Fragment
unfolding prune_all prune_oldest_until_free
prune disk now db ps = after_all disk db (prune_all now (values db.subscriptions) ps)
