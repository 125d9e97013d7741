-- ===== src/Buffer/Tests.antt =====
-- The theorems about the buffer at concrete inputs.
use concertpvr.Prelude.{
  ℕ, ◌+◌, ◌<◌, ◌≡◌, refl, true, false, not, ◌||◌, none, some, List, [], ◌∷◌, ◌++◌, codes, leb, all,
  All,
}
use mathlib.Core.List.{Perm}
use concertpvr.Models.{WatchSubscription}
use concertpvr.Buffer.{
  Fragment, bytes, prune_older_than, prune_all, list_all_fragments, reclaim,
  prune_oldest_until_free,
}
use concertpvr.Buffer.Free.{oldest, prune_oldest_until_free_lem, prune_oldest-needed}
use concertpvr.Buffer.Prune.{fresh, prune_all_lem}

abbrev fragment : ℕ → ℕ → Fragment
fragment size mtime = record {
  stream_id = 1;
  name = codes "a.ts";
  size = size;
  mtime = mtime;
  removable = true;
}

abbrev stuck : Fragment
stuck = record (fragment 10 50) { removable = false }

abbrev files : List Fragment
files = fragment 30 300 ∷ stuck ∷ fragment 20 100 ∷ fragment 40 200 ∷ []

prune_run : prune_oldest_until_free (some 5) 30 files ≡ (60, stuck ∷ fragment 30 300 ∷ [])
unfolding prune_oldest_until_free reclaim list_all_fragments
prune_run = refl

prune_oldest_until_free_example :
    let (removed, left) = reclaim 30 5 (list_all_fragments files) in
    (prune_oldest_until_free (some 5) 30 files ≡ (bytes removed, left))
    × Perm (removed ++ left) files
    × ((leb 30 (5 + bytes removed) || all (λ p. not p.removable) left) ≡ true)
    × (all (oldest left) removed ≡ true)
prune_oldest_until_free_example = prune_oldest_until_free_lem 5 30 files refl

prune_oldest-needed_example : 5 + bytes (fragment 20 100 ∷ []) < 30
unfolding reclaim list_all_fragments
prune_oldest-needed_example =
    prune_oldest-needed 5 30 files (fragment 20 100 ∷ []) (fragment 40 200) refl

abbrev sub : WatchSubscription
sub = record {
  stream_id = 1;
  enabled = true;
  title_filter = none;
  quality_cap = none;
  retention_days = 1;
}

abbrev removable_files : List Fragment
removable_files = fragment 30 300 ∷ fragment 20 100 ∷ []

prune_all_example :
    All (λ s. all (fresh 86600 s) (prune_all 86600 (sub ∷ []) removable_files).1 ≡ true) (sub ∷ [])
unfolding prune_all prune_older_than
prune_all_example = prune_all_lem 86600 (sub ∷ []) removable_files refl
