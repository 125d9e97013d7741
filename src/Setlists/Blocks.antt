-- ===== src/Setlists/Blocks.antt =====
-- Which block of the entries `_longest_contiguous_block` of src/concertpvr/setlist_detector.py picks.
use concertpvr.Prelude.{
  ℕ, suc, ℤ, ◌+◌, ◌≤◌, max, ◌≡◌, refl, sym, ◌∙◌, ap, Bool-cases, inl, inr, List, [], ◌∷◌, ◌++◌,
  length, length-append, append_assoc, leb_ℤ, ltb, ◌≤ℤ◌, arith, if◌then◌else◌,
}
use concertpvr.Setlists.Detector.{SetlistEntry, last, longer, scan, longest_contiguous_block}

-- No entry starts before the one in front of it.
abbrev pub RisesFrom : ℤ → List SetlistEntry → Type 0
RisesFrom t [] = Unit
RisesFrom t (e ∷ es) = (t ≤ℤ e.start_s) × RisesFrom e.start_s es

abbrev pub IsAscending : List SetlistEntry → Type 0
IsAscending [] = Unit
IsAscending (e ∷ es) = RisesFrom e.start_s es

-- Entries that stand next to each other in the list, none of which starts before the one in front.
abbrev pub IsBlock : List SetlistEntry → List SetlistEntry → Type 0
IsBlock es b =
    IsAscending b
    × ((pre : List SetlistEntry) × (post : List SetlistEntry) × (es ≡ pre ++ (b ++ post)))

-- How many entries go on without a step back.
abbrev run : SetlistEntry → List SetlistEntry → ℕ
run e [] = 1
run e (x ∷ xs) = let rest = run x xs in if leb_ℤ e.start_s x.start_s then suc rest else 1

abbrev longest_run : List SetlistEntry → ℕ
longest_run [] = 0
longest_run (e ∷ es) = max (run e es) (longest_run es)

run-pos : (e : SetlistEntry) (es : List SetlistEntry) → 1 ≤ run e es
run-pos e [] = omega arith
run-pos e (x ∷ xs) = ground arith

last-append : (e x : SetlistEntry) (es : List SetlistEntry) → last e (es ++ x ∷ []) ≡ x
last-append e x [] = refl
last-append e x (y ∷ es) = last-append y x es

run-block :
    (e : SetlistEntry) (b post : List SetlistEntry)
    → RisesFrom e.start_s b
    → suc (length b) ≤ run e (b ++ post)
run-block e [] post h = run-pos e post
run-block e (x ∷ b) post h = ground (arith, run-block x b post h.1)

longest_run-append : (pre es : List SetlistEntry) → longest_run es ≤ longest_run (pre ++ es)
longest_run-append [] es = omega arith
longest_run-append (x ∷ pre) es = omega (arith, longest_run-append pre es)

block-longest_run :
    (b post : List SetlistEntry) → IsAscending b → length b ≤ longest_run (b ++ post)
block-longest_run [] post h = omega arith
block-longest_run (e ∷ b) post h = omega (arith, run-block e b post h)

length-longer :
    (best current : List SetlistEntry)
    → length (longer best current) ≡ max (length best) (length current)
length-longer best current = ground arith

length-scan :
    (best : List SetlistEntry) (first : SetlistEntry) (current es : List SetlistEntry)
    → suc (length (scan best first current es))
      ≡ max
          (suc (length best))
          (max (suc (length current) + run (last first current) es) (suc (longest_run es)))
unfolding scan
length-scan best first current [] = omega (arith, length-longer best (first ∷ current))
length-scan best first current (e ∷ es) =
    elim (Bool-cases (leb_ℤ (last first current).start_s e.start_s)) [
      | inl up ↦ rw up (
          omega (
            arith,
            length-scan best first (current ++ e ∷ []) es,
            ap (λ x. run x es) (last-append first e current),
            length-append current (e ∷ []),
          ))
      | inr down ↦ rw down (
          omega (
            arith,
            length-scan (longer best (first ∷ current)) e [] es,
            length-longer best (first ∷ current),
            run-pos e es,
          ))
    ]

length-longest_contiguous_block :
    (es : List SetlistEntry) → length (longest_contiguous_block es) ≡ longest_run es
unfolding longest_contiguous_block
length-longest_contiguous_block [] = refl
length-longest_contiguous_block (e ∷ es) = omega (arith, length-scan [] e [] es, run-pos e es)

RisesFrom-append :
    (x e : SetlistEntry) (xs : List SetlistEntry)
    → RisesFrom x.start_s xs
    → (last x xs).start_s ≤ℤ e.start_s
    → RisesFrom x.start_s (xs ++ e ∷ [])
RisesFrom-append x e [] h up = (up, tt)
RisesFrom-append x e (y ∷ xs) h up = (h.0, RisesFrom-append y e xs h.1 up)

longer-IsBlock :
    (es best current : List SetlistEntry)
    → IsBlock es best
    → IsBlock es current
    → IsBlock es (longer best current)
longer-IsBlock es best current hb hc = elim (Bool-cases (ltb (length best) (length current))) [
  | inl lt ↦ rw lt hc
  | inr ge ↦ rw ge hb
]

-- What the loop holds is a block of the list that it runs over.
scan-IsBlock :
    (all pre best : List SetlistEntry) (first : SetlistEntry) (current es : List SetlistEntry)
    → IsBlock all best
    → RisesFrom first.start_s current
    → all ≡ pre ++ ((first ∷ current) ++ es)
    → IsBlock all (scan best first current es)
unfolding scan
scan-IsBlock all pre best first current [] hb hc eq =
    longer-IsBlock all best (first ∷ current) hb (hc, (pre, [], eq))
scan-IsBlock all pre best first current (e ∷ es) hb hc eq =
    elim (Bool-cases (leb_ℤ (last first current).start_s e.start_s)) [
      | inl up ↦ rw up (
          scan-IsBlock all pre best first (current ++ e ∷ []) es hb
            (RisesFrom-append first e current hc (ground arith))
            (eq ∙ ap (λ l. pre ++ first ∷ l) (sym (append_assoc current (e ∷ []) es))))
      | inr down ↦ rw down (
          scan-IsBlock all (pre ++ first ∷ current) (longer best (first ∷ current)) e [] es
            (longer-IsBlock all best (first ∷ current) hb (hc, (pre, e ∷ es, eq))) tt
            (eq ∙ sym (append_assoc pre (first ∷ current) (e ∷ es))))
    ]

pub longest_contiguous_block-IsBlock :
    (es : List SetlistEntry) → IsBlock es (longest_contiguous_block es)
unfolding longest_contiguous_block
longest_contiguous_block-IsBlock [] = (tt, ([], [], refl))
longest_contiguous_block-IsBlock (e ∷ es) =
    scan-IsBlock (e ∷ es) [] [] e [] es (tt, ([], e ∷ es, refl)) tt refl

-- What is picked is a block of entries that stand next to each other, none of which starts before
-- the one in front of it, and no such block is longer.
pub longest_contiguous_block_lem :
    (es pre b post : List SetlistEntry)
    → IsAscending b
    → es ≡ pre ++ (b ++ post)
    → IsBlock es (longest_contiguous_block es) × (length b ≤ length (longest_contiguous_block es))
longest_contiguous_block_lem es pre b post up eq = (
  longest_contiguous_block-IsBlock es,
  omega (
    arith,
    length-longest_contiguous_block es,
    ap longest_run eq,
    longest_run-append pre (b ++ post),
    block-longest_run b post up,
  ),
)
