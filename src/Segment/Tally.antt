-- ===== src/Segment/Tally.antt =====
-- What `bulk_publish` of src/concertpvr/api/segments.py answers.
use concertpvr.Prelude.{
  ℕ, suc, ◌+◌, ◌≡◌, ◌≤◌, none, some, List, [], ◌∷◌, ◌++◌, Text, codes, Exn, lookup_error, cancelled,
  Result, ok, err, Action, length,
}
use concertpvr.Publish.Metadata.{Options}
use concertpvr.Segment.Bulk.{published, failed, BulkPublishItemResult, BulkPublishResponse}

-- How many results are successes, and how many failures.
abbrev pub successes : List BulkPublishItemResult → ℕ
successes [] = 0
successes (x ∷ xs) = let n = successes xs in elim x.status [ published ↦ suc n | failed ↦ n ]

abbrev pub failures : List BulkPublishItemResult → ℕ
failures [] = 0
failures (x ∷ xs) = let n = failures xs in elim x.status [ published ↦ n | failed ↦ suc n ]

module _ {S : Type 0} (describe : Exn → Text) (publish : ℕ → Options → Action S (Unit {0}))
    (opts : Options) where
  -- What the answer says of one publish that did not have its task cancelled.
  abbrev pub Reports : Result (Unit {0}) → BulkPublishItemResult → Type 0
  Reports (ok _) x = (x.status ≡ published) × (x.error ≡ none)
  Reports (err lookup_error) x =
      (x.status ≡ failed) × (x.error ≡ some (codes "not found: " ++ describe lookup_error))
  Reports (err cancelled) x = ⊥
  Reports (err e) x =
      (x.status ≡ failed) × ((text : Text) × (x.error ≡ some text) × (length text ≤ 200))

  -- A first publish of a segment that ended in `r`, reported by the first result; the rest is `R`.
  abbrev pub Next :
      ℕ
      → Result (Unit {0})
      → (List BulkPublishItemResult → S → Type 0)
      → List BulkPublishItemResult
      → S
      → Type 0
  Next id r R [] s' = ⊥
  Next id r R (x ∷ xs) s' = (x.segment_id ≡ id) × Reports r x × R xs s'

  -- Publishes of the segments one after the other, each in the state that the one before left, with
  -- what is reported of them, from one state to another.
  abbrev pub Run : List ℕ → S → List BulkPublishItemResult → S → Type 0
  Run [] s [] s' = s' ≡ s
  Run [] s (x ∷ xs) s' = ⊥
  Run (id ∷ ids) s xs s' = Next id (publish id opts s).0 (Run ids (publish id opts s).1) xs s'

  abbrev Answer :
      BulkPublishResponse
      → (List BulkPublishItemResult → S → Type 0)
      → Result BulkPublishResponse × S
      → Type 0
  Answer acc R (ok resp, s') =
      (xs : List BulkPublishItemResult) × (resp.results ≡ acc.results ++ xs)
      × (resp.succeeded ≡ acc.succeeded + successes xs)
      × (resp.failed ≡ acc.failed + failures xs)
      × R xs s'
  Answer acc R (err e, s') = e ≡ cancelled

  -- What a bulk publish returns or raises, from one state to another.
  abbrev pub Answers : List ℕ → S → Result BulkPublishResponse → S → Type 0
  Answers ids s (ok resp) s' =
      Run ids s resp.results s'
      × (resp.succeeded ≡ successes resp.results)
      × (resp.failed ≡ failures resp.results)
  Answers ids s (err e) s' = e ≡ cancelled
