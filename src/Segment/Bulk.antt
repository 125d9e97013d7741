-- ===== src/Segment/Bulk.antt =====
-- `bulk_publish` of src/concertpvr/api/segments.py, over the publisher that the application's factory
-- builds and the text that `str(e)` gives for an exception.
use concertpvr.Prelude.{
  ℕ, ◌+◌, Option, none, some, List, [], ◌∷◌, ◌++◌, Text, codes, Exn, lookup_error, cancelled,
  Result, ok, err, Action, take,
}
use concertpvr.Publish.Metadata.{Options}

pub data ItemStatus : Type 0 where
  published failed : ItemStatus

pub record BulkPublishItemResult : Type 0 where
  pub segment_id : ℕ
  pub status : ItemStatus
  pub error : Option Text

pub record BulkPublishResponse : Type 0 where
  pub results : List BulkPublishItemResult
  pub succeeded : ℕ
  pub failed : ℕ

module _ {S : Type 0} (describe : Exn → Text) (publish : ℕ → Options → Action S (Unit {0})) where
  abbrev pub error_text : Exn → Text
  error_text lookup_error = codes "not found: " ++ describe lookup_error
  error_text e = take 200 (describe e)

  abbrev pub with_success : ℕ → BulkPublishResponse → BulkPublishResponse
  with_success id acc = record acc {
    results = acc.results ++ record { segment_id = id; status = published; error = none } ∷ [];
    succeeded = acc.succeeded + 1;
  }

  abbrev pub with_failure : ℕ → Exn → BulkPublishResponse → BulkPublishResponse
  with_failure id e acc = record acc {
    results =
        acc.results
        ++ record { segment_id = id; status = failed; error = some (error_text e) } ∷ [];
    failed = acc.failed + 1;
  }

  -- One round of the loop. `except Exception` lets a `CancelledError` pass: nothing then.
  abbrev pub tally : ℕ → Result (Unit {0}) → BulkPublishResponse → Option BulkPublishResponse
  tally id (ok _) acc = some (with_success id acc)
  tally id (err cancelled) acc = none
  tally id (err e) acc = some (with_failure id e acc)

  unfoldable pub bulk_from : Options → List ℕ → BulkPublishResponse → Action S BulkPublishResponse
  bulk_from opts [] acc s = (ok acc, s)
  bulk_from opts (id ∷ ids) acc s =
      let (r, s') = publish id opts s in
      elim (tally id r acc) [ none ↦ (err cancelled, s') | some acc' ↦ bulk_from opts ids acc' s' ]

  unfoldable pub bulk_publish : Options → List ℕ → Action S BulkPublishResponse
  unfolding bulk_from
  bulk_publish opts ids s =
      bulk_from opts ids (record { results = []; succeeded = 0; failed = 0 }) s
