-- ===== src/Segment/Tests.antt =====
-- The theorems about segments at concrete inputs.
use concertpvr.Prelude.{
  ℕ, pos, ◌≡◌, refl, false, Option, none, some, List, [], ◌∷◌, map, Text, codes, Table, find,
  values, lookup_error, ok, err, Action, arith, ◌+◌, ◌==◌, strip, if◌then◌else◌, Rows,
}
use concertpvr.Models.{
  Db, Recording, Segment, Setlist, recording, complete, interrupted, manual, draft,
}
use concertpvr.Segment.Segmenter.{Chapter, from_chapters, chapters_of, derive_draft_segments}
use concertpvr.Segment.Drafts.{Drafts, derive_draft_segments-Drafts}
use concertpvr.Segment.AutoSegment.{flush_recording}
use concertpvr.Segment.Once.{flush-Drafts, flush_all, derive_once}
use concertpvr.Segment.Api.{SegmentCreate, SegmentPatch}
use concertpvr.Segment.Bounds.{IsOrdered}
use concertpvr.Segment.Requests.{creates, patches, deletes, serve_all, serve_all-IsOrdered}
use concertpvr.Publish.Metadata.{Options}

-- A key above all that are in use.
abbrev next_key : List ℕ → ℕ
next_key [] = 1
next_key (k ∷ ks) = (k + 1) + next_key ks

abbrev chapter_list : List Chapter
chapter_list =
    record { title = some (codes " Opener "); start_time = none; end_time = some (pos 200) }
    ∷ record { title = some (codes "  "); start_time = some (pos 200); end_time = some (pos 300) }
    ∷ record {
      title = some (codes "Closer");
      start_time = some (pos 300);
      end_time = some (pos 300);
    }
    ∷ []

abbrev loads : Text → Option (List Chapter)
loads json = some chapter_list

abbrev live_recording : Recording
live_recording = record {
  stream_id = 1;
  started_at = 1000;
  ended_at = none;
  path = codes "/staging/1.mkv";
  duration_s = 0;
  size_bytes = 0;
  width = none;
  height = none;
  fps = none;
  status = recording;
  is_buffer = false;
  error = none;
  raw_chapters_json = none;
  auto_publish_after_download = false;
  source_deleted = false;
}

abbrev row : ℕ → ℕ → Setlist
row a b = record { recording_id = 7; artist = codes "A"; start_s = pos a; end_s = pos b }

abbrev rows : Table Setlist
rows = (1, row 60 90) ∷ (2, row 0 60) ∷ []

abbrev stored : Segment
stored = record {
  recording_id = 7;
  artist = codes "A";
  title = none;
  start_s = pos 10;
  end_s = pos 20;
  source = manual;
  status = draft;
  error = none;
  emby_path = none;
  poster_path = none;
  nfo_path = none;
  genres = none;
}

abbrev database : Table Segment → Db
database segs = record {
  settings = none;
  streams = [];
  subscriptions = [];
  recordings = (7, live_recording) ∷ [];
  schedules = [];
  segments = segs;
  setlists = rows;
  watchers = [];
}

abbrev with_segment : Db
with_segment = database ((3, stored) ∷ [])

from_chapters_run :
    map (λ (seg : Segment). seg.artist) (from_chapters 7 chapter_list) ≡ codes "Opener" ∷ []
unfolding from_chapters strip
from_chapters_run = refl

derive_draft_segments_example :
    Drafts 7 rows
      (chapters_of loads live_recording.raw_chapters_json)
      (derive_draft_segments loads 7 live_recording rows)
derive_draft_segments_example = derive_draft_segments-Drafts loads 7 live_recording rows

abbrev finished : Recording → Recording
finished rec = record rec { status = complete; ended_at = some 2000 }

abbrev crashed : Recording → Recording
crashed rec = record rec { status = interrupted }

flush-Drafts_example :
    let db' = flush_recording loads next_key 7 finished (database []) in
    (drafts : List Segment) × (values db'.segments ≡ drafts)
    × Drafts 7 rows (chapters_of loads (finished live_recording).raw_chapters_json) drafts
    × (find 7 db'.recordings ≡ some (finished live_recording))
flush-Drafts_example =
    flush-Drafts loads next_key 7 finished (database []) live_recording refl refl refl

derive_once_example :
    (flush_all loads next_key 7 (finished ∷ finished ∷ finished ∷ []) (database [])).segments
    ≡ (flush_recording loads next_key 7 finished (database [])).segments
derive_once_example =
    derive_once loads next_key 7 finished (finished ∷ finished ∷ []) (database []) live_recording
      refl refl refl ((λ _ _. refl), ((λ _ _. refl), tt))

abbrev request : SegmentCreate
request = record {
  recording_id = 7;
  artist = codes "B";
  title = none;
  start_s = pos 30;
  end_s = pos 40;
  source = manual;
  genres = none;
}

-- It moves the start past the end.
abbrev late_start : SegmentPatch
late_start = record {
  artist = none;
  title = none;
  start_s = some (some (pos 25));
  end_s = none;
  genres = none;
}

serve_all-IsOrdered_example :
    Rows IsOrdered
      (serve_all next_key
        (patches 3 late_start ∷ creates request ∷ deletes 3 ∷ [])
        with_segment).segments
serve_all-IsOrdered_example =
    serve_all-IsOrdered next_key (patches 3 late_start ∷ creates request ∷ deletes 3 ∷ [])
      with_segment (omega arith)

-- A publisher that knows one segment.
abbrev publish_one : ℕ → Options → Action ℕ (Unit {0})
publish_one id opts n = (if id == 3 then ok tt else err lookup_error, n + 1)

abbrev plain : Options
plain = record { festival = none; venue = none; year = none }
