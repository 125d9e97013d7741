-- ===== src/Pool/Starter.antt =====
-- `start_buffer_recording` of src/concertpvr/recording_starter.py, over the database and the pool.
use concertpvr.Prelude.{
  ℕ, ◌≡◌, refl, Bool, true, false, Option, none, some, Text, find, insert, length, leb, is_some,
  runtime_error, ok, err, Action, pure, modify, ◌>>◌, arith, find-insert_self,
}
use concertpvr.Models.{Db, Recording, recording}
use concertpvr.Pool.{Pool, Worker, start, is_recording}

-- What a recorder works on.
pub record Live : Type 0 where
  pub db : Db
  pub pool : Pool

abbrev pub in_db : {A : Type 0} → Action Db A → Action Live A
in_db m w = let (r, db) = m w.db in (r, record w { db = db })

abbrev pub in_pool : {A : Type 0} → Action Pool A → Action Live A
in_pool m w = let (r, p) = m w.pool in (r, record w { pool = p })

-- A recording of a live stream as it starts; the columns left out have their defaults.
abbrev pub live_recording : ℕ → ℕ → Text → Bool → Recording
live_recording stream_id now path is_buffer = record {
  stream_id = stream_id;
  started_at = now;
  ended_at = none;
  path = path;
  duration_s = 0;
  size_bytes = 0;
  width = none;
  height = none;
  fps = none;
  status = recording;
  is_buffer = is_buffer;
  error = none;
  raw_chapters_json = none;
  auto_publish_after_download = false;
  source_deleted = false;
}

abbrev pub add_recording : ℕ → Recording → Db → Db
add_recording id rec db = record db { recordings = insert id rec db.recordings }

-- `stream_dir` is `BufferManager.stream_dir`. The row is committed before the pool is asked.
unfoldable pub start_buffer_recording : (ℕ → Text) → ℕ → ℕ → ℕ → Action Live ℕ
start_buffer_recording stream_dir new_id now stream_id = do
  in_db (modify (add_recording new_id (live_recording stream_id now (stream_dir stream_id) true)))
  in_pool (start stream_id)
  pure new_id

-- Where the pool is full and the stream is not being recorded, a start raises, yet it leaves a row
-- that reads as being recorded, and the stream is not.
pub start_buffer_recording_full :
    (stream_dir : ℕ → Text) (new_id now stream_id : ℕ) (w : Live)
    → find new_id w.db.recordings ≡ none
    → is_recording stream_id w.pool ≡ false
    → leb w.pool.max_concurrent (length w.pool.workers) ≡ true
    → let (r, w') = start_buffer_recording stream_dir new_id now stream_id w in
      (r ≡ err runtime_error)
      × (find new_id w'.db.recordings
          ≡ some (live_recording stream_id now (stream_dir stream_id) true))
      × (is_recording stream_id w'.pool ≡ false)
unfolding start_buffer_recording start is_recording
start_buffer_recording_full stream_dir new_id now stream_id w fresh idle full =
    let rec = live_recording stream_id now (stream_dir stream_id) true in
    (ground arith, ground (arith, find-insert_self new_id rec w.db.recordings fresh), ground arith)

missing : (o : Option Worker) → is_some o ≡ false → o ≡ none
missing none e = refl
missing (some w) e = cc

-- Where a stream is not being recorded and the pool has room, a start records it, and answers with
-- the key of a row that reads as being recorded, in the stream's folder.
pub start_buffer_recording_lem :
    (stream_dir : ℕ → Text) (new_id now stream_id : ℕ) (w : Live)
    → find new_id w.db.recordings ≡ none
    → is_recording stream_id w.pool ≡ false
    → leb w.pool.max_concurrent (length w.pool.workers) ≡ false
    → let (r, w') = start_buffer_recording stream_dir new_id now stream_id w in
      (r ≡ ok new_id)
      × (find new_id w'.db.recordings
          ≡ some (live_recording stream_id now (stream_dir stream_id) true))
      × (is_recording stream_id w'.pool ≡ true)
unfolding start_buffer_recording start is_recording
start_buffer_recording_lem stream_dir new_id now stream_id w fresh idle room =
    let rec = live_recording stream_id now (stream_dir stream_id) true in
    let blank : Worker = record { stop_requested = false } in
    (
      ground arith,
      ground (arith, find-insert_self new_id rec w.db.recordings fresh),
      ground (
        arith,
        find-insert_self stream_id blank w.pool.workers
            (missing (find stream_id w.pool.workers) idle),
      ),
    )
