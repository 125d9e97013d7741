-- ===== src/Lib.antt =====
-- Verification of concertpvr, which records live concerts and downloads videos with yt-dlp, cuts them
-- into segments by artist, and publishes the segments to an Emby library.
--
-- Parts and files (paths of the program are from the repository's root):
-- - Prelude: tables, texts, integers, and actions. An endpoint or worker is an `Action S A`, a function
--   from a state to a result (a value or one of the exceptions in `Exn`) and a state. `session` is
--   `Database.session` of src/concertpvr/db.py: it takes its writes back when its body raises.
-- - Models: the rows and enumerations of src/concertpvr/models.py; `Db` is the database, a table for
--   each model, in the order of the keys. A key of a new row is an argument of the operation.
-- - Segment: draft segments (src/concertpvr/segmenter.py), the flush listener
--   (src/concertpvr/auto_segment.py) and the requests of src/concertpvr/api/segments.py.
-- - Vod: the download queue (src/concertpvr/vod_queue.py), its handler `_vod_handler` and the startup
--   (src/concertpvr/main.py), the recovery after a crash (src/concertpvr/vod_recovery.py and
--   src/concertpvr/orphan_recovery.py), and retry and cancel of src/concertpvr/api/recordings.py. The
--   state `World` is the database and the queue. Vod/Queue/Contract is what the queue needs of its
--   handler, and Vod/Handler/Laws is about the handler in that respect. Vod/Workers lets the workers,
--   requests and downloads interleave: a step is what runs between two `await`s. After the download
--   has ended, the rest of the handler is one step.
-- - Publish: `PublishWorker.publish` of src/concertpvr/publisher.py. Publish/Publisher puts it in the
--   place of the publisher that the download handler is given.
-- - Pool: `RecorderPool` (src/concertpvr/pool.py) and src/concertpvr/recording_starter.py. `Live` is
--   the database and the pool.
-- - Schedules: src/concertpvr/schedule_manager.py, src/concertpvr/scheduled_runner.py and
--   src/concertpvr/api/schedules.py. `Planner` is the database and the scheduler's jobs. What runs
--   while a scheduled recording sleeps is a parameter.
-- - Buffer: src/concertpvr/buffer.py and src/concertpvr/retention.py over a list of files. Disk usage
--   and floating-point operations are parameters.
-- - Poller: `_check_for_new_vod_uploads` of src/concertpvr/channel_poller.py, over the world of Vod. The
--   detection of setlists and of artists is a parameter.
-- - Setlists: src/concertpvr/setlist_detector.py, src/concertpvr/setlist_parser.py and
--   src/concertpvr/api/setlists.py. The regular expressions are written out as matchers on the code
--   points of a line. Setlists/Clock, Setlists/Solid and Setlists/Paste are about a printer of lineups.
-- - Backlog: src/concertpvr/backlog_cache.py and src/concertpvr/api/channel_watchers.py. The state
--   `Backlog` is the database, the cache rows and the set of cancel requests. What other tasks do while a
--   refresh awaits yt-dlp is a parameter. Downloads are over the world of Vod.
-- - Auth: src/concertpvr/auth.py, src/concertpvr/session.py, src/concertpvr/api/auth.py,
--   src/concertpvr/api/settings.py and src/concertpvr/emby.py. The state is the settings row; the hashes
--   and tokens of the libraries are a parameter, `Crypto`.
-- - Recordings: src/concertpvr/api/recordings.py but for retry and cancel, which stand in Vod/Api. A file
--   is the list of its bytes. The loop of `_stream_file` takes fuel, one round for each byte of the
--   range.
-- - Streams: src/concertpvr/api/streams.py but for URLs of channels and playlists, listing and deleting.
--   A change of a subscription works on the database and the pool (`Live` of Pool/Starter), adding a
--   stream and a capture on the world of Vod.
-- - Examples and the Tests modules: concrete inputs.
--
-- What is outside the program is a parameter: yt-dlp, ffmpeg, ffprobe, the file system, the clock, the
-- JSON parser and the HTTP requests are functions in the records `Tools`, which return or raise.
--
-- Bounds: `worker_loop` takes fuel, one round for each item of the FIFO; the theorems about it ask for
-- at least the number of waiting downloads. The batches of a slow refresh take as many rounds as there are
-- ids, which is enough since each round takes one at least. The loop over the chunks of a file takes one
-- round more than there are bytes in the range, and has no result where that is not enough.
-- Everything else is structural recursion.
--
-- Simplifications: times are whole seconds since the epoch, where a patch of a schedule compares wall
-- clocks without their time zone: all times are taken to be in one zone. Decimal digits are those of
-- ASCII in every pattern; whitespace is that of Unicode. The task of a worker is not cancelled while it
-- serves a recording: `cancelled` is `VodCancelled` in Vod, and the cancelled task of a publish in
-- Publish and Segment/Bulk. Files change only by what the modelled code does. The
-- database's unique columns are not enforced by the model, and a session that adds a row does not fail.
-- The module-level references of scheduled_runner.py are taken as registered.
-- An endpoint of Streams, Poller or Schedules runs as if nothing else ran while it awaits. The URL and the
-- quality of a recorder reach its subprocess only, and are left out.
--
-- Not modelled: the polling of live broadcasts, the playlists, the artist extractor, the answers of the
-- streams endpoint for URLs of channels and playlists, listing and deleting streams, the wrappers of the
-- subprocesses, websocket messages and logging, the web frontend, and the schema migrations.
pub mod Prelude
pub mod Models
pub mod Segment
pub mod Vod
pub mod Publish
pub mod Pool
pub mod Schedules
pub mod Buffer
pub mod Poller
pub mod Setlists
pub mod Backlog
pub mod Auth
pub mod Recordings
pub mod Streams
pub mod Examples
