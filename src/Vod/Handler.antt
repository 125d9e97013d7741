-- ===== src/Vod/Handler.antt =====
-- `_vod_handler` of src/concertpvr/main.py, the handler of the VOD queue. What lies outside the
-- program is the record `Tools`: how yt-dlp ended, which file it wrote, what ffprobe found, the clock.
-- The publisher is a parameter, as the handler has it from the application's factory.
pub mod Laws
use concertpvr.Prelude.{
  length, select, text_eq, ℕ, truthy, contains, Bool, Option, none, some, List, [], ◌∷◌, Text,
  Table, codes, find, keys_where, Exn, cancelled, download_error, Result, ok, err, take, is_empty,
  not, if◌then◌else◌, ◌==◌, ◌&&◌, starts_with,
}
use concertpvr.Models.{
  Db, Settings, Recording, Stream, Segment, vod_downloading, vod_failed, complete,
}
use concertpvr.Segment.Segmenter.{Chapter}
use concertpvr.Segment.AutoSegment.{flush_recording}
use concertpvr.Vod.Queue.{World, unregister_running, set_recording}

-- What `Splitter.probe` returns, with the rate and the length rounded down.
pub record MediaInfo : Type 0 where
  pub width : ℕ
  pub height : ℕ
  pub fps : ℕ
  pub duration_s : ℕ

-- The arguments of `VodDownloader.download`.
pub record Download : Type 0 where
  pub url : Text
  pub output_path : Text
  pub quality_format : Text
  pub cookies_path : Option Text
  pub live_from_start : Bool

pub record Tools : Type 0 where
  -- How `VodDownloader.download` ends.
  pub download : Download → Result (Unit {0})
  -- The paths on disk that begin with a prefix, sorted, each with whether it is a file.
  pub glob : Text → List (Text × Bool)
  -- `Splitter.probe`, with `none` where it raises.
  pub probe : Text → Option MediaInfo
  -- `p.stat().st_size`, if the file exists.
  pub size : Text → Option ℕ
  pub now : ℕ
  -- `str(e)`
  pub describe : Exn → Text
  -- `json.loads`, and the keys of new segments.
  pub loads : Text → Option (List Chapter)
  pub fresh : List ℕ → ℕ

-- The first session: the row and the stream are read, and the row is marked as downloading.
pub data Begun : Type 0 where
  gone : Begun
  started : Recording → Stream → Begun

abbrev pub stream_missing : Recording → Recording
stream_missing rec = record rec { status = vod_failed; error = some (codes "stream missing") }

abbrev pub downloading : Recording → Recording
downloading rec = record rec { status = vod_downloading }

abbrev pub begin_stream : ℕ → Recording → Option Stream → World → Begun × World
begin_stream id rec none w = (gone, set_recording id stream_missing w)
begin_stream id rec (some st) w = (started rec st, set_recording id downloading w)

abbrev pub begin_row : ℕ → Option Recording → World → Begun × World
begin_row id none w = (gone, w)
begin_row id (some rec) w = begin_stream id rec (find rec.stream_id w.db.streams) w

unfoldable pub begin : ℕ → World → Begun × World
begin id w = begin_row id (find id w.db.recordings) w

-- `Path(p).name`: what follows the last slash.
unfoldable pub path_name : Text → Text
path_name [] = []
path_name (c ∷ p) = if contains b'/' p then path_name p else if c == b'/' then p else c ∷ p

-- What stands before the first "%".
unfoldable pub before_percent : Text → Text
before_percent [] = []
before_percent (c ∷ p) = if c == b'%' then [] else c ∷ before_percent p

-- `Path(p).suffix`: the last dot of the name and what follows it, where neither part is empty.
last_dot : Text → Option Text
last_dot [] = none
last_dot (c ∷ p) = elim (last_dot p) [
  | some e ↦ some e
  | none ↦ if c == b'.' then some (c ∷ p) else none
]

abbrev suffix_of_name : Text → Text
suffix_of_name [] = []
suffix_of_name (c ∷ name) = elim (last_dot name) [
  | none ↦ []
  | some e ↦ if length e == 1 then [] else e
]

unfoldable pub path_suffix : Text → Text
unfolding path_name last_dot
path_suffix p = suffix_of_name (path_name p)

-- A finished download: a file that is neither a fragment nor a part.
abbrev pub is_usable : Text × Bool → Bool
is_usable (p, is_file) =
    is_file
    && not (text_eq (path_suffix p) (codes ".part"))
    && not (text_eq (path_suffix p) (codes ".ytdl"))

abbrev first_or : Text → List (Text × Bool) → Text
first_or path [] = path
first_or path ((p, _) ∷ _) = p

-- The file that yt-dlp wrote for an output template, or the path itself.
unfoldable pub resolve : (Text → List (Text × Bool)) → Text → Text
unfolding before_percent path_suffix
resolve glob path =
    if contains b'%' path
    then first_or path (select is_usable (glob (before_percent path)))
    else path

abbrev default_format : Text
default_format = codes "bestvideo*+bestaudio/best"

abbrev quality_of : Option Settings → Text
quality_of none = default_format
quality_of (some row) = row.default_quality

-- `_resolve_cookies_path` of recording_starter.py: no path if it is unset or empty.
abbrev pub cookies_of : Option Settings → Option Text
cookies_of none = none
cookies_of (some row) = if truthy row.yt_dlp_cookies_path then row.yt_dlp_cookies_path else none

-- A file name that begins with "dvr-" asks for the start of the DVR window.
unfoldable pub request_of : Db → Recording → Stream → Download
unfolding path_name
request_of db rec st = record {
  url = st.url;
  output_path = rec.path;
  quality_format = quality_of db.settings;
  cookies_path = cookies_of db.settings;
  live_from_start = starts_with (codes "dvr-") (path_name rec.path);
}

module _ (t : Tools) where
  abbrev pub with_size : Option ℕ → Recording → Recording
  with_size none rec = rec
  with_size (some n) rec = record rec { size_bytes = n }

  abbrev pub with_media : Option MediaInfo → Recording → Recording
  with_media none rec = rec
  with_media (some m) rec = record rec {
    width = some m.width;
    height = some m.height;
    fps = some m.fps;
    duration_s = m.duration_s;
  }

  -- The attributes that the last session sets.
  unfoldable pub completed : Text → Recording → Recording
  completed path rec = with_media (t.probe path) (
      with_size (t.size path)
        (record rec { status = complete; ended_at = some t.now; path = path }))

  -- The last session: the row is completed, and drafts are derived when it is flushed.
  unfoldable pub complete_download : ℕ → Text → World → World
  unfolding completed flush_recording
  complete_download id path w = record w {
    db = flush_recording t.loads t.fresh id (completed path) w.db;
  }

  -- The segments that can be published: those with an artist.
  unfoldable pub publishable : ℕ → Table Segment → List ℕ
  publishable id segs = keys_where (λ seg. seg.recording_id == id && not (is_empty seg.artist)) segs

  module _ (publish : ℕ → World → Result (Unit {0}) × World) where
    -- `except Exception` logs a failure, and the next segment is published. It lets a `CancelledError`
    -- pass, which ends the loop; that one comes only as the worker's own task ends.
    abbrev pub carry_on : Result (Unit {0}) → World → World → World
    carry_on (ok _) w rest = rest
    carry_on (err cancelled) w rest = w
    carry_on (err _) w rest = rest

    unfoldable pub publish_all : List ℕ → World → World
    publish_all [] w = w
    publish_all (sid ∷ sids) w =
        let (r, w') = publish sid w in let rest = publish_all sids w' in carry_on r w' rest

    abbrev pub auto_publish_from : ℕ → Option Recording → World → World
    auto_publish_from id none w = w
    auto_publish_from id (some rec) w =
        if rec.auto_publish_after_download then publish_all (publishable id w.db.segments) w else w

    unfoldable pub auto_publish : ℕ → World → World
    unfolding publishable publish_all
    auto_publish id w = auto_publish_from id (find id w.db.recordings) w

    abbrev pub unregistered : ℕ → World → World
    unregistered id w = record w { queue = unregister_running id w.queue }

    abbrev pub failed_row : Recording → Recording
    failed_row rec = record rec {
      status = vod_failed;
      error = some (take 500 (t.describe download_error));
    }

    -- From the end of the download on.
    abbrev pub after_download : ℕ → Text → Result (Unit {0}) → World → Result (Unit {0}) × World
    after_download id path (ok _) w =
        (ok tt, auto_publish id (complete_download id (resolve t.glob path) (unregistered id w)))
    after_download id path (err download_error) w =
        (ok tt, set_recording id failed_row (unregistered id w))
    after_download id path (err e) w = (err e, unregistered id w)

    abbrev pub download_begun : ℕ → Begun → World → Result (Unit {0}) × World
    download_begun id gone w = (ok tt, w)
    download_begun id (started rec st) w =
        after_download id rec.path (t.download (request_of w.db rec st)) w

    unfoldable pub vod_handler : ℕ → World → Result (Unit {0}) × World
    unfolding begin complete_download auto_publish unregister_running request_of resolve
    vod_handler id w = let (b, w') = begin id w in download_begun id b w'
