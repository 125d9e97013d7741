-- ===== src/Publish/Metadata.antt =====
-- The values that `PublishWorker.publish` derives from the segment, its recording and its stream
-- before it cuts the clip.
use concertpvr.Prelude.{
  ℕ, Bool, true, false, not, ◌&&◌, Option, none, some, List, [], ◌∷◌, ◌++◌, Text, map, select,
  contains, is_empty, truthy, strip, is_space, split_on, if◌then◌else◌, ◌==◌, find, Table,
}
use concertpvr.Models.{Date, Stream, ChannelWatcher, is_video}

-- The keyword arguments of `publish`.
pub record Options : Type 0 where
  pub festival : Option Text
  pub venue : Option Text
  pub year : Option ℕ

abbrev em_dash : ℕ
em_dash = 8212

-- `title.split("—")[0]`
unfoldable pub before_dash : Text → Text
before_dash [] = []
before_dash (c ∷ s) = if c == em_dash then [] else c ∷ before_dash s

-- `title.split("—", 1)[1]`, where there is a dash.
unfoldable pub after_dash : Text → Text
after_dash [] = []
after_dash (c ∷ s) = if c == em_dash then s else after_dash s

abbrev some_if : Text → Option Text
some_if [] = none
some_if (c ∷ s) = some (c ∷ s)

abbrev given_or {ℓ} : {A : Type ℓ} → Option A → A → A
given_or (some a) b = a
given_or none b = b

-- The year: given, or that of the upload date, or of the recording's start.
unfoldable pub resolve_year : (ℕ → Date) → Option ℕ → Option Date → ℕ → ℕ
resolve_year date_of (some y) upload started = y
resolve_year date_of none (some d) started = d.year
resolve_year date_of none none started = (date_of started).year

unfoldable pub resolve_date : (ℕ → Date) → Option Date → ℕ → Date
resolve_date date_of (some d) started = d
resolve_date date_of none started = date_of started

-- The festival: given, or the channel of a video, or what stands before the dash in the title.
unfoldable pub resolve_festival : Option Text → Stream → Option Text
unfolding before_dash
resolve_festival (some f) st = some f
resolve_festival none st =
    if is_video st.kind
    then some_if st.channel_name
    else if contains em_dash st.title
    then some (strip (before_dash st.title))
    else none

-- The venue: given, or what stands behind the dash in the title of a live stream.
unfoldable pub resolve_venue : Option Text → Stream → Option Text
unfolding after_dash
resolve_venue (some v) st = some v
resolve_venue none st =
    if not (is_video st.kind) && contains em_dash st.title
    then some (strip (after_dash st.title))
    else none

-- `[g.strip() for g in genres.split(",") if g.strip()]`
unfoldable pub split_genres : Text → List Text
split_genres s = select (λ g. not (is_empty g)) (map strip (split_on b',' s))

abbrev default_genres_of : Option ChannelWatcher → List Text
default_genres_of none = []
default_genres_of (some w) = elim w.default_genres [ none ↦ [] | some g ↦ split_genres g ]

abbrev watcher_genres : Option ℕ → Table ChannelWatcher → List Text
watcher_genres none t = []
watcher_genres (some id) t = default_genres_of (find id t)

-- The segment's genres, or else those of the watcher that found the stream.
unfoldable pub resolve_genres : Option Text → Option ℕ → Table ChannelWatcher → List Text
unfolding split_genres
resolve_genres none watcher t = watcher_genres watcher t
resolve_genres (some []) watcher t = watcher_genres watcher t
resolve_genres (some (c ∷ g)) watcher t = split_genres (c ∷ g)

-- The plot: the description of a video.
unfoldable pub resolve_plot : Stream → Option Text
resolve_plot st = if is_video st.kind && truthy st.description then st.description else none

-- `s.split()`: the runs of characters that are not blank.
abbrev glue : ℕ → Bool → List Text → List Text
glue c true ws = (c ∷ []) ∷ ws
glue c false [] = (c ∷ []) ∷ []
glue c false (w ∷ ws) = (c ∷ w) ∷ ws

abbrev starts_blank : Text → Bool
starts_blank [] = true
starts_blank (c ∷ _) = is_space c

unfoldable pub words : Text → List Text
unfolding is_space
words [] = []
words (c ∷ s) = let rest = words s in if is_space c then rest else glue c (starts_blank s) rest

-- `" ".join(ws)`
unfoldable pub join_words : List Text → Text
join_words [] = []
join_words (w ∷ []) = w
join_words (w ∷ w' ∷ ws) = w ++ b' ' ∷ join_words (w' ∷ ws)

-- `" ".join(s.split())`
unfoldable pub squeeze : Text → Text
unfolding words join_words
squeeze s = join_words (words s)
