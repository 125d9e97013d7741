-- ===== src/Auth/Emby.antt =====
-- `EmbyClient` of src/concertpvr/emby.py without its HTTP request.
use concertpvr.Prelude.{
  Bool, ◌&&◌, Option, none, some, ◌++◌, ◌==◌, Text, truthy, is_some, starts_with, drop, length,
  if◌then◌else◌,
}
use concertpvr.Models.{Settings}
use concertpvr.Setlists.Lines.{rstrip_of}

pub record EmbyClient : Type 0 where
  pub base_url : Option Text
  pub api_key : Option Text
  pub local_prefix : Option Text
  pub emby_prefix : Option Text

-- `s or None`
abbrev pub or_none : Option Text → Option Text
or_none o = if truthy o then o else none

abbrev pub without_slashes : Option Text → Option Text
without_slashes none = none
without_slashes (some url) = or_none (some (rstrip_of (λ c. c == 47) url))

-- The client that the settings configure.
unfoldable pub create : Settings → EmbyClient
unfolding rstrip_of
create row = record {
  base_url = without_slashes row.emby_url;
  api_key = row.emby_api_key;
  local_prefix = or_none row.emby_path_local_prefix;
  emby_prefix = or_none row.emby_path_emby_prefix;
}

unfoldable pub configured : EmbyClient → Bool
configured c = is_some c.base_url && is_some c.api_key

abbrev pub mapped : Option Text → Option Text → Text → Text
mapped none _ path = path
mapped (some l) none path = path
mapped (some l) (some e) path = if starts_with l path then e ++ drop (length l) path else path

unfoldable pub translate_path : EmbyClient → Text → Text
unfolding starts_with
translate_path c path = mapped c.local_prefix c.emby_prefix path

-- The path that `trigger_path_scan` posts, if it posts.
unfoldable pub scan_of : EmbyClient → Text → Option Text
unfolding configured translate_path
scan_of c path = if configured c then some (translate_path c path) else none
