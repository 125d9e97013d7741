-- ===== src/Auth/Session.antt =====
-- src/concertpvr/auth.py, src/concertpvr/session.py and src/concertpvr/api/auth.py. The hashes of
-- argon2, the tokens of itsdangerous and the secrets are the record `Crypto`. A request is its path
-- and its session cookie; times are seconds.
use concertpvr.Prelude.{
  ℕ, Bool, true, false, not, ◌&&◌, ◌||◌, Option, none, some, Text, codes, is_empty, starts_with,
  text_eq, Exn, http, Action, pure, raise, raise_if, gets, modify, session, ◌>>=◌, ◌>>◌,
  if◌then◌else◌,
}
use concertpvr.Models.{Db, Settings}

pub record Crypto : Type 0 where
  -- `_hasher.hash(plain)`
  pub hash : Text → Text
  -- `_hasher.verify(hashed, plain)`; an exception reads as false.
  pub verify : Text → Text → Bool
  -- `dumps({"v": 1})` with a secret at a time.
  pub dumps : Text → ℕ → Text
  -- Whether `loads(token, max_age=...)` with a secret answers at a time, and does not raise.
  pub loads : Text → ℕ → ℕ → Text → Bool
  -- `secrets.token_urlsafe(32)`
  pub new_secret : Text

abbrev pub session_max_age_s : ℕ
session_max_age_s = 2592000

-- The row that `Settings(id=1)` and a flush make.
abbrev pub new_settings : Settings
new_settings = record {
  emby_url = none;
  emby_api_key = none;
  emby_library_path = none;
  emby_path_local_prefix = none;
  emby_path_emby_prefix = none;
  folder_pattern = codes "{artist} - {festival} ({year})";
  default_quality = codes "bestvideo*+bestaudio/best";
  default_retention_days = 7;
  max_concurrent_recordings = 4;
  auto_prune_when_full = false;
  yt_dlp_cookies_path = none;
  password_hash = none;
  session_secret = none;
  max_concurrent_vod_downloads = 2;
  auto_delete_source_after_publish = false;
  setlistfm_api_key = none;
}

abbrev pub or_new : Option Settings → Settings
or_new none = new_settings
or_new (some row) = row

-- `_read_settings`
unfoldable pub read_settings : Db → Option Text × Option Text
read_settings db = elim db.settings [
  | none ↦ (none, none)
  | some row ↦ (row.password_hash, row.session_secret)
]

-- `_path_is_open`
unfoldable pub path_is_open : Text → Bool
unfolding starts_with text_eq
path_is_open path =
    starts_with (codes "/api/auth/") path
    || text_eq path (codes "/api/healthz")
    || not (starts_with (codes "/api/") path)

-- What the middleware does with a request: pass it on, or answer 401.
pub data Verdict : Type 0 where
  passed refused : Verdict

-- The answer of `me`.
pub record Me : Type 0 where
  pub authenticated : Bool
  pub password_set : Bool

pub record SetPasswordPayload : Type 0 where
  pub new_password : Text
  pub current_password : Option Text

abbrev pub password_not_set : Exn
password_not_set = http 400 "password not set"

abbrev pub password_invalid : Exn
password_invalid = http 401 "current password invalid"

module _ (t : Crypto) where
  unfoldable pub verify_password : Text → Text → Bool
  verify_password plain hashed = not (is_empty hashed) && t.verify hashed plain

  unfoldable pub verify_token : Text → Text → ℕ → Bool
  verify_token token secret now = not (is_empty token) && t.loads secret session_max_age_s now token

  -- The token of the cookie that the answer sets.
  abbrev pub login_with : ℕ → Text → Option Text × Option Text → Action Db Text
  login_with now password (none, _) = raise password_not_set
  login_with now password (some h, none) = raise password_not_set
  login_with now password (some h, some secret) =
      raise_if (not (verify_password password h)) (http 401 "invalid password")
      >> pure (t.dumps secret now)

  unfoldable pub login : ℕ → Text → Action Db Text
  unfolding verify_password read_settings
  login now password db = login_with now password (read_settings db) db

  abbrev pub me_with : ℕ → Text → Option Text × Option Text → Me
  me_with now token (none, _) = record { authenticated = true; password_set = false }
  me_with now token (some h, none) = record { authenticated = false; password_set = true }
  me_with now token (some h, some secret) = record {
    authenticated = not (is_empty secret) && verify_token token secret now;
    password_set = true;
  }

  unfoldable pub me : ℕ → Text → Db → Me
  unfolding verify_token read_settings
  me now token db = me_with now token (read_settings db)

  abbrev pub is_current : Option Text → Option Text → Bool
  is_current none _ = true
  is_current (some h) none = false
  is_current (some h) (some plain) = not (is_empty plain) && verify_password plain h

  abbrev pub secret_of : Option Text → Text
  secret_of none = t.new_secret
  secret_of (some s) = s

  abbrev pub with_password : Text → Settings → Settings
  with_password plain row = record row {
    password_hash = some (t.hash plain);
    session_secret = some (secret_of row.session_secret);
  }

  -- The token of the cookie that the answer sets.
  unfoldable pub set_password : ℕ → SetPasswordPayload → Action Db Text
  unfolding verify_password
  set_password now p = session do
    row ← gets (λ db. or_new db.settings)
    raise_if (not (is_current row.password_hash p.current_password)) password_invalid
    modify (λ db. record db { settings = some (with_password p.new_password row) })
    pure (t.dumps (secret_of row.session_secret) now)

  -- The startup makes sure that there is a secret (main.py).
  unfoldable pub ensure_secret : Db → Db
  ensure_secret db =
      let row = or_new db.settings in
      record db {
        settings = some (record row { session_secret = some (secret_of row.session_secret) });
      }

  abbrev pub judged : ℕ → Text → Option Text × Option Text → Verdict
  judged now token (none, _) = passed
  judged now token (some h, none) = passed
  judged now token (some h, some secret) = if verify_token token secret now then passed else refused

  -- `AuthMiddleware.dispatch`
  unfoldable pub dispatch : ℕ → Text → Text → Db → Verdict
  unfolding path_is_open verify_token read_settings
  dispatch now path token db =
      if path_is_open path then passed else judged now token (read_settings db)
