-- ===== src/Auth/Tests.antt =====
-- The theorems about sessions at concrete inputs, and a path translated for Emby.
use concertpvr.Prelude.{
  ℕ, ◌+◌, ◌≡◌, refl, false, Bool, ◌&&◌, ◌||◌, none, some, [], ◌∷◌, Text, codes, text_eq,
  text_eq_self, leb, arith, http, ok, err, if◌then◌else◌,
}
use concertpvr.Models.{Db}
use concertpvr.Examples.{database}
use concertpvr.Auth.Session.{
  Crypto, passed, refused, SetPasswordPayload, new_settings, read_settings, path_is_open,
  verify_token, login, set_password, dispatch,
}
use concertpvr.Auth.Emby.{EmbyClient, translate_path}
use concertpvr.Auth.Access.{sets_password, logs_in, restarts, serve_all, serve_all-dispatch}
use concertpvr.Auth.Login.{IsCrypto, set_password-login}

-- A hash that marks the password, and tokens that are a time and the secret.
abbrev read_token : Text → ℕ → ℕ → Text → Bool
read_token s age now [] = false
read_token s age now (at ∷ secret) = leb now (at + age) && text_eq secret s

abbrev crypto : Crypto
crypto = record {
  hash = λ p. 1 ∷ p;
  verify = λ h p. text_eq h (1 ∷ p);
  dumps = λ s now. now ∷ s;
  loads = read_token;
  new_secret = codes "secret";
}

crypto-IsCrypto : IsCrypto crypto
crypto-IsCrypto = record {
  verifies = λ p. text_eq_self (1 ∷ p);
  shown = λ p. refl;
  issued = λ s now. refl;
  accepted = λ s age at now le soon. ground (arith, text_eq_self s);
}

abbrev open_site : Db
open_site = database []

abbrev first : SetPasswordPayload
first = record { new_password = codes "a"; current_password = none }

abbrev guarded : Db
guarded = (set_password crypto 100 first open_site).1

set_password-login_example :
    (login crypto 200 (codes "b") guarded ≡ (err (http 401 "invalid password"), guarded))
    × ((ticket : Text) × (login crypto 200 (codes "a") guarded ≡ (ok ticket, guarded))
        × (dispatch crypto 300 (codes "/api/settings") ticket guarded ≡ passed))
unfolding set_password text_eq
set_password-login_example =
    set_password-login crypto 100 200 300 first (100 ∷ codes "secret") (codes "/api/settings")
      (codes "b") open_site crypto-IsCrypto refl (omega arith) (omega arith) refl

abbrev known : Db
known = record open_site {
  settings =
      some (record new_settings {
        password_hash = some (codes "h");
        session_secret = some (codes "s");
      });
}

serve_all-dispatch_example :
    dispatch crypto 300
      (codes "/api/settings")
      []
      (serve_all crypto (restarts ∷ sets_password 100 first ∷ logs_in 200 (codes "a") ∷ []) known)
    ≡ (if path_is_open (codes "/api/settings") || verify_token crypto [] (codes "s") 300
        then passed
        else refused)
unfolding read_settings
serve_all-dispatch_example =
    serve_all-dispatch crypto (restarts ∷ sets_password 100 first ∷ logs_in 200 (codes "a") ∷ [])
      300 (codes "/api/settings") [] (codes "h") (codes "s") known refl

abbrev client : EmbyClient
client = record {
  base_url = some (codes "http://emby");
  api_key = some (codes "k");
  local_prefix = some (codes "/media/");
  emby_prefix = some (codes "/mnt/");
}

translated : translate_path client (codes "/media/a") ≡ codes "/mnt/a"
unfolding translate_path
translated = refl

not_translated : translate_path client (codes "/other/a") ≡ codes "/other/a"
unfolding translate_path
not_translated = refl
