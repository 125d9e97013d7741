-- ===== src/Auth/Login.antt =====
-- From a new password to a session, through src/concertpvr/api/auth.py.
use concertpvr.Prelude.{
  ℕ, ◌+◌, ◌≤◌, ◌≡◌, refl, ap, ◌∙◌, Bool, false, true, some, Text, is_empty, http, ok, err, Result,
  arith, if◌then◌else◌,
}
use concertpvr.Models.{Db}
use concertpvr.Auth.Session.{
  Crypto, passed, SetPasswordPayload, or_new, read_settings, path_is_open, verify_password,
  verify_token, login, is_current, secret_of, set_password, dispatch,
}
use concertpvr.Auth.Access.{set_password-accepted, dispatch-locked}

-- What argon2 and itsdangerous promise: a password verifies against its hash, and a token is accepted
-- with its secret for as long as the age asked for.
pub record IsCrypto (t : Crypto) : Type 0 where
  pub verifies : (p : Text) → t.verify (t.hash p) p ≡ true
  pub shown : (p : Text) → is_empty (t.hash p) ≡ false
  pub issued : (s : Text) (now : ℕ) → is_empty (t.dumps s now) ≡ false
  pub accepted :
      (s : Text) (age at now : ℕ)
      → at ≤ now
      → now ≤ at + age
      → t.loads s age now (t.dumps s at) ≡ true

always : (b : Bool) → (if b then passed else passed) ≡ passed
always true = refl
always false = refl

module _ (t : Crypto) where
  login-known :
      (now : ℕ) (password h s : Text) (db : Db)
      → read_settings db ≡ (some h, some s)
      → login t now password db ≡ (
        if verify_password t password h
            then ok (t.dumps s now)
            else err (http 401 "invalid password"),
        db,
      )
  unfolding login
  login-known now password h s db e = ground arith

  set_password-right :
      (now : ℕ) (p : SetPasswordPayload) (token : Text) (db : Db)
      → (set_password t now p db).0 ≡ ok token
      → is_current t (or_new db.settings).password_hash p.current_password ≡ true
  unfolding set_password
  set_password-right now p token db h = ground arith

  set_password-read :
      (now : ℕ) (p : SetPasswordPayload) (token : Text) (db : Db)
      → (set_password t now p db).0 ≡ ok token
      → read_settings (set_password t now p db).1
        ≡ (some (t.hash p.new_password), some (secret_of t (or_new db.settings).session_secret))
  unfolding read_settings
  set_password-read now p token db h =
      ap (λ (x : Result Text × Db). read_settings x.1)
        (set_password-accepted t now p db (set_password-right now p token db h))

  -- After a password was set, a login with it answers with a token that passes every path for thirty
  -- days, and a login with a password that does not verify answers 401; neither changes the database.
  pub set_password-login :
      (now at later : ℕ) (p : SetPasswordPayload) (token path wrong : Text) (db : Db)
      → IsCrypto t
      → (set_password t now p db).0 ≡ ok token
      → at ≤ later
      → later ≤ at + 2592000
      → t.verify (t.hash p.new_password) wrong ≡ false
      → let db' = (set_password t now p db).1 in
        (login t at wrong db' ≡ (err (http 401 "invalid password"), db'))
        × ((ticket : Text) × (login t at p.new_password db' ≡ (ok ticket, db'))
            × (dispatch t later path ticket db' ≡ passed))
  unfolding verify_password verify_token
  set_password-login now at later p token path wrong db c h le soon bad =
      let e = set_password-read now p token db h in
      let db' = (set_password t now p db).1 in
      let secret = secret_of t (or_new db.settings).session_secret in
      let hash = t.hash p.new_password in
      (
        login-known at wrong hash secret db' e ∙ rw (bad, c.shown p.new_password) refl,
        (
          t.dumps secret at,
          login-known at p.new_password hash secret db' e
              ∙ rw (c.verifies p.new_password, c.shown p.new_password) refl,
          dispatch-locked t later path (t.dumps secret at) hash secret db' e
              ∙ rw (c.issued secret at, c.accepted secret 2592000 at later le soon)
                  (always (path_is_open path)),
        ),
      )
