-- ===== src/Auth/Access.antt =====
-- Who gets past `AuthMiddleware` of src/concertpvr/api/auth.py.
use mathlib.Core.Path.{ap₂}
use concertpvr.Prelude.{
  ℕ, ◌≡◌, refl, sym, ap, ◌∙◌, subst, Bool-cases, inl, inr, false, true, Bool, ◌||◌, Option-cases,
  some, List, [], ◌∷◌, Text, ok, err, Result, Action, Action, session, modify, pure, ◌>>=◌, ◌>>◌,
  arith, if◌then◌else◌,
}
use concertpvr.Models.{Db, Settings}
use concertpvr.Auth.Session.{
  Crypto, passed, refused, SetPasswordPayload, or_new, read_settings, path_is_open, verify_token,
  login, is_current, secret_of, with_password, set_password, ensure_secret, dispatch,
}
use concertpvr.Auth.Settings.{SettingsPatch, apply_patch, patch_row}

-- Whether the secret is as before, and a password is set.
abbrev Keeps : Text → Db → Type 0
Keeps s db = (h : Text) × (read_settings db ≡ (some h, some s))

row_of :
    (s h : Text) (db : Db)
    → read_settings db ≡ (some h, some s)
    → (row : Settings) × (db.settings ≡ some row)
      × (row.password_hash ≡ some h)
      × (row.session_secret ≡ some s)
unfolding read_settings
row_of s h db e = elim (Option-cases db.settings) [
  | inl nothing ↦ absurd (ground arith)
  | inr (row, r) ↦ (row, r, ground arith, ground arith)
]

hash_at :
    (s h : Text) (db : Db)
    → read_settings db ≡ (some h, some s)
    → (or_new db.settings).password_hash ≡ some h
hash_at s h db e =
    let (row, r, hash, sec) = row_of s h db e in ap (λ o. (or_new o).password_hash) r ∙ hash

secret_at :
    (s h : Text) (db : Db)
    → read_settings db ≡ (some h, some s)
    → (or_new db.settings).session_secret ≡ some s
secret_at s h db e =
    let (row, r, hash, sec) = row_of s h db e in ap (λ o. (or_new o).session_secret) r ∙ sec

module _ (t : Crypto) where
  pub dispatch-locked :
      (now : ℕ) (path token h s : Text) (db : Db)
      → read_settings db ≡ (some h, some s)
      → dispatch t now path token db ≡ (
          if path_is_open path
          then passed
          else (if verify_token t token s now then passed else refused))
  unfolding dispatch
  dispatch-locked now path token h s db e = rw e refl

  pub set_password-refused :
      (now : ℕ) (p : SetPasswordPayload) (db : Db)
      → is_current t (or_new db.settings).password_hash p.current_password ≡ false
      → (set_password t now p db).1 ≡ db
  unfolding set_password
  set_password-refused now p db wrong = ground arith

  pub set_password-accepted :
      (now : ℕ) (p : SetPasswordPayload) (db : Db)
      → is_current t (or_new db.settings).password_hash p.current_password ≡ true
      → set_password t now p db ≡ (
        ok (t.dumps (secret_of t (or_new db.settings).session_secret) now),
        record db { settings = some (with_password t p.new_password (or_new db.settings)) },
      )
  unfolding set_password
  set_password-accepted now p db right = ground arith

  set_password-Keeps :
      (now : ℕ) (p : SetPasswordPayload) (s : Text) (db : Db)
      → Keeps s db
      → Keeps s (set_password t now p db).1
  unfolding read_settings
  set_password-Keeps now p s db (h, e) =
      elim (Bool-cases (is_current t (or_new db.settings).password_hash p.current_password)) [
        | inl right ↦
            subst (Keeps s)
              (sym (ap (λ (x : Result Text × Db). x.1) (set_password-accepted now p db right)))
              (
                t.hash p.new_password,
                ap (λ o. (some (t.hash p.new_password), some (secret_of t o))) (secret_at s h db e),
              )
        | inr wrong ↦ subst (Keeps s) (sym (set_password-refused now p db wrong)) (h, e)
      ]

  ensure_secret-Keeps : (s : Text) (db : Db) → Keeps s db → Keeps s (ensure_secret t db)
  unfolding ensure_secret read_settings
  ensure_secret-Keeps s db (h, e) =
      (h, ap₂ (λ a b. (a, some (secret_of t b))) (hash_at s h db e) (secret_at s h db e))

KeepsIfOk : Settings → Result Settings × Db → Type 0
KeepsIfOk row (ok row', db) =
    (row'.password_hash ≡ row.password_hash) × (row'.session_secret ≡ row.session_secret)
KeepsIfOk row (err _, db) = Unit

apply_patch-Keeps :
    (p : SettingsPatch) (row : Settings) (db : Db) → KeepsIfOk row (apply_patch p row db)
unfolding KeepsIfOk
apply_patch-Keeps p row db = ground arith

storing : Action Db Settings → Action Db Settings
storing m = session (m >>= λ row'. modify (λ db. record db { settings = some row' }) >> pure row')

stored :
    (m : Action Db Settings) (row : Settings) (s h : Text) (db : Db)
    → row.password_hash ≡ some h
    → row.session_secret ≡ some s
    → read_settings db ≡ (some h, some s)
    → KeepsIfOk row (m db)
    → read_settings (storing m db).1 ≡ (some h, some s)
unfolding storing KeepsIfOk read_settings
stored m row s h db hash sec e kept = ground arith

patch_row-Keeps : (p : SettingsPatch) (s : Text) (db : Db) → Keeps s db → Keeps s (patch_row p db).1
unfolding storing
patch_row-Keeps p s db (h, e) = (
  h,
  stored (apply_patch p (or_new db.settings)) (or_new db.settings) s h db (hash_at s h db e)
      (secret_at s h db e) e (apply_patch-Keeps p (or_new db.settings) db),
)

-- The requests that may change the settings, and a restart.
pub data Request : Type 0 where
  sets_password : ℕ → SetPasswordPayload → Request
  patches : SettingsPatch → Request
  logs_in : ℕ → Text → Request
  restarts : Request

either_way :
    (a b : Bool)
    → (if a then passed else (if b then passed else refused)) ≡ (if a || b then passed else refused)
either_way true b = refl
either_way false b = refl

module _ (t : Crypto) where
  abbrev pub serve : Request → Db → Db
  serve (sets_password now p) db = (set_password t now p db).1
  serve (patches p) db = (patch_row p db).1
  serve (logs_in now password) db = (login t now password db).1
  serve restarts db = ensure_secret t db

  unfoldable pub serve_all : List Request → Db → Db
  serve_all [] db = db
  serve_all (r ∷ rs) db = serve_all rs (serve r db)

  login-state : (now : ℕ) (password : Text) (db : Db) → (login t now password db).1 ≡ db
  unfolding login
  login-state now password db = ground arith

  serve-Keeps : (r : Request) (s : Text) (db : Db) → Keeps s db → Keeps s (serve r db)
  serve-Keeps (sets_password now p) s db h = set_password-Keeps t now p s db h
  serve-Keeps (patches p) s db h = patch_row-Keeps p s db h
  serve-Keeps (logs_in now password) s db h = subst (Keeps s) (sym (login-state now password db)) h
  serve-Keeps restarts s db h = ensure_secret-Keeps t s db h

  serve_all-Keeps :
      (rs : List Request) (s : Text) (db : Db) → Keeps s db → Keeps s (serve_all rs db)
  unfolding serve_all
  serve_all-Keeps [] s db h = h
  serve_all-Keeps (r ∷ rs) s db h = serve_all-Keeps rs s (serve r db) (serve-Keeps r s db h)

  -- Once there is a password and a secret, then after any sequence of password changes, patches of the
  -- settings, logins and restarts, accepted or refused, the middleware passes an open path, passes any
  -- other path exactly with a token that this secret accepts, and refuses it otherwise.
  pub serve_all-dispatch :
      (rs : List Request) (now : ℕ) (path token h s : Text) (db : Db)
      → read_settings db ≡ (some h, some s)
      → dispatch t now path token (serve_all rs db)
        ≡ (if path_is_open path || verify_token t token s now then passed else refused)
  serve_all-dispatch rs now path token h s db e =
      let (h', e') = serve_all-Keeps rs s db (h, e) in
      dispatch-locked t now path token h' s (serve_all rs db) e'
      ∙ either_way (path_is_open path) (verify_token t token s now)
