-- ===== src/Setlists/Solid.antt =====
-- Names that a line of a lineup can carry, and how `strip` and `splitlines` of Python act on such
-- lines, for src/concertpvr/setlist_parser.py.
use concertpvr.Prelude.{
  ℕ, ◌+◌, ◌<◌, ◌≡◌, refl, sym, ap, ◌∙◌, Bool, Bool-cases, inl, inr, true, false, not, ◌&&◌, ◌||◌,
  [], ◌∷◌, ◌++◌, append-nil, Text, all, arith, is_space, lstrip, rstrip, strip, is_empty, ◌==◌,
}
use concertpvr.Setlists.Lines.{is_break, splitlines, prepend}

-- A character of a line that neither ends the artist nor the line.
abbrev pub is_plain : ℕ → Bool
is_plain c = not (c == 45 || c == 183 || is_break c)

-- Plain characters, the last of which is not a blank.
abbrev pub is_solid : Text → Bool
is_solid [] = false
is_solid (c ∷ []) = is_plain c && not (is_space c)
is_solid (c ∷ d ∷ s) = is_plain c && is_solid (d ∷ s)

abbrev pub starts_plainly : Text → Bool
starts_plainly [] = false
starts_plainly (c ∷ s) = not (is_space c) && not (c == 35)

pub rstrip-append : (s t : Text) → is_empty (rstrip t) ≡ false → rstrip (s ++ t) ≡ s ++ rstrip t
unfolding rstrip
rstrip-append [] t h = refl
rstrip-append (d ∷ s) t h = ground (arith, rstrip-append s t h, empty-append s (rstrip t))
  where
    empty-append : (s t : Text) → is_empty t ≡ false → is_empty (s ++ t) ≡ false
    empty-append [] t h = h
    empty-append (c ∷ s) t h = refl

pub splitlines-newline : (s : Text) → splitlines (10 ∷ s) ≡ [] ∷ splitlines s
unfolding splitlines
splitlines-newline [] = refl
splitlines-newline (c ∷ s) = refl

pub not_and : (b c : Bool) → (not b && c) ≡ true → (b ≡ false) × (c ≡ true)
not_and true c h = absurd (ground arith)
not_and false c h = (refl, h)

pub splitlines-plain :
    (c d : ℕ) (s : Text)
    → is_break c ≡ false
    → splitlines (c ∷ d ∷ s) ≡ prepend c (splitlines (d ∷ s))
unfolding splitlines
splitlines-plain c d s h = elim (Bool-cases (c == 13)) [
  | inl cr ↦ absurd (ground arith)
  | inr other ↦ rw (other, h) refl
]

pub splitlines-line :
    (l s : Text)
    → all (λ c. not (is_break c)) l ≡ true
    → splitlines (l ++ 10 ∷ s) ≡ l ∷ splitlines s
splitlines-line [] s h = splitlines-newline s
splitlines-line (c ∷ []) s h =
    splitlines-plain c 10 s (not_and (is_break c) true h).0 ∙ ap (prepend c) (splitlines-newline s)
splitlines-line (c ∷ d ∷ l) s h =
    let (plain, rest) = not_and (is_break c) (all (λ k. not (is_break k)) (d ∷ l)) h in
    splitlines-plain c d (l ++ 10 ∷ s) plain ∙ ap (prepend c) (splitlines-line (d ∷ l) s rest)

pub lstrip-plainly : (s t : Text) → starts_plainly s ≡ true → lstrip (s ++ t) ≡ s ++ t
unfolding lstrip
lstrip-plainly [] t h = cc
lstrip-plainly (c ∷ s) t h = ground arith

pub rstrip-solid : (s : Text) → is_solid s ≡ true → rstrip s ≡ s
unfolding rstrip
rstrip-solid [] h = refl
rstrip-solid (c ∷ []) h = ground arith
rstrip-solid (c ∷ d ∷ s) h = rw (rstrip-solid (d ∷ s) (not_first c (d ∷ s) h)) refl
  where
    not_first : (c : ℕ) (s : Text) → (is_plain c && is_solid s) ≡ true → is_solid s ≡ true
    not_first c s h = ground arith

pub strip-artist : (s : Text) → is_solid s ≡ true → starts_plainly s ≡ true → strip s ≡ s
unfolding strip
strip-artist s solid plain =
    ap rstrip (ap lstrip (sym (append-nil s)) ∙ lstrip-plainly s [] plain ∙ append-nil s)
    ∙ rstrip-solid s solid

pub digit-shown : (n : ℕ) → n < 10 → is_space (48 + n) ≡ false
unfolding is_space
digit-shown n h = ground arith

pub lstrip-blank : (s : Text) → lstrip (32 ∷ s) ≡ lstrip s
unfolding lstrip is_space
lstrip-blank s = refl

pub lstrip-shown : (c : ℕ) (s : Text) → is_space c ≡ false → lstrip (c ∷ s) ≡ c ∷ s
unfolding lstrip
lstrip-shown c s h = rw h refl

pub rstrip-digit : (n : ℕ) → n < 10 → rstrip ((48 + n) ∷ []) ≡ (48 + n) ∷ []
unfolding rstrip
rstrip-digit n h = rw (digit-shown n h) refl

pub all-append :
    (p : ℕ → Bool) (s t : Text) → all p s ≡ true → all p t ≡ true → all p (s ++ t) ≡ true
all-append p [] t hs ht = ht
all-append p (c ∷ s) t hs ht = ground (arith, all-append p s t)

pub unbroken-plain :
    (c : ℕ) (b : Bool) → (is_plain c && b) ≡ true → (not (is_break c) ≡ true) × (b ≡ true)
unbroken-plain c b h = ground arith

pub unbroken-solid : (s : Text) → is_solid s ≡ true → all (λ c. not (is_break c)) s ≡ true
unbroken-solid [] h = refl
unbroken-solid (c ∷ []) h = rw ((unbroken-plain c (not (is_space c)) h).0) refl
unbroken-solid (c ∷ d ∷ s) h =
    let (plain, rest) = unbroken-plain c (is_solid (d ∷ s)) h in
    rw (plain, unbroken-solid (d ∷ s) rest) refl
