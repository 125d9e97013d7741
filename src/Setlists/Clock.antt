-- ===== src/Setlists/Clock.antt =====
-- The two times of a line, printed in the form that src/concertpvr/setlist_parser.py reads.
use concertpvr.Prelude.{
  ℕ, ◌+◌, ◌*◌, ◌/◌, ◌%◌, ◌<◌, ◌≡◌, refl, ap, ◌∙◌, Bool, true, not, none, some, [], ◌∷◌, Text, arith,
  is_space, lstrip, ◌==◌,
}
use concertpvr.Setlists.Solid.{lstrip-blank, lstrip-shown, digit-shown}
use concertpvr.Setlists.Lines.{short_number, two_digits, expect}
use concertpvr.Setlists.Parser.{
  to_seconds, last_part, time, from_start, to_end, ending, times_behind,
}

-- A number below a hundred.
abbrev pub two : ℕ → Text → Text
two n s = (48 + n / 10) ∷ (48 + n % 10) ∷ s

-- Minutes and seconds.
abbrev pub clock : ℕ → Text → Text
clock n s = two (n / 60) (58 ∷ two (n % 60) s)

abbrev pub times : ℕ → ℕ → Text
times start end = 32 ∷ 45 ∷ 32 ∷ clock start (32 ∷ 45 ∷ 32 ∷ clock end [])

short_number-two : (n : ℕ) (s : Text) → n < 100 → short_number (two n s) ≡ some (n, s)
unfolding short_number
short_number-two n s h = ground arith

two_digits-two : (n : ℕ) (s : Text) → n < 100 → two_digits (two n s) ≡ some (n, s)
unfolding two_digits
two_digits-two n s h = ground arith

-- A text that goes on with no colon.
abbrev goes_on : Text → Bool
goes_on [] = true
goes_on (c ∷ s) = not (c == 58)

last_part-none : (s : Text) → goes_on s ≡ true → last_part s ≡ (none, s)
last_part-none [] h = refl
last_part-none (c ∷ s) h = ground arith

time-parts :
    (a b : ℕ) (s s1 s2 s3 : Text)
    → short_number s ≡ some (a, s1)
    → expect 58 s1 ≡ some s2
    → two_digits s2 ≡ some (b, s3)
    → last_part s3 ≡ (none, s3)
    → time s ≡ some (a * 60 + b, s3)
unfolding time to_seconds
time-parts a b s s1 s2 s3 h1 h2 h3 h4 = ground arith

of_clock : (n : ℕ) → (n / 60) * 60 + n % 60 ≡ n
of_clock n = omega arith

time-clock : (n : ℕ) (s : Text) → n < 6000 → goes_on s ≡ true → time (clock n s) ≡ some (n, s)
time-clock n s h on =
    time-parts (n / 60) (n % 60) (clock n s) (58 ∷ two (n % 60) s) (two (n % 60) s) s
      (short_number-two (n / 60) (58 ∷ two (n % 60) s) (omega arith)) refl
      (two_digits-two (n % 60) s (omega arith)) (last_part-none s on)
    ∙ ap (λ m. some (m, s)) (of_clock n)

lstrip-clock : (n : ℕ) (s : Text) → n < 6000 → lstrip (32 ∷ clock n s) ≡ clock n s
lstrip-clock n s h =
    lstrip-blank (clock n s) ∙ lstrip-shown _ _ (digit-shown (n / 60 / 10) (omega arith))

ending-time :
    (start end : ℕ) (s : Text)
    → time (lstrip s) ≡ some (end, [])
    → ending start s ≡ some (start, end)
unfolding lstrip
ending-time start end s h = rw (h, ending) refl

from_start-time :
    (start : ℕ) (s rest : Text)
    → time (lstrip s) ≡ some (start, rest)
    → from_start s ≡ to_end start rest
from_start-time start s rest h = rw (h, from_start) refl

to_end-dash : (start : ℕ) (s : Text) → to_end start (32 ∷ 45 ∷ s) ≡ ending start s
unfolding lstrip is_space
to_end-dash start [] = refl
to_end-dash start (c ∷ s) = refl

time-lstrip :
    (n : ℕ) (s : Text) → n < 6000 → goes_on s ≡ true → time (lstrip (32 ∷ clock n s)) ≡ some (n, s)
time-lstrip n s h on = ap time (lstrip-clock n s h) ∙ time-clock n s h on

pub times_behind-times :
    (start end : ℕ) → start < 6000 → end < 6000 → times_behind (times start end) ≡ some (start, end)
unfolding times_behind lstrip is_space
times_behind-times start end hs he =
    let rest = 32 ∷ 45 ∷ 32 ∷ clock end [] in
    from_start-time start (32 ∷ clock start rest) rest (time-lstrip start rest hs refl)
    ∙ to_end-dash start (32 ∷ clock end [])
    ∙ ending-time start end (32 ∷ clock end []) (time-lstrip end [] he refl)
