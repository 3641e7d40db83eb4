-- ===== src/Worker/Settings/Parsed.antt =====
-- rust/src/worker.rs: which settings of a timeout are accepted, and that a number's decimal text is.
use mathlib.Core.Path.{subst}
use mathlib.Core.List.{cons-ne-nil}
use dssp_bot.Prelude.{
  ℕ, ◌+◌, ◌-◌, ◌*◌, ◌^◌, ◌<◌, String, Bool, true, List, [], ◌∷◌, ◌≡◌, ◌≢◌, ◌↔◌, refl, ◌∙◌, ok,
  Bool-cases, inl, inr, arith,
}
use dssp_bot.Daemon.Bytes.{all_bytes, is_digit, from_digits}
use dssp_bot.Worker.Settings.{parse_u64, checked_timeout, parse_timeout}

-- The number that a text of digits writes, each digit with its weight.
abbrev pub weigh : List ℕ → ℕ × ℕ
weigh [] = (0, 1)
weigh (b ∷ bs) = let (n, weight) = weigh bs in ((b - b'0') * weight + n, weight * 10)

abbrev pub numeral : List ℕ → ℕ
numeral bs = (weigh bs).0

from_digits_lem : (bs : List ℕ) (n : ℕ) → from_digits n bs ≡ n * (weigh bs).1 + (weigh bs).0
unfolding from_digits
from_digits_lem [] n = omega arith
from_digits_lem (b ∷ bs) n = grind (arith, from_digits_lem bs (n * 10 + (b - b'0')))

pub numeral_lem : (bs : List ℕ) → from_digits 0 bs ≡ numeral bs
numeral_lem bs = omega (arith, from_digits_lem bs 0)

-- The texts that a timeout may have: digits, one at least, of a number that is positive and fits.
abbrev pub IsTimeout : (ℕ → Bool) → List ℕ → ℕ → Type 0
IsTimeout fits value ms =
    (value ≢ [])
    × (all_bytes is_digit value ≡ true)
    × (numeral value ≡ ms)
    × (0 < ms)
    × (ms < 2 ^ 64)
    × (fits ms ≡ true)

checked_sound :
    (fits : ℕ → Bool) (name : String) (value : List ℕ) (n ms : ℕ)
    → from_digits 0 value ≡ n
    → checked_timeout fits name (parse_u64 value) ≡ ok ms
    → (n ≡ ms) × (0 < ms) × (ms < 2 ^ 64) × (fits ms ≡ true)
unfolding checked_timeout parse_u64
checked_sound fits name value n ms e h =
    let h' = rw e at h in
    elim (Bool-cases (fits n)) [
      | inl f ↦
          let facts : (n ≡ ms) × (0 < ms) × (ms < 2 ^ 64) = ground (arith, f) in
          (facts.0, facts.1, facts.2, subst (λ m. fits m ≡ true) facts.0 f)
      | inr f ↦ ground (arith, f)
    ]

checked_complete :
    (fits : ℕ → Bool) (name : String) (value : List ℕ) (n : ℕ)
    → from_digits 0 value ≡ n
    → 0 < n
    → n < 2 ^ 64
    → fits n ≡ true
    → checked_timeout fits name (parse_u64 value) ≡ ok n
unfolding checked_timeout parse_u64
checked_complete fits name value n e positive small f = rw e (ground (arith, f))

parsed_sound :
    (fits : ℕ → Bool) (name : String) (value : List ℕ) (ms : ℕ)
    → parse_timeout fits name value ≡ ok ms
    → IsTimeout fits value ms
unfolding parse_timeout
parsed_sound fits name [] ms h = cc
parsed_sound fits name (b ∷ bs) ms h = elim (Bool-cases (all_bytes is_digit (b ∷ bs))) [
  | inl digits ↦
      let (same, positive, small, fit) =
        checked_sound fits name (b ∷ bs) (numeral (b ∷ bs)) ms (numeral_lem (b ∷ bs))
          (rw digits at h) in
      (cons-ne-nil b bs, digits, same, positive, small, fit)
  | inr other ↦ let h' = rw other at h in cc
]

parsed_complete :
    (fits : ℕ → Bool) (name : String) (value : List ℕ) (ms : ℕ)
    → IsTimeout fits value ms
    → parse_timeout fits name value ≡ ok ms
unfolding parse_timeout
parsed_complete fits name [] ms h = absurd (h.0 refl)
parsed_complete fits name (b ∷ bs) ms (filled, digits, number, positive, small, fit) =
    rw digits
      (checked_complete fits name (b ∷ bs) ms (numeral_lem (b ∷ bs) ∙ number) positive small fit)

-- A setting is accepted, and as which number of milliseconds, exactly where it is a text of digits,
-- one at least, and the number that they write is positive, fits a `u64`, and is no further away than
-- the clock can name.
pub parse_timeout_iff :
    (fits : ℕ → Bool) (name : String) (value : List ℕ) (ms : ℕ)
    → (parse_timeout fits name value ≡ ok ms) ↔ IsTimeout fits value ms
parse_timeout_iff fits name value ms =
    (parsed_sound fits name value ms, parsed_complete fits name value ms)
