-- ===== src/Worker/Settings/Printed.antt =====
-- rust/src/worker.rs: a timeout is read back from its decimal text.
use Prim.Native.Char.{Char, code}
use Prim.Native.String
use text.Mathlib.TextLemmas
use mathlib.Core.List.{cons-ne-nil}
use dssp_bot.Prelude.{
  ℕ, zero, suc, ◌+◌, ◌*◌, ◌/◌, ◌%◌, ◌^◌, ◌<◌, String, Bool, true, [], ◌∷◌, ◌≡◌, ◌≢◌, refl, sym, ap,
  ◌∙◌, inl, inr, ok, arith, digit, decimal_from, decimal, ltb, Bool-cases,
}
use dssp_bot.Daemon.Bytes.{codes, all_bytes, is_digit, from_digits}
use dssp_bot.Worker.Settings.{parse_timeout}
use dssp_bot.Worker.Settings.Parsed.{weigh, numeral, numeral_lem, parse_timeout_iff}

codes-char :
    (c : Char) (s : String) → codes (String.◌++◌ (String.◌∷◌ c String.[]) s) ≡ code c ∷ codes s
codes-char c s =
    ap codes (TextLemmas.cons-append c String.[] s ∙ ap (String.◌∷◌ c) (TextLemmas.nil-append s))

codes-digit : (d : ℕ) (s : String) → d < 10 → codes (String.◌++◌ (digit d) s) ≡ (b'0' + d) ∷ codes s
codes-digit zero s h = codes-char "0" s
codes-digit (suc zero) s h = codes-char "1" s
codes-digit (suc (suc zero)) s h = codes-char "2" s
codes-digit (suc (suc (suc zero))) s h = codes-char "3" s
codes-digit (suc (suc (suc (suc zero)))) s h = codes-char "4" s
codes-digit (suc (suc (suc (suc (suc zero))))) s h = codes-char "5" s
codes-digit (suc (suc (suc (suc (suc (suc zero)))))) s h = codes-char "6" s
codes-digit (suc (suc (suc (suc (suc (suc (suc zero))))))) s h = codes-char "7" s
codes-digit (suc (suc (suc (suc (suc (suc (suc (suc zero)))))))) s h = codes-char "8" s
codes-digit (suc (suc (suc (suc (suc (suc (suc (suc (suc zero))))))))) s h = codes-char "9" s
codes-digit (suc (suc (suc (suc (suc (suc (suc (suc (suc (suc d)))))))))) s h = absurd (omega arith)

-- A text that writes `n` in front of another.
abbrev Writes : ℕ → String → String → Type 0
Writes n s t =
    (numeral (codes t) ≡ n * (weigh (codes s)).1 + numeral (codes s))
    × (all_bytes is_digit (codes s) ≡ true → all_bytes is_digit (codes t) ≡ true)
    × (codes t ≢ [])

digit-Writes : (d : ℕ) (s : String) → d < 10 → Writes d s (String.◌++◌ (digit d) s)
digit-Writes d s h = rw (codes-digit d s h) (
  ap (λ (t : ℕ). t * (weigh (codes s)).1 + numeral (codes s)) (omega arith),
  λ e. ground arith,
  cons-ne-nil _ _,
)

weight-digit :
    (d : ℕ) (s : String)
    → d < 10
    → (weigh (codes (String.◌++◌ (digit d) s))).1 ≡ (weigh (codes s)).1 * 10
weight-digit d s h = ap (λ t. (weigh t).1) (codes-digit d s h)

carry : (n w : ℕ) → n / 10 * (w * 10) + n % 10 * w ≡ n * w
carry n w = omega (arith, ap (λ (t : ℕ). t * w) {x = n} {y = n / 10 * 10 + n % 10} (omega arith))

decimal_from-Writes : (fuel n : ℕ) (s : String) → n < fuel → Writes n s (decimal_from fuel n s)
unfolding decimal_from
decimal_from-Writes zero n s h = absurd (omega arith)
decimal_from-Writes (suc fuel) n s h =
    let t = String.◌++◌ (digit (n % 10)) s in
    let (one_value, one_digits, one_filled) = digit-Writes (n % 10) s (omega arith) in
    elim (Bool-cases (ltb n 10)) [
      | inl small ↦
          let whole : n % 10 ≡ n = ground arith in
          rw small (
            one_value ∙ ap (λ (k : ℕ). k * (weigh (codes s)).1 + numeral (codes s)) whole,
            one_digits,
            one_filled,
          )
      | inr large ↦
          let (value, digits, filled) = decimal_from-Writes fuel (n / 10) t (ground arith) in
          let w = (weigh (codes s)).1 in
          let weight = weight-digit (n % 10) s (omega arith) in
          rw large (
            value
                ∙ ap (λ (k : ℕ). n / 10 * k + numeral (codes t)) weight
                ∙ omega (arith, one_value, carry n w),
            (λ e. digits (one_digits e)),
            filled,
          )
    ]

-- The decimal text of a number is one digit or more, which are read back as the number.
pub decimal_lem :
    (n : ℕ)
    → (all_bytes is_digit (codes (decimal n)) ≡ true)
      × (codes (decimal n) ≢ [])
      × (from_digits 0 (codes (decimal n)) ≡ n)
unfolding decimal
decimal_lem n =
    let (value, digits, filled) = decimal_from-Writes (suc n) n "" (omega arith) in
    (digits refl, filled, numeral_lem (codes (decimal n)) ∙ value ∙ omega arith)

-- A positive number of milliseconds that fits a `u64` and that the clock can name is read back from its
-- decimal text.
pub parse_timeout-decimal :
    (fits : ℕ → Bool) (name : String) (ms : ℕ)
    → 0 < ms
    → ms < 2 ^ 64
    → fits ms ≡ true
    → parse_timeout fits name (codes (decimal ms)) ≡ ok ms
parse_timeout-decimal fits name ms positive small fit =
    let (digits, filled, value) = decimal_lem ms in
    (parse_timeout_iff fits name (codes (decimal ms)) ms).1
      (filled, digits, sym (numeral_lem (codes (decimal ms))) ∙ value, positive, small, fit)
