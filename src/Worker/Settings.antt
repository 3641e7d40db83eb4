-- ===== src/Worker/Settings.antt =====
-- rust/src/worker.rs: the timeouts that the environment sets, in milliseconds.
pub mod Parsed
pub mod Printed
use dssp_bot.Prelude.{
  ℕ, ◌*◌, ◌^◌, String, Bool, true, false, not, ◌&&◌, ◌||◌, ◌==◌, ltb, List, [], ◌∷◌, Result, ok,
  err, format, if◌then◌else◌,
}
use dssp_bot.Daemon.Bytes.{all_bytes, is_empty_bytes, is_digit, from_digits}
use dssp_bot.Worker.{Timeouts, and_then}

-- What `std::env::var` returns of a name.
pub data Variable : Type 0 where
  not_present not_unicode : Variable
  present : List ℕ → Variable

abbrev pub invalid : String → String
invalid name = format (name ∷ " must be a positive integer number of milliseconds" ∷ [])

-- `parse::<u64>` of digits.
unfoldable pub parse_u64 : List ℕ → Result ℕ
parse_u64 digits =
    if ltb (from_digits 0 digits) (2 ^ 64)
    then ok (from_digits 0 digits)
    else err "number too large to fit in target type"

-- `fits ms`: the clock can name the instant that is `ms` milliseconds from now.
module _ (fits : ℕ → Bool) where
  unfoldable pub checked_timeout : String → Result ℕ → Result ℕ
  checked_timeout name (err e) = err (invalid name)
  checked_timeout name (ok ms) = if ms == 0 || not (fits ms) then err (invalid name) else ok ms

  unfoldable pub parse_timeout : String → List ℕ → Result ℕ
  unfolding checked_timeout parse_u64
  parse_timeout name value =
      if is_empty_bytes value || not (all_bytes is_digit value)
      then err (invalid name)
      else checked_timeout name (parse_u64 value)

  unfoldable pub environment_timeout : String → ℕ → Variable → Result ℕ
  unfolding parse_timeout
  environment_timeout name default_ms (present value) = parse_timeout name value
  environment_timeout name default_ms not_present = ok default_ms
  environment_timeout name default_ms not_unicode = err (invalid name)

  unfoldable pub environment : (String → Variable) → Result Timeouts
  unfolding environment_timeout
  environment env =
      and_then
        (environment_timeout "DSSP_WORKER_READY_TIMEOUT_MS" 10000
          (env "DSSP_WORKER_READY_TIMEOUT_MS"))
        (λ ready.
          and_then
            (environment_timeout "DSSP_WORKER_RESPONSE_TIMEOUT_MS" 360000
              (env "DSSP_WORKER_RESPONSE_TIMEOUT_MS"))
            (λ response.
              and_then
                (environment_timeout "DSSP_WORKER_SHUTDOWN_TIMEOUT_MS" 2000
                  (env "DSSP_WORKER_SHUTDOWN_TIMEOUT_MS"))
                (λ shutdown.
                  ok (record { ready = ready; response = response; shutdown = shutdown }))))
