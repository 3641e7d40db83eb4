-- ===== src/Daemon/Settings.antt =====
-- rust/src/daemon.rs, `Config::environment`: the bridge's settings, from the environment and the token.
pub mod Valid
use dssp_bot.Prelude.{
  ℕ, ◌^◌, String, Bool, true, false, not, ◌&&◌, ◌||◌, ◌==◌, ltb, Option, none, some, List, [], ◌∷◌,
  any, filter, is_empty, unwrap_or, Result, ok, err, if◌then◌else◌,
}
use dssp_bot.Daemon.Bytes.{
  codes, all_bytes, is_empty_bytes, is_digit, is_alphanumeric, split_on, from_digits,
}
use dssp_bot.Store.{FilePath, resolve_path}
use dssp_bot.Daemon.Route.{Config}
use dssp_bot.Worker.{and_then}
use dssp_bot.Worker.Settings.{Variable, not_present, not_unicode, present}

-- `parse::<u16>`, which takes a plus sign in front of the digits.
abbrev pub u16_digits : List ℕ → Option ℕ
u16_digits digits =
    if is_empty_bytes digits || not (all_bytes is_digit digits)
    then none
    else if ltb (from_digits 0 digits) (2 ^ 16)
    then some (from_digits 0 digits)
    else none

unfoldable pub parse_u16 : List ℕ → Option ℕ
parse_u16 [] = none
parse_u16 (b ∷ bs) = if b == b'+' then u16_digits bs else u16_digits (b ∷ bs)

abbrev pub text_or : Variable → List ℕ → List ℕ
text_or (present text) default = text
text_or not_present default = default
text_or not_unicode default = default

unfoldable pub checked_port : Option ℕ → Result ℕ
checked_port none = err "DSSP_DAEMON_PORT must be a port number"
checked_port (some port) = if port == 0 then err "DSSP_DAEMON_PORT must not be zero" else ok port

abbrev pub port_text : Variable → List ℕ
port_text v = text_or v (codes "8765")

unfoldable pub read_port : Variable → Result ℕ
unfolding checked_port parse_u16
read_port v = checked_port (parse_u16 (port_text v))

abbrev pub strip_prefix : List ℕ → List ℕ → Option (List ℕ)
strip_prefix [] bs = some bs
strip_prefix (p ∷ ps) [] = none
strip_prefix (p ∷ ps) (b ∷ bs) = let rest = strip_prefix ps bs in if p == b then rest else none

abbrev pub is_id : Option (List ℕ) → Bool
is_id none = false
is_id (some id) = not (is_empty_bytes id) && all_bytes (λ b. is_alphanumeric b || b == b'-') id

abbrev pub prefixes : List (List ℕ)
prefixes = codes "chrome-extension://" ∷ codes "moz-extension://" ∷ []

unfoldable pub valid_origin : List ℕ → Bool
valid_origin origin = any (λ start. is_id (strip_prefix start origin)) prefixes

unfoldable pub checked_origins : List (List ℕ) → Result (List (List ℕ))
unfolding valid_origin
checked_origins origins =
    if is_empty origins || any (λ s. not (valid_origin s)) origins
    then err
        "DSSP_DAEMON_ORIGINS requires comma-separated exact chrome-extension://id or moz-extension://uuid Origins (no paths/wildcards/whitespace)"
    else ok origins

abbrev pub origin_texts : Variable → List (List ℕ)
origin_texts v = filter (λ s. not (is_empty_bytes s)) (split_on b',' (text_or v []))

unfoldable pub read_origins : Variable → Result (List (List ℕ))
unfolding checked_origins
read_origins v = checked_origins (origin_texts v)

-- `std::path`, as far as the place of the token asks for it.
pub record Paths : Type 1 where
  pub FsPath : Type 0
  pub is_absolute : FsPath → Bool
  pub join : FsPath → FsPath → FsPath
  pub parent : FsPath → Option FsPath
  pub is_empty_path : FsPath → Bool
  pub of_text : String → FsPath

module _ (paths : Paths) where
  open paths use {FsPath, is_absolute, join, parent, is_empty_path, of_text}

  -- The profile's parent, or the current directory.
  unfoldable pub parent_or_dot : Option FsPath → FsPath
  parent_or_dot none = of_text "."
  parent_or_dot (some p) = if is_empty_path p then of_text "." else p

  unfoldable pub token_path : FsPath → Option FsPath → FsPath
  unfolding parent_or_dot
  token_path python_dir configured =
      let profile_dir = unwrap_or configured (of_text ".pw-profile") in
      let profile = if is_absolute profile_dir then profile_dir else join python_dir profile_dir in
      join (parent_or_dot (parent profile)) (of_text "dssp.daemon.token")

abbrev pub job_file : FilePath
job_file = record { dir = ""; name = "job.json" }

-- `token` is what `token_file` returns at the token's place; `configured` is DSSP_CHECKPOINT.
unfoldable pub environment : (String → Variable) → Result (List ℕ) → Option FilePath → Result Config
unfolding read_port read_origins
environment env token configured = and_then (read_port (env "DSSP_DAEMON_PORT")) (λ port.
    and_then (read_origins (env "DSSP_DAEMON_ORIGINS")) (λ origins. and_then token (λ t.
      ok (record {
        port = port;
        origins = origins;
        token = t;
        checkpoint = resolve_path job_file configured;
      }))))
