-- ===== src/Daemon/Settings/Valid.antt =====
-- rust/src/daemon.rs: the settings that the bridge starts with, and who may reach it then.
use mathlib.Core.Path.{subst}
use mathlib.Core.List.{Memᴰ, cons-ne-nil}
use dssp_bot.Store.{FilePath, resolve_path}
use dssp_bot.Daemon.Settings.{job_file}
use dssp_bot.Prelude.{
  Option, ℕ, ◌^◌, ◌<◌, String, true, false, not, ◌||◌, ◌==◌, Option, none, some, List, [], ◌∷◌,
  ◌++◌, ◌≡◌, ◌≢◌, refl, sym, ◌∙◌, ◌⊎◌, inl, inr, any, Result, ok, err, Bool-cases, All, arith,
}
use dssp_bot.Daemon.Bytes.{codes, all_bytes, is_alphanumeric}
use dssp_bot.Daemon.Http.{pass, HttpRequest, get}
use dssp_bot.Daemon.Route.{Config, Endpoint, admit}
use dssp_bot.Daemon.Route.Authorized.{admit-IsAuthorized}
use dssp_bot.Worker.{and_then}
use dssp_bot.Worker.Settings.{Variable}
use dssp_bot.Daemon.Settings.{
  u16_digits, parse_u16, port_text, origin_texts, checked_port, read_port, strip_prefix, is_id,
  valid_origin, checked_origins, read_origins, environment,
}

-- An origin of a browser extension: its scheme, and an id of letters, digits and dashes.
abbrev pub IsExtension : List ℕ → Type 0
IsExtension origin =
    (id : List ℕ) × (id ≢ [])
    × (all_bytes (λ b. is_alphanumeric b || b == b'-') id ≡ true)
    × ((origin ≡ codes "chrome-extension://" ++ id) ⊎ (origin ≡ codes "moz-extension://" ++ id))

-- A configuration that a bridge may start with.
pub record IsValid (config : Config) : Type 0 where
  pub port_set : config.port ≢ 0
  pub port_fits : config.port < 2 ^ 16
  pub origins_set : config.origins ≢ []
  pub origins_extension : All IsExtension config.origins

u16_digits-lt : (bs : List ℕ) (port : ℕ) → u16_digits bs ≡ some port → port < 2 ^ 16
u16_digits-lt bs port h = ground arith

read_port-facts :
    (o : Option ℕ) (port : ℕ) → checked_port o ≡ ok port → (o ≡ some port) × (port ≢ 0)
unfolding checked_port
read_port-facts none port h = cc
read_port-facts (some p) port h = ground arith

strip_prefix_lem : (start bs id : List ℕ) → strip_prefix start bs ≡ some id → bs ≡ start ++ id
strip_prefix_lem [] bs id h = cc
strip_prefix_lem (p ∷ ps) [] id h = cc
strip_prefix_lem (p ∷ ps) (b ∷ bs) id h = elim (Bool-cases (p == b)) [
  | inl e ↦
      let first : p ≡ b = ground (arith, e) in
      let rest : bs ≡ ps ++ id = strip_prefix_lem ps bs id (rw e at h) in cc
  | inr e ↦ let h' = rw e at h in cc
]

is_id-facts :
    (start bs : List ℕ) (o : Option (List ℕ))
    → strip_prefix start bs ≡ o
    → is_id o ≡ true
    → (id : List ℕ) × (id ≢ [])
      × (all_bytes (λ b. is_alphanumeric b || b == b'-') id ≡ true)
      × (bs ≡ start ++ id)
is_id-facts start bs none e h = cc
is_id-facts start bs (some []) e h = cc
is_id-facts start bs (some (b ∷ id)) e h =
    (b ∷ id, cons-ne-nil b id, h, strip_prefix_lem start bs (b ∷ id) e)

valid_origin-IsExtension : (origin : List ℕ) → valid_origin origin ≡ true → IsExtension origin
unfolding valid_origin
valid_origin-IsExtension origin h =
    let chrome = codes "chrome-extension://" in
    let moz = codes "moz-extension://" in
    elim (Bool-cases (is_id (strip_prefix chrome origin))) [
      | inl c ↦
          let (id, filled, good, e) =
            is_id-facts chrome origin (strip_prefix chrome origin) refl c in
          (id, filled, good, inl e)
      | inr c ↦ elim (Bool-cases (is_id (strip_prefix moz origin))) [
        | inl m ↦
            let (id, filled, good, e) = is_id-facts moz origin (strip_prefix moz origin) refl m in
            (id, filled, good, inr e)
        | inr m ↦ let h' = rw (c, m) at h in cc
      ]
    ]

none_invalid :
    (origins : List (List ℕ))
    → any (λ s. not (valid_origin s)) origins ≡ false
    → All IsExtension origins
none_invalid [] h = tt
none_invalid (o ∷ origins) h = elim (Bool-cases (valid_origin o)) [
  | inl v ↦ (valid_origin-IsExtension o v, none_invalid origins (rw v at h))
  | inr v ↦ let h' = rw v at h in cc
]

checked_origins-facts :
    (origins taken : List (List ℕ))
    → checked_origins origins ≡ ok taken
    → (taken ≢ []) × All IsExtension taken
unfolding checked_origins
checked_origins-facts [] taken h = cc
checked_origins-facts (o ∷ origins) taken h =
    elim (Bool-cases (any (λ s. not (valid_origin s)) (o ∷ origins))) [
      | inl v ↦ let h' = rw v at h in cc
      | inr v ↦
          let same : ◌≡◌ (o ∷ origins) taken = let h' = rw v at h in cc in
          (
            λ e. cons-ne-nil o origins (same ∙ e),
            subst (All IsExtension) same (none_invalid (o ∷ origins) v),
          )
    ]

parse_u16-lt : (bs : List ℕ) (port : ℕ) → parse_u16 bs ≡ some port → port < 2 ^ 16
unfolding parse_u16
parse_u16-lt [] port h = cc
parse_u16-lt (b ∷ bs) port h = elim (Bool-cases (b == b'+')) [
  | inl e ↦ u16_digits-lt bs port (rw e at h)
  | inr e ↦ u16_digits-lt (b ∷ bs) port (rw e at h)
]

assembled :
    (port : Result ℕ) (origins : Result (List (List ℕ))) (token : Result (List ℕ))
    (checkpoint : FilePath) (config : Config)
    → and_then port (λ p. and_then origins (λ o.
      and_then token
        (λ t. ok (record { port = p; origins = o; token = t; checkpoint = checkpoint }))))
      ≡ ok config
    → (port ≡ ok config.port) × (origins ≡ ok config.origins) × (token ≡ ok config.token)
assembled (err e) origins token checkpoint config h = cc
assembled (ok p) (err e) token checkpoint config h = cc
assembled (ok p) (ok o) (err e) checkpoint config h = cc
assembled (ok p) (ok o) (ok t) checkpoint config h = ground arith

-- Whatever the environment holds, a bridge that starts has a port from 1 to 65535, the token that its
-- file held, and at least one origin, and each of its origins is a browser extension's: the scheme
-- `chrome-extension://` or `moz-extension://` and an id of letters, digits and dashes, with no path.
pub environment-IsValid :
    (env : String → Variable) (token : Result (List ℕ)) (configured : Option FilePath)
    (config : Config)
    → environment env token configured ≡ ok config
    → IsValid config × (token ≡ ok config.token)
unfolding environment read_port read_origins
environment-IsValid env token configured config h =
    let (port, origins, held) =
      assembled (read_port (env "DSSP_DAEMON_PORT")) (read_origins (env "DSSP_DAEMON_ORIGINS"))
        token (resolve_path job_file configured) config h in
    let (read, positive) =
      read_port-facts (parse_u16 (port_text (env "DSSP_DAEMON_PORT"))) config.port port in
    let (filled, extensions) =
      checked_origins-facts (origin_texts (env "DSSP_DAEMON_ORIGINS")) config.origins origins in
    (
      record {
        port_set = positive;
        port_fits = parse_u16-lt (port_text (env "DSSP_DAEMON_PORT")) config.port read;
        origins_set = filled;
        origins_extension = extensions;
      },
      held,
    )

all_at : (P : List ℕ → Type 0) (x : List ℕ) (xs : List (List ℕ)) → Memᴰ x xs → All P xs → P x
all_at P x [] m h = elim m [ ]
all_at P x (y ∷ ys) (Memᴰ.head e) (p, ps) = subst P (sym e) p
all_at P x (y ∷ ys) (Memᴰ.tail m) (p, ps) = all_at P x ys m ps

-- A bridge that was started from the environment lets a request that names its origin reach an
-- endpoint only where that origin is a browser extension's, so no page of the web does.
pub only_extensions :
    (env : String → Variable) (token : Result (List ℕ)) (configured : Option FilePath)
    (config : Config)
    → (r : HttpRequest) (target : Endpoint) (origin : List ℕ)
    → environment env token configured ≡ ok config
    → admit config r ≡ pass target
    → get (codes "origin") r.headers ≡ some origin
    → IsExtension origin
only_extensions env token configured config r target origin started admitted named =
    let (valid, held) = environment-IsValid env token configured config started in
    let (presented, listed, json, served) = admit-IsAuthorized config r target admitted in
    all_at IsExtension origin config.origins (listed origin named) valid.origins_extension
