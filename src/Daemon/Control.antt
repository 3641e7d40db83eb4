-- ===== src/Daemon/Control.antt =====
-- rust/src/daemon.rs: `apply_control` and `control_captured`, behind /batch/pause, /resume and /stop.
use dssp_bot.Prelude.{
  ℕ, Bool, true, false, not, ◌&&◌, ◌||◌, ◌==◌, Option, none, some, if◌then◌else◌,
}
use dssp_bot.Daemon.{BatchProgress, BatchControl, Shared, Reply, error, status, set_control}

-- `Arc::ptr_eq`
abbrev pub is_current : ℕ → Option ℕ → Bool
is_current id none = false
is_current id (some c) = c == id

-- What a command writes: `some pause` for a pause or a resume, `none` for a stop.
unfoldable pub requested : Option Bool → BatchControl → BatchControl
requested (some pause) c = record c { pause_requested = pause }
requested none c = record c { stop_requested = true; pause_requested = false }

unfoldable pub shown : Option Bool → BatchProgress → BatchProgress
shown (some pause) p = record p { pause_requested = pause }
shown none p = record p { pause_requested = false; stop_requested = true }

abbrev pub is_pause : Option Bool → Bool
is_pause (some pause) = true
is_pause none = false

-- What a command that is not refused leaves.
abbrev pub commanded : ℕ → Option Bool → Shared → Shared
commanded id pause w = record w {
  state = record w.state { progress = shown pause w.state.progress };
  controls = set_control id (requested pause (w.controls id)) w.controls;
}

unfoldable pub control_captured : ℕ → Option Bool → Shared → Reply × Shared
control_captured id pause w =
    let control = w.controls id in
    if not (is_current id w.state.control) || control.closed
    then (error 409 "batch is no longer controllable", w)
    else if is_pause pause && control.stop_requested
    then (error 409 "operator stop is already requested", w)
    else ((200, status (shown pause w.state.progress)), commanded id pause w)

unfoldable pub apply_to : Option ℕ → Option Bool → Shared → Reply × Shared
apply_to none pause w =
    (error 409 "no controllable batch (idle, finished, form-options, or admission)", w)
apply_to (some id) pause w = control_captured id pause w

unfoldable pub apply_control : Option Bool → Shared → Reply × Shared
unfolding apply_to
apply_control pause w = apply_to w.state.control pause w
