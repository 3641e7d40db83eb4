-- ===== src/Store.antt =====
-- rust/src/store.rs: one checkpoint file, replaced through a temporary file and a rename.
pub mod Steps
pub mod Atomic
pub mod Power
pub mod Slot
pub mod Start
pub mod Killed
pub mod Closed
use dssp_bot.Prelude.{
  ℕ, String, Bool, true, false, Option, none, some, List, [], ◌∷◌, Result, ok, err, str_eq, format,
  decimal, if◌then◌else◌,
}
use dssp_bot.Checkpoint.{BatchCheckpoint}
use dssp_bot.Recovery.{StoredCheckpoint}

-- A path that ends in a file name: its directory, with the closing slash, empty for a bare name.
pub record FilePath : Type 0 where
  pub dir : String
  pub name : String

unfoldable pub show_path : FilePath → String
show_path p = format (p.dir ∷ p.name ∷ [])

abbrev pub default_file_name : String
default_file_name = "dssp.checkpoint.json"

unfoldable pub resolve_path : FilePath → Option FilePath → FilePath
resolve_path job_path none = record job_path { name = default_file_name }
resolve_path job_path (some path) = path

unfoldable pub temp_path : FilePath → ℕ → FilePath
temp_path path pid = record path { name = format (path.name ∷ "." ∷ decimal pid ∷ ".tmp" ∷ []) }

unfoldable pub sync_target : FilePath → String
sync_target path = if str_eq path.dir "" then "." else path.dir

-- serde: the encoding; whether a text is an object with the `in_flight` key; and the decoding.
pub record Json : Type 0 where
  pub to_text : BatchCheckpoint → Result String
  pub has_in_flight : String → Result Bool
  pub from_text : String → Result BatchCheckpoint

-- A file as readers see it, and whether all of that has reached the disk.
pub record File : Type 0 where
  pub content : String
  pub synced : Bool

-- What the two names stand for, and what the checkpoint's name stood for since its directory was last
-- synced: a power loss may bring any of these back.
pub record Disk : Type 0 where
  pub slot : Option File
  pub temp : Option File
  pub replaced : List (Option File)

-- How the calls of one save fare: the error of each that fails. A failed write leaves some text.
pub record Calls : Type 0 where
  pub create : Option String
  pub write : Option String
  pub torn : String
  pub sync : Option String
  pub rename : Option String
  pub removed : Bool
  pub dir_synced : String → Bool

-- The disk, and the disks before each call so far, the newest first: where a kill may strike.
pub record Progress : Type 0 where
  pub now : Disk
  pub before : List Disk

abbrev pub step : (Disk → Disk) → Progress → Progress
step f p = record { now = f p.now; before = p.now ∷ p.before }

-- A call, with what it does where it succeeds and where it fails.
unfoldable pub attempt :
    Option String → (Disk → Disk) → (Disk → Disk) → Progress → Result (Unit {0}) × Progress
attempt none f g p = (ok tt, step f p)
attempt (some e) f g p = (err e, step g p)

unfoldable pub and_then :
    Result (Unit {0}) × Progress
    → (Progress → Result (Unit {0}) × Progress)
    → Result (Unit {0}) × Progress
and_then (ok _, p) f = f p
and_then (err e, p) f = (err e, p)

abbrev pub unchanged : Disk → Disk
unchanged d = d

-- The temporary file, written but not yet on the disk.
abbrev pub fill : String → Disk → Disk
fill text d = record d { temp = some (record { content = text; synced = false }) }

abbrev pub sync_file : Option File → Option File
sync_file none = none
sync_file (some f) = some (record f { synced = true })

abbrev pub sync_temp : Disk → Disk
sync_temp d = record d { temp = sync_file d.temp }

abbrev pub rename_temp : Disk → Disk
rename_temp d = record { slot = d.temp; temp = none; replaced = d.slot ∷ d.replaced }

abbrev pub remove_temp : Bool → Disk → Disk
remove_temp removed d = if removed then record d { temp = none } else d

abbrev pub sync_dir : Bool → Disk → Disk
sync_dir synced d = if synced then record d { replaced = [] } else d

unfoldable pub write_and_sync : Calls → String → Progress → Result (Unit {0}) × Progress
unfolding attempt and_then
write_and_sync calls text p = and_then (attempt calls.create (fill "") unchanged p) (λ p1.
    and_then (attempt calls.write (fill text) (fill calls.torn) p1)
      (λ p2. attempt calls.sync sync_temp unchanged p2))

-- On a failure, the temporary file is removed, best effort, and the error names the path.
unfoldable pub clean_up :
    Calls → FilePath → Result (Unit {0}) × Progress → Result (Unit {0}) × Progress
clean_up calls path (ok _, p) = (ok tt, p)
clean_up calls path (err e, p) =
    (err (format (show_path path ∷ ": " ∷ e ∷ [])), step (remove_temp calls.removed) p)

unfoldable pub save_text : Calls → FilePath → ℕ → String → Progress → Result (Unit {0}) × Progress
unfolding clean_up
save_text calls path pid text p =
    and_then (clean_up calls (temp_path path pid) (write_and_sync calls text p)) (λ p1.
      and_then (clean_up calls path (attempt calls.rename rename_temp unchanged p1))
        (λ p2. (ok tt, step (sync_dir (calls.dir_synced (sync_target path))) p2)))

unfoldable pub save_encoded :
    Calls → FilePath → ℕ → Result String → Disk → Result (Unit {0}) × Progress
save_encoded calls path pid (ok text) d =
    save_text calls path pid text (record { now = d; before = [] })
save_encoded calls path pid (err e) d =
    (err (format ("could not serialize checkpoint: " ∷ e ∷ [])), record { now = d; before = [] })

unfoldable pub save :
    Json → FilePath → ℕ → Calls → BatchCheckpoint → Disk → Result (Unit {0}) × Progress
unfolding save_encoded save_text
save json path pid calls checkpoint d = save_encoded calls path pid (json.to_text checkpoint) d

unfoldable pub unreadable_as : FilePath → String → String
unreadable_as path e = format (show_path path ∷ ": unreadable checkpoint: " ∷ e ∷ [])

unfoldable pub decoded :
    FilePath → Result Bool → Result BatchCheckpoint → Result (Option StoredCheckpoint)
decoded path (err e) checkpoint = err (unreadable_as path e)
decoded path (ok tracks) (err e) = err (unreadable_as path e)
decoded path (ok tracks) (ok c) = ok (some (record { checkpoint = c; tracks_in_flight = tracks }))

unfoldable pub load_text : Json → FilePath → Option File → Result (Option StoredCheckpoint)
load_text json path none = ok none
load_text json path (some f) =
    decoded path (json.has_in_flight f.content) (json.from_text f.content)

-- `read_error` is the error of a read that fails otherwise than by a missing file.
unfoldable pub load_with_provenance :
    Json → FilePath → Option String → Disk → Result (Option StoredCheckpoint)
unfolding load_text
load_with_provenance json path none d = load_text json path d.slot
load_with_provenance json path (some e) d = err (format (show_path path ∷ ": " ∷ e ∷ []))

pub without_provenance : Result (Option StoredCheckpoint) → Result (Option BatchCheckpoint)
without_provenance (err e) = err e
without_provenance (ok none) = ok none
without_provenance (ok (some stored)) = ok (some stored.checkpoint)

unfoldable pub load : Json → FilePath → Option String → Disk → Result (Option BatchCheckpoint)
unfolding without_provenance
load json path read_error d = without_provenance (load_with_provenance json path read_error d)
