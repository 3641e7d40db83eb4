-- ===== src/Daemon/TokenFile.antt =====
-- rust/src/daemon.rs, `token_file`: the file of the bridge's token, read or made at the start.
pub mod Private
pub mod Minted
use dssp_bot.Prelude.{
  ℕ, zero, suc, ◌+◌, ◌-◌, ◌*◌, ◌/◌, ◌%◌, String, Bool, true, false, not, ◌&&◌, ◌||◌, ◌==◌, ltb,
  Option, none, some, List, [], ◌∷◌, ◌++◌, length, Result, ok, err, format, if◌then◌else◌,
}
use dssp_bot.Daemon.Bytes.{all_bytes, is_digit, between, is_utf8}
use dssp_bot.Daemon.Http.{split_at}

-- What a path names. `mode` is the whole `st_mode`.
pub record Entry : Type 0 where
  pub is_link : Bool
  pub is_file : Bool
  pub mode : ℕ
  pub uid : ℕ
  pub nlink : ℕ
  pub bytes : List ℕ

-- How the system answers a start: a fault of each call, by its text; the bytes of /dev/urandom; what
-- another process puts at the path between the first look and the creation; and the mode and the owner
-- of a file that this process makes with 0o600, with what a write that fails leaves of its bytes.
pub record Calls : Type 0 where
  pub open_fault : Option String
  pub create_fault : Option String
  pub write_fault : Option String
  pub reopen_fault : Option String
  pub metadata_fault : Option String
  pub read_fault : Option String
  pub entropy : Result (List ℕ)
  pub raced : Option Entry
  pub created_mode : ℕ
  pub uid : ℕ
  pub own_uid : Result ℕ
  pub cut : List ℕ → List ℕ

pub data Opened : Type 0 where
  opened : Entry → Opened
  not_found : Opened
  open_error : String → Opened

-- `open` with O_NOFOLLOW.
unfoldable pub unless_link : Bool → Entry → Opened
unless_link true entry = open_error "Too many levels of symbolic links"
unless_link false entry = opened entry

unfoldable pub open_entry : Option String → Option Entry → Opened
unfolding unless_link
open_entry (some e) slot = open_error e
open_entry none none = not_found
open_entry none (some entry) = unless_link entry.is_link entry

-- `{b:02x}`
abbrev pub hex_digit : ℕ → ℕ
hex_digit n = if ltb n 10 then b'0' + n else b'a' + (n - 10)

unfoldable pub hex : List ℕ → List ℕ
hex [] = []
hex (b ∷ bs) = hex_digit (b / 16) ∷ hex_digit (b % 16) ∷ hex bs

abbrev pub is_hex : ℕ → Bool
is_hex b = is_digit b || (between b'a' b'f' b || between b'A' b'F' b)

abbrev pub private_mode : ℕ
private_mode = 6 * 64

abbrev pub not_private : String
not_private = "token must be an owned, unlinked regular file with mode 0600"

unfoldable pub is_private : ℕ → Entry → Bool
is_private own_uid entry =
    entry.is_file
    && (entry.mode % 4096 == private_mode && (entry.uid == own_uid && entry.nlink == 1))

-- The text of the file's first 65 bytes.
unfoldable pub check_token : List ℕ → Result (List ℕ)
check_token token =
    if not (is_utf8 [] token)
    then err "stream did not contain valid UTF-8"
    else if not (length token == 64) || not (all_bytes is_hex token)
    then err "token must contain exactly 64 hexadecimal characters"
    else ok token

unfoldable pub read_token : Option String → Entry → Result (List ℕ)
unfolding check_token
read_token (some e) entry = err e
read_token none entry = check_token (split_at 65 entry.bytes).0

unfoldable pub check_owned : Calls → Entry → Result ℕ → Result (List ℕ)
unfolding read_token is_private
check_owned calls entry (err e) = err e
check_owned calls entry (ok own_uid) =
    if is_private own_uid entry then read_token calls.read_fault entry else err not_private

unfoldable pub check_entry : Calls → Option String → Entry → Result (List ℕ)
unfolding check_owned
check_entry calls (some e) entry = err e
check_entry calls none entry = check_owned calls entry calls.own_uid

unfoldable pub check_opened : Calls → Opened → Result (List ℕ)
unfolding check_entry
check_opened calls (opened entry) = check_entry calls calls.metadata_fault entry
check_opened calls not_found = err "read token: No such file or directory"
check_opened calls (open_error e) = err (format ("read token: " ∷ e ∷ []))

abbrev pub reopen : Calls → Option Entry → Result (List ℕ) × Option Entry
reopen calls slot = (check_opened calls (open_entry calls.reopen_fault slot), slot)

abbrev pub created : Calls → List ℕ → Entry
created calls token = record {
  is_link = false;
  is_file = true;
  mode = calls.created_mode;
  uid = calls.uid;
  nlink = 1;
  bytes = token;
}

-- The write behind the creation.
unfoldable pub write_token : Calls → List ℕ → Option String → Result (List ℕ) × Option Entry
unfolding check_opened open_entry
write_token calls token (some e) =
    (err (format ("write token: " ∷ e ∷ [])), some (created calls (calls.cut token)))
write_token calls token none = reopen calls (some (created calls token))

-- `create_new`: nothing is written over; a fault is another than that something stands there.
unfoldable pub create_token :
    Calls → String → List ℕ → Option Entry → Option String → Result (List ℕ) × Option Entry
unfolding write_token check_opened open_entry
create_token calls path token slot (some e) =
    (err (format ("create token " ∷ path ∷ ": " ∷ e ∷ [])), slot)
create_token calls path token (some other) none = reopen calls (some other)
create_token calls path token none none = write_token calls token calls.write_fault

unfoldable pub mint : Calls → String → Result (List ℕ) → Result (List ℕ) × Option Entry
unfolding create_token hex
mint calls path (err e) = (err (format ("token entropy: " ∷ e ∷ [])), calls.raced)
mint calls path (ok random) = create_token calls path (hex random) calls.raced calls.create_fault

unfoldable pub token_of : Calls → String → Option Entry → Opened → Result (List ℕ) × Option Entry
unfolding mint check_entry
token_of calls path slot (opened entry) = (check_entry calls calls.metadata_fault entry, slot)
token_of calls path slot not_found = mint calls path calls.entropy
token_of calls path slot (open_error e) =
    (err (format ("read token " ∷ path ∷ ": " ∷ e ∷ [])), slot)

-- The token, and what the path names behind the call.
unfoldable pub token_file : Calls → String → Option Entry → Result (List ℕ) × Option Entry
unfolding token_of open_entry
token_file calls path slot = token_of calls path slot (open_entry calls.open_fault slot)
