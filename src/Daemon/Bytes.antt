-- ===== src/Daemon/Bytes.antt =====
-- rust/src/daemon.rs: the tests on bytes, and the standard library's on texts, that the bridge uses.
use Prim.Native.Char.{code}
use dssp_bot.Prelude.{
  ℕ, ◌+◌, ◌-◌, ◌*◌, String, Bool, true, false, ◌&&◌, ◌||◌, ◌==◌, leb, Option, none, some, List, [],
  ◌∷◌, if◌then◌else◌,
}

-- The bytes of an ASCII text.
abbrev pub codes : String → List ℕ
codes String.[] = []
codes (String.◌∷◌ c s) = code c ∷ codes s

abbrev pub bytes_eq : List ℕ → List ℕ → Bool
bytes_eq [] [] = true
bytes_eq (x ∷ xs) (y ∷ ys) = x == y && bytes_eq xs ys
bytes_eq _ _ = false

abbrev pub all_bytes : (ℕ → Bool) → List ℕ → Bool
all_bytes p [] = true
all_bytes p (x ∷ xs) = p x && all_bytes p xs

abbrev pub is_empty_bytes : List ℕ → Bool
is_empty_bytes [] = true
is_empty_bytes (x ∷ xs) = false

abbrev pub between : ℕ → ℕ → ℕ → Bool
between low high b = leb low b && leb b high

abbrev pub is_digit : ℕ → Bool
is_digit b = between b'0' b'9' b

abbrev pub is_alphanumeric : ℕ → Bool
is_alphanumeric b = is_digit b || between b'a' b'z' b || between b'A' b'Z' b

-- `is_ascii_graphic`
abbrev pub is_graphic : ℕ → Bool
is_graphic b = between 33 126 b

abbrev pub contains_byte : List ℕ → ℕ → Bool
contains_byte [] b = false
contains_byte (x ∷ xs) b = x == b || contains_byte xs b

unfoldable pub http_token : ℕ → Bool
http_token b = is_alphanumeric b || contains_byte (codes "!#$%&'*+-.^_`|~") b

abbrev pub to_lower : ℕ → ℕ
to_lower b = if between b'A' b'Z' b then b + 32 else b

-- `split(separator)`: one piece more than there are separators.
abbrev pub onto_first : ℕ → List (List ℕ) → List (List ℕ)
onto_first b [] = (b ∷ []) ∷ []
onto_first b (piece ∷ pieces) = (b ∷ piece) ∷ pieces

unfoldable pub split_on : ℕ → List ℕ → List (List ℕ)
split_on separator [] = [] ∷ []
split_on separator (b ∷ bs) =
    let rest = split_on separator bs in if b == separator then [] ∷ rest else onto_first b rest

-- `split("\r\n")`; `held` says that the byte before is a carriage return that is not yet in a line.
unfoldable pub split_lines : Bool → List ℕ → List (List ℕ)
split_lines held [] = (if held then 13 ∷ [] else []) ∷ []
split_lines held (b ∷ bs) =
    let rest = split_lines (b == 13) bs in
    if held && b == 10
    then [] ∷ rest
    else (let line = if b == 13 then rest else onto_first b rest in
        if held then onto_first 13 line else line)

-- `split_once(separator)`
abbrev pub onto_left : ℕ → Option (List ℕ × List ℕ) → Option (List ℕ × List ℕ)
onto_left b none = none
onto_left b (some (left, right)) = some (b ∷ left, right)

unfoldable pub split_once : ℕ → List ℕ → Option (List ℕ × List ℕ)
split_once separator [] = none
split_once separator (b ∷ bs) =
    let rest = split_once separator bs in if b == separator then some ([], bs) else onto_left b rest

unfoldable pub ends_with : List ℕ → List ℕ → Bool
ends_with suffix [] = bytes_eq [] suffix
ends_with suffix (b ∷ bs) = bytes_eq (b ∷ bs) suffix || ends_with suffix bs

abbrev pub starts_with : List ℕ → List ℕ → Bool
starts_with [] bs = true
starts_with (p ∷ ps) [] = false
starts_with (p ∷ ps) (b ∷ bs) = p == b && starts_with ps bs

-- `trim`, of a text whose only white space is blanks and tabs.
abbrev is_blank : ℕ → Bool
is_blank b = b == 32 || b == 9

unfoldable pub trim_start : List ℕ → List ℕ
trim_start [] = []
trim_start (b ∷ bs) = let rest = trim_start bs in if is_blank b then rest else b ∷ bs

unfoldable pub trim_end : List ℕ → List ℕ
trim_end [] = []
trim_end (b ∷ bs) =
    let rest = trim_end bs in if is_blank b && is_empty_bytes rest then [] else b ∷ rest

unfoldable pub trim : List ℕ → List ℕ
unfolding trim_start trim_end
trim bs = trim_end (trim_start bs)

-- The bytes that may follow a first byte of UTF-8, as ranges; `none` where none may stand first.
unfoldable pub utf8_follow : ℕ → Option (List (ℕ × ℕ))
utf8_follow b =
    let one : ℕ × ℕ = (128, 191) in
    if leb b 127
    then some []
    else if between 194 223 b
    then some (one ∷ [])
    else if b == 224
    then some ((160, 191) ∷ one ∷ [])
    else if b == 237
    then some ((128, 159) ∷ one ∷ [])
    else if between 225 239 b
    then some (one ∷ one ∷ [])
    else if b == 240
    then some ((144, 191) ∷ one ∷ one ∷ [])
    else if b == 244
    then some ((128, 143) ∷ one ∷ one ∷ [])
    else if between 241 243 b
    then some (one ∷ one ∷ one ∷ [])
    else none

-- `std::str::from_utf8`, behind a byte that still asks for `due`.
unfoldable pub is_utf8 : List (ℕ × ℕ) → List ℕ → Bool
unfolding utf8_follow
is_utf8 [] [] = true
is_utf8 (range ∷ due) [] = false
is_utf8 [] (b ∷ bs) = elim (utf8_follow b) [ none ↦ false | some due ↦ is_utf8 due bs ]
is_utf8 ((low, high) ∷ due) (b ∷ bs) = between low high b && is_utf8 due bs

-- The number that digits write, behind those that write `n`.
unfoldable pub from_digits : ℕ → List ℕ → ℕ
from_digits n [] = n
from_digits n (b ∷ bs) = from_digits (n * 10 + (b - b'0')) bs
