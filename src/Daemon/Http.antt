-- ===== src/Daemon/Http.antt =====
-- rust/src/daemon.rs: `read_request`, from the bytes that arrive to a request or an error's reply.
pub mod Framing
pub mod Loops
pub mod Accepted
use dssp_bot.Prelude.{
  ℕ, zero, suc, ◌+◌, ◌-◌, ◌*◌, ◌^◌, min, String, Bool, true, false, not, ◌&&◌, ◌||◌, ◌==◌, ltb, leb,
  Option, none, some, is_some, List, [], ◌∷◌, ◌++◌, length, any, filter, map, if◌then◌else◌,
}
use dssp_bot.Daemon.Bytes.{
  codes, bytes_eq, all_bytes, is_empty_bytes, is_digit, is_graphic, http_token, to_lower, split_on,
  split_lines, split_once, ends_with, starts_with, trim, is_utf8, from_digits,
}

abbrev pub body_limit : ℕ
body_limit = 64 * 1024

abbrev pub header_limit : ℕ
header_limit = 16 * 1024

-- A value, or the code and the text of an error's reply.
pub data Checked {ℓ} (A : Type ℓ) : Type ℓ where
  pass : A → Checked A
  fail : ℕ → String → Checked A

module _ {ℓ κ} {A : Type ℓ} {B : Type κ} where
  infixl 10 ◌>>=◌ ◌>>◌
  abbrev pub ◌>>=◌ : Checked A → (A → Checked B) → Checked B
  pass a >>= f = f a
  fail code text >>= f = fail code text

  abbrev pub ◌>>◌ : Checked A → Checked B → Checked B
  m >> n = m >>= λ _. n

-- `if !test { return Err(error(code, text)) }`
abbrev pub guarded : Bool → ℕ → String → Checked (Unit {0})
guarded true code text = pass tt
guarded false code text = fail code text

-- What one read of the stream meets: the deadline has passed; the stream refuses the timeout; bytes
-- have arrived; nothing arrives in time; or the read fails. Behind the last of them it is closed.
pub data Arrival : Type 0 where
  late quiet : Arrival
  unsettable broken : String → Arrival
  bytes : List ℕ → Arrival

abbrev pub Stream : Type 0
Stream = List Arrival

-- The first `n` bytes, and the others.
abbrev pub split_at : ℕ → List ℕ → List ℕ × List ℕ
split_at zero xs = ([], xs)
split_at (suc n) [] = ([], [])
split_at (suc n) (x ∷ xs) = let (taken, rest) = split_at n xs in (x ∷ taken, rest)

abbrev pub put_back : List ℕ → Stream → Stream
put_back [] s = s
put_back (b ∷ bs) s = bytes (b ∷ bs) ∷ s

-- The buffer that a read filled, appended to what was read before; an empty one is the end of the stream.
unfoldable pub extend : List ℕ → List ℕ × List ℕ → Stream → Checked (List ℕ × Stream)
extend so_far ([], rest) s = fail 400 "incomplete request"
extend so_far (b ∷ bs, rest) s = pass (so_far ++ (b ∷ bs), put_back rest s)

unfoldable pub read_piece : Stream → List ℕ → ℕ → Checked (List ℕ × Stream)
unfolding extend
read_piece [] so_far size = fail 400 "incomplete request"
read_piece (late ∷ s) so_far size = fail 408 "request read timeout"
read_piece (unsettable e ∷ s) so_far size = fail 400 e
read_piece (bytes bs ∷ s) so_far size = extend so_far (split_at size bs) s
read_piece (quiet ∷ s) so_far size = fail 408 "request read timeout"
read_piece (broken e ∷ s) so_far size = fail 400 e

abbrev pub blank_line : List ℕ
blank_line = 13 ∷ 10 ∷ 13 ∷ 10 ∷ []

-- The loop that reads the headers; `room` is what is left of their limit.
unfoldable pub read_head : ℕ → Stream → List ℕ → Checked (List ℕ × Stream)
unfolding read_piece
read_head zero s so_far =
    if ends_with blank_line so_far then pass (so_far, s) else fail 413 "headers too large"
read_head (suc room) s so_far = elim (ends_with blank_line so_far) [
  | true ↦ pass (so_far, s)
  | false ↦ read_piece s so_far 1 >>= λ (read, s'). read_head room s' read
]

-- The loop that reads the body; every round reads a byte at least, so `size` rounds are enough.
unfoldable pub read_body : ℕ → ℕ → Stream → List ℕ → Checked (List ℕ × Stream)
unfolding read_piece
read_body zero size s body = pass (body, s)
read_body (suc rounds) size s body = elim (ltb (length body) size) [
  | true ↦ read_piece s body (min (size - length body) 4096) >>= λ (read, s').
      read_body rounds size s' read
  | false ↦ pass (body, s)
]

abbrev pub Headers : Type 0
Headers = List (List ℕ × List ℕ)

unfoldable pub get : List ℕ → Headers → Option (List ℕ)
get key [] = none
get key ((k, value) ∷ rest) =
    let later = get key rest in if bytes_eq k key then some value else later

pub record HttpRequest : Type 0 where
  pub method : List ℕ
  pub path : List ℕ
  pub headers : Headers
  pub body : List ℕ

unfoldable pub is_request_line : List ℕ → List ℕ → List ℕ → Bool
is_request_line method path version =
    bytes_eq version (codes "HTTP/1.1")
    && (not (is_empty_bytes method)
        && (all_bytes http_token method
            && (starts_with (codes "/") path
                && all_bytes (λ b. is_graphic b && not (b == b'#')) path)))

unfoldable pub request_line : List (List ℕ) → Checked (List ℕ × List ℕ)
unfolding is_request_line
request_line (method ∷ path ∷ version ∷ []) = do
  guarded (is_request_line method path version) 400 "invalid request line"
  pass (method, path)
request_line _ = fail 400 "invalid request line"

unfoldable pub is_header : List ℕ → List ℕ → Bool
is_header key value =
    not (is_empty_bytes key)
    && (all_bytes http_token key
        && all_bytes (λ b. not ((ltb b 32 && not (b == 9)) || leb 127 b)) value)

-- A line of the headers, whose key must be new.
unfoldable pub header_line : Headers → Option (List ℕ × List ℕ) → Checked Headers
unfolding is_header
header_line headers none = fail 400 "invalid header"
header_line headers (some (key, value)) = do
  guarded (is_header key value) 400 "invalid header"
  guarded (not (is_some (get (map to_lower key) headers))) 400 "duplicate header"
  pass ((map to_lower key, trim value) ∷ headers)

unfoldable pub header_lines : List (List ℕ) → Headers → Checked Headers
unfolding header_line
header_lines [] headers = pass headers
header_lines ([] ∷ lines) headers = header_lines lines headers
header_lines ((b ∷ bs) ∷ lines) headers =
    header_line headers (split_once b':' (b ∷ bs)) >>= λ headers'. header_lines lines headers'

unfoldable pub is_host : Option (List ℕ) → Bool
is_host none = false
is_host (some host) = not (is_empty_bytes host) && all_bytes is_graphic host

unfoldable pub content_length : Option (List ℕ) → Checked ℕ
content_length none = pass 0
content_length (some text) = do
  guarded (not (is_empty_bytes text) && all_bytes is_digit text) 400 "invalid Content-Length"
  guarded (ltb (from_digits 0 text) (2 ^ 64)) 413 "body too large"
  pass (from_digits 0 text)

abbrev pub first_line : List (List ℕ) → List ℕ
first_line [] = []
first_line (line ∷ lines) = line

abbrev pub other_lines : List (List ℕ) → List (List ℕ)
other_lines [] = []
other_lines (line ∷ lines) = lines

-- The body, of the length that was declared.
unfoldable pub with_body : List ℕ → List ℕ → Headers → Stream → ℕ → Checked (HttpRequest × Stream)
unfolding read_body
with_body method path headers s size = do
  guarded (leb size body_limit) 413 "body exceeds 64 KB"
  (body, rest) ← read_body size size s []
  pass (record { method = method; path = path; headers = headers; body = body }, rest)

abbrev pub is_plain : Headers → Bool
is_plain headers =
    not
      (is_some (get (codes "transfer-encoding") headers) || is_some (get (codes "expect") headers))

unfoldable pub with_headers : Stream → List ℕ → List ℕ → Headers → Checked (HttpRequest × Stream)
unfolding content_length with_body
with_headers s method path headers = do
  guarded (is_host (get (codes "host") headers)) 400 "one nonempty Host header required"
  guarded (is_plain headers) 400 "unsupported framing"
  size ← content_length (get (codes "content-length") headers)
  with_body method path headers s size

-- The request with this head, and what it leaves of the stream.
unfoldable pub framed : List ℕ → Stream → Checked (HttpRequest × Stream)
unfolding request_line header_lines with_headers
framed head s = do
  guarded (is_utf8 [] head) 400 "invalid headers"
  let lines = split_lines false head
  (method, path) ← request_line (split_on b' ' (first_line lines))
  headers ← header_lines (other_lines lines) []
  with_headers s method path headers

unfoldable pub read_request : Stream → Checked (HttpRequest × Stream)
unfolding read_head framed
read_request s = read_head header_limit s [] >>= λ (head, s'). framed head s'
