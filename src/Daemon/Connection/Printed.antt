-- ===== src/Daemon/Connection/Printed.antt =====
-- rust/src/daemon.rs: what the head of a reply says of its body.
use dssp_bot.Prelude.{
  ℕ, ◌^◌, ◌<◌, true, false, not, ◌&&◌, ◌||◌, ◌==◌, ltb, leb, some, List, [], ◌∷◌, ◌++◌, decimal,
  length, ◌≡◌, ◌≢◌, refl, ap, ◌∙◌, arith,
}
use dssp_bot.Daemon.Bytes.{
  codes, all_bytes, is_digit, is_empty_bytes, from_digits, split_lines, split_once, trim,
  http_token, trim_start, trim_end, ends_with,
}
use dssp_bot.Daemon.Http.{
  Checked, pass, first_line, other_lines, blank_line, Headers, get, is_header, header_line,
  header_lines, content_length,
}
use dssp_bot.Daemon.{Body}
use dssp_bot.Daemon.Connection.{Meets, reply_head, response}
use dssp_bot.Worker.Settings.Printed.{decimal_lem}
use dssp_bot.Daemon.Connection.Head.{status_line, last_lines, header_texts, head_lines, ends_blank}

valid_digits :
    (xs : List ℕ)
    → all_bytes is_digit xs ≡ true
    → all_bytes (λ b. not ((ltb b 32 && not (b == 9)) || leb 127 b)) xs ≡ true
valid_digits [] h = refl
valid_digits (x ∷ xs) h =
    let rest : all_bytes is_digit xs ≡ true = ground arith in
    let later = valid_digits xs rest in ground arith

trim_end_digits : (xs : List ℕ) → all_bytes is_digit xs ≡ true → trim_end xs ≡ xs
unfolding trim_end
trim_end_digits [] h = refl
trim_end_digits (x ∷ xs) h =
    let rest : all_bytes is_digit xs ≡ true = ground arith in
    let later = trim_end_digits xs rest in
    let blank : (x == 32 || x == 9) ≡ false = ground arith in rw (blank, later) refl

trim_digits : (xs : List ℕ) → all_bytes is_digit xs ≡ true → xs ≢ [] → trim (32 ∷ xs) ≡ xs
unfolding trim trim_start
trim_digits [] h filled = absurd (filled refl)
trim_digits (x ∷ xs) h filled =
    let blank : (x == 32 || x == 9) ≡ false = ground arith in rw blank (trim_end_digits (x ∷ xs) h)

abbrev type_header : Headers
type_header = (codes "content-type", codes "application/json") ∷ []

length_line :
    (xs : List ℕ)
    → all_bytes is_digit xs ≡ true
    → xs ≢ []
    → header_line type_header (split_once b':' (codes "Content-Length: " ++ xs))
      ≡ pass ((codes "content-length", xs) ∷ type_header)
unfolding header_line is_header split_once get http_token
length_line xs h filled =
    let valid = valid_digits xs h in
    let trimmed = trim_digits xs h filled in rw (valid, trimmed) refl

abbrev reply_headers : List ℕ → Headers
reply_headers xs =
    (codes "cache-control", codes "no-store")
    ∷ (codes "connection", codes "close")
    ∷ (codes "content-length", xs)
    ∷ type_header

header_lines-line :
    (line : List ℕ) (lines : List (List ℕ)) (headers headers' : Headers) (out : Checked Headers)
    → is_empty_bytes line ≡ false
    → header_line headers (split_once b':' line) ≡ pass headers'
    → header_lines lines headers' ≡ out
    → header_lines (line ∷ lines) headers ≡ out
unfolding header_lines
header_lines-line [] lines headers headers' out filled e rest = cc
header_lines-line (b ∷ bs) lines headers headers' out filled e rest = rw e rest

header_texts_read :
    (xs : List ℕ)
    → all_bytes is_digit xs ≡ true
    → xs ≢ []
    → header_lines (header_texts xs) [] ≡ pass (reply_headers xs)
unfolding header_lines header_line is_header split_once get trim http_token
header_texts_read xs h filled =
    header_lines-line (codes "Content-Type: application/json")
      ((codes "Content-Length: " ++ xs) ∷ last_lines) [] type_header _ refl refl
      (header_lines-line (codes "Content-Length: " ++ xs) last_lines type_header _ _ refl
        (length_line xs h filled) refl)

length_read :
    (xs : List ℕ) (size : ℕ)
    → all_bytes is_digit xs ≡ true
    → xs ≢ []
    → from_digits 0 xs ≡ size
    → size < 2 ^ 64
    → content_length (some xs) ≡ pass size
unfolding content_length
length_read [] size digits filled value small = absurd (filled refl)
length_read (x ∷ xs) size digits filled value small =
    let fits : ltb size (2 ^ 64) ≡ true = ground arith in rw (digits, value, fits) refl

-- What the code that reads a request's head finds in the one of a reply.
pub record IsReplyHead (head : List ℕ) (code size : ℕ) : Type 0 where
  pub status : first_line (split_lines false head) ≡ status_line code
  pub headers : Headers
  pub parsed : header_lines (other_lines (split_lines false head)) [] ≡ pass headers
  pub declared : content_length (get (codes "content-length") headers) ≡ pass size
  pub ended : ends_with blank_line head ≡ true

reply_head-IsReplyHead :
    (code size : ℕ)
    → size < 2 ^ 64
    → (head : List ℕ) → head ≡ reply_head code size
    → IsReplyHead head code size
unfolding get
reply_head-IsReplyHead code size small head e =
    let (digits, filled, value) = decimal_lem size in
    let text = codes (decimal size) in
    let split : split_lines false head ≡ status_line code ∷ header_texts text =
      ap (split_lines false) e ∙ head_lines code size in
    record {
      status = ap first_line split;
      headers = reply_headers text;
      parsed =
          ap (λ lines. header_lines (other_lines lines) []) split
          ∙ header_texts_read text digits filled;
      declared = length_read text size digits filled value small;
      ended = ap (ends_with blank_line) e ∙ ends_blank code size;
    }

-- The bytes written for a reply are a head and the text of the reply's body. Where that text is shorter
-- than 2 ^ 64, the code that reads a request's head reads this one back: it ends with a blank line;
-- behind the status line, of the reply's code, the headers parse; and the content length that they
-- declare is the length of the text.
pub response_reads_back :
    (meets : Meets) (code : ℕ) (body : Body)
    → length (meets.to_vec body) < 2 ^ 64
    → (head : List ℕ) × (response meets (code, body) ≡ head ++ meets.to_vec body)
      × IsReplyHead head code (length (meets.to_vec body))
unfolding response
response_reads_back meets code body small =
    let size = length (meets.to_vec body) in
    (reply_head code size, refl, reply_head-IsReplyHead code size small (reply_head code size) refl)
