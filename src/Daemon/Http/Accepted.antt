-- ===== src/Daemon/Http/Accepted.antt =====
-- rust/src/daemon.rs: the requests that `read_request` lets through.
use mathlib.Core.Path.{subst}
use dssp_bot.Prelude.{
  ℕ, ◌≤◌, Bool, true, false, not, ◌&&◌, ◌||◌, leb, Option, none, some, is_some, List, [], ◌∷◌, ◌++◌,
  map, length, ◌≡◌, refl, sym, ap, ◌∙◌, arith,
}
use dssp_bot.Daemon.Bytes.{
  codes, ends_with, is_utf8, split_lines, split_on, split_once, to_lower, trim,
}
use dssp_bot.Daemon.Http.{
  pass, Stream, HttpRequest, Headers, get, is_host, content_length, is_request_line, request_line,
  header_line, header_lines, framed, read_head, read_body, read_request, blank_line, header_limit,
  body_limit, is_header, is_plain, with_body, with_headers, first_line, other_lines,
}
use dssp_bot.Daemon.Http.Framing.{passed_first, passed_guard, flat, Takes}
use dssp_bot.Daemon.Http.Loops.{read_head-Heads, read_body-Bodies}

-- No key stands twice.
abbrev pub Unique : Headers → Type 0
Unique [] = Unit
Unique ((key, value) ∷ rest) = (get key rest ≡ none) × Unique rest

absent : (o : Option (List ℕ)) → not (is_some o) ≡ true → o ≡ none
absent none h = refl
absent (some x) h = cc

header_line-Unique :
    (headers : Headers) (split : Option (List ℕ × List ℕ)) (out : Headers)
    → header_line headers split ≡ pass out
    → Unique headers
    → Unique out
unfolding header_line
header_line-Unique headers none out e h = cc
header_line-Unique headers (some (key, value)) out e h =
    let (valid, e') = passed_guard (is_header key value) 400 "invalid header" _ out e in
    let (fresh, e'') =
      passed_guard (not (is_some (get (map to_lower key) headers))) 400 "duplicate header" _ out
        e' in
    let same : (map to_lower key, trim value) ∷ headers ≡ out = cc in
    subst Unique same (absent _ fresh, h)

header_lines-Unique :
    (lines : List (List ℕ)) (headers out : Headers)
    → header_lines lines headers ≡ pass out
    → Unique headers
    → Unique out
unfolding header_lines
header_lines-Unique [] headers out e h = let same : headers ≡ out = cc in subst Unique same h
header_lines-Unique ([] ∷ lines) headers out e h = header_lines-Unique lines headers out e h
header_lines-Unique ((b ∷ bs) ∷ lines) headers out e h =
    let (middle, first, rest) =
      passed_first (header_line headers (split_once b':' (b ∷ bs))) _ out e in
    header_lines-Unique lines middle out rest
      (header_line-Unique headers (split_once b':' (b ∷ bs)) middle first h)

only_version : (a b : Bool) → (a && b) ≡ true → b ≡ true
only_version a b h = ground arith

request_line-valid :
    (pieces : List (List ℕ)) (method path : List ℕ)
    → request_line pieces ≡ pass (method, path)
    → is_request_line method path (codes "HTTP/1.1") ≡ true
unfolding request_line is_request_line
request_line-valid (m ∷ p ∷ version ∷ []) method path e =
    let (valid, e') =
      passed_guard (is_request_line m p version) 400 "invalid request line" _ (method, path) e in
    let same_method : m ≡ method = cc in
    let same_path : p ≡ path = cc in
    subst (λ x. is_request_line x path (codes "HTTP/1.1") ≡ true) same_method
      (subst (λ x. is_request_line m x (codes "HTTP/1.1") ≡ true) same_path
        (only_version _ _ valid))
request_line-valid _ method path e = cc

-- What is known of a request that was let through.
pub record IsFramed (r : HttpRequest) : Type 0 where
  pub line : is_request_line r.method r.path (codes "HTTP/1.1") ≡ true
  pub unique : Unique r.headers
  pub host : is_host (get (codes "host") r.headers) ≡ true
  pub plain_encoding : get (codes "transfer-encoding") r.headers ≡ none
  pub no_expect : get (codes "expect") r.headers ≡ none
  pub declared : content_length (get (codes "content-length") r.headers) ≡ pass (length r.body)
  pub bounded : length r.body ≤ body_limit

neither : (a b : Bool) → not (a || b) ≡ true → (not a ≡ true) × (not b ≡ true)
neither a b h = ground arith

-- A request that leaves this much of the stream.
abbrev Frames : Stream → HttpRequest → Stream → Type 0
Frames s r s' = IsFramed r × Takes s [] r.body s' r.body

module _ (s s' : Stream) (r : HttpRequest) (method path : List ℕ) where
  with_body-Frames :
      (headers : Headers) (size : ℕ)
      → is_request_line method path (codes "HTTP/1.1") ≡ true
      → Unique headers
      → is_host (get (codes "host") headers) ≡ true
      → is_plain headers ≡ true
      → content_length (get (codes "content-length") headers) ≡ pass size
      → with_body method path headers s size ≡ pass (r, s')
      → Frames s r s'
  unfolding with_body
  with_body-Frames headers size line unique host plain declared e =
      let (fits, e1) = passed_guard (leb size body_limit) 413 "body exceeds 64 KB" _ (r, s') e in
      let ((body, rest), e2, e3) = passed_first (read_body size size s []) _ (r, s') e1 in
      let whole : record { method = method; path = path; headers = headers; body = body } ≡ r =
        cc in
      let left : rest ≡ s' = cc in
      let ((chunk, takes), full) =
        read_body-Bodies size size s [] body rest (omega arith) (omega arith) e2 in
      let (no_encoding, expectless) =
        neither (is_some (get (codes "transfer-encoding") headers))
          (is_some (get (codes "expect") headers)) plain in
      let frames : Frames s
          (record { method = method; path = path; headers = headers; body = body }) rest =
        (
          record {
            line = line;
            unique = unique;
            host = host;
            plain_encoding = absent _ no_encoding;
            no_expect = absent _ expectless;
            declared = declared ∙ ap pass (sym full);
            bounded = subst (λ n. n ≤ body_limit) (sym full) (ground (arith, fits));
          },
          subst (Takes s [] body rest) (sym takes.appended) takes,
        ) in
      subst (λ q. Frames s q s') whole (subst (Frames s _) left frames)

  with_headers-Frames :
      (headers : Headers)
      → is_request_line method path (codes "HTTP/1.1") ≡ true
      → Unique headers
      → with_headers s method path headers ≡ pass (r, s')
      → Frames s r s'
  unfolding with_headers
  with_headers-Frames headers line unique e =
      let (host, e1) =
        passed_guard (is_host (get (codes "host") headers)) 400 "one nonempty Host header required"
          _ (r, s') e in
      let (plain, e2) = passed_guard (is_plain headers) 400 "unsupported framing" _ (r, s') e1 in
      let (size, e3, e4) =
        passed_first (content_length (get (codes "content-length") headers)) _ (r, s') e2 in
      with_body-Frames headers size line unique host plain e3 e4

framed-Frames :
    (head : List ℕ) (s s' : Stream) (r : HttpRequest) → framed head s ≡ pass (r, s') → Frames s r s'
unfolding framed
framed-Frames head s s' r e =
    let (utf8, e1) = passed_guard (is_utf8 [] head) 400 "invalid headers" _ (r, s') e in
    let lines = split_lines false head in
    let ((method, path), e2, e3) =
      passed_first (request_line (split_on b' ' (first_line lines))) _ (r, s') e1 in
    let (headers, e4, e5) = passed_first (header_lines (other_lines lines) []) _ (r, s') e3 in
    with_headers-Frames s s' r method path headers
      (request_line-valid (split_on b' ' (first_line lines)) method path e2)
      (header_lines-Unique (other_lines lines) [] headers e4 tt) e5

pub read_request-IsFramed :
    (s s' : Stream) (r : HttpRequest)
    → read_request s ≡ pass (r, s')
    → IsFramed r
      × ((head : List ℕ) × (flat s ≡ head ++ (r.body ++ flat s'))
          × (length head ≤ header_limit)
          × (ends_with blank_line head ≡ true))
unfolding read_request
read_request-IsFramed s s' r e =
    let ((head, t), e1, e2) = passed_first (read_head header_limit s []) _ (r, s') e in
    let ((chunk, takes, short), ended) = read_head-Heads header_limit s [] head t e1 in
    let (is_framed, body) = framed-Frames head t s' r e2 in
    (
      is_framed,
      (
        head,
        takes.removed
            ∙ ap (λ z. chunk ++ z) body.removed
            ∙ ap (λ z. z ++ (r.body ++ flat s')) (sym takes.appended),
        subst (λ x. length x ≤ header_limit) (sym takes.appended) short,
        ended,
      ),
    )
