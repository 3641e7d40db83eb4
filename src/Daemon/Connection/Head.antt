-- ===== src/Daemon/Connection/Head.antt =====
-- rust/src/daemon.rs: the lines that the head of a reply is split into.
use dssp_bot.Prelude.{
  ℕ, String, Bool, true, false, not, ◌==◌, List, [], ◌∷◌, ◌++◌, decimal, ◌≡◌, refl, ap, ◌∙◌, arith,
  if◌then◌else◌, append-nil,
}
use dssp_bot.Daemon.Bytes.{codes, all_bytes, is_digit, split_lines, ends_with}
use dssp_bot.Daemon.Http.{blank_line}
use dssp_bot.Daemon.Connection.{reason, reply_head}
use dssp_bot.Worker.Settings.Printed.{decimal_lem}

abbrev is_inner : ℕ → Bool
is_inner b = not (b == 13)

-- Bytes without a carriage return stand in front of the first line.
split_lines-inner :
    (xs ys line : List ℕ) (lines : List (List ℕ))
    → all_bytes is_inner xs ≡ true
    → split_lines false ys ≡ line ∷ lines
    → split_lines false (xs ++ ys) ≡ (xs ++ line) ∷ lines
unfolding split_lines
split_lines-inner [] ys line lines h e = e
split_lines-inner (x ∷ xs) ys line lines h e =
    let test : (x == 13) ≡ false = ground arith in
    let inner : all_bytes is_inner xs ≡ true = ground arith in
    let rest = split_lines-inner xs ys line lines inner e in rw (test, rest) refl

digits-inner : (xs : List ℕ) → all_bytes is_digit xs ≡ true → all_bytes is_inner xs ≡ true
digits-inner [] h = refl
digits-inner (x ∷ xs) h =
    let rest : all_bytes is_digit xs ≡ true = ground arith in
    let later = digits-inner xs rest in ground arith

abbrev Inner : String → Type 0
Inner s = all_bytes is_inner (codes s) ≡ true

if-Inner : (b : Bool) (s t : String) → Inner s → Inner t → Inner (if b then s else t)
if-Inner true s t h k = h
if-Inner false s t h k = k

reason-Inner : (code : ℕ) → Inner (reason code)
unfolding reason
reason-Inner code = if-Inner (code == 200) _ _ refl (
    if-Inner (code == 202) _ _ refl (
      if-Inner (code == 400) _ _ refl (
        if-Inner (code == 401) _ _ refl (
          if-Inner (code == 403) _ _ refl (
            if-Inner (code == 405) _ _ refl (
              if-Inner (code == 408) _ _ refl (
                if-Inner (code == 409) _ _ refl (
                  if-Inner (code == 413) _ _ refl (
                    if-Inner (code == 415) _ _ refl (
                      if-Inner (code == 422) _ _ refl
                        (if-Inner (code == 503) _ _ refl refl)))))))))))

abbrev pub status_line : ℕ → List ℕ
status_line code = codes "HTTP/1.1 " ++ (codes (decimal code) ++ (codes " " ++ codes (reason code)))

-- The lines behind the one of the content length.
abbrev pub last_lines : List (List ℕ)
last_lines = codes "Connection: close" ∷ codes "Cache-Control: no-store" ∷ [] ∷ [] ∷ []

abbrev pub header_texts : List ℕ → List (List ℕ)
header_texts digits =
    codes "Content-Type: application/json" ∷ (codes "Content-Length: " ++ digits) ∷ last_lines

head_ends :
    (digits : List ℕ)
    → all_bytes is_digit digits ≡ true
    → split_lines false (
        codes "\r\nContent-Type: application/json\r\nContent-Length: "
        ++ (digits ++ codes "\r\nConnection: close\r\nCache-Control: no-store\r\n\r\n"))
      ≡ [] ∷ header_texts digits
unfolding split_lines
head_ends digits h =
    let end =
      split_lines-inner digits (codes "\r\nConnection: close\r\nCache-Control: no-store\r\n\r\n") []
        last_lines (digits-inner digits h) refl in
    rw (end, append-nil digits) refl

pub head_lines :
    (code size : ℕ)
    → split_lines false (reply_head code size)
      ≡ status_line code ∷ header_texts (codes (decimal size))
unfolding reply_head
head_lines code size =
    let h4 = head_ends (codes (decimal size)) (decimal_lem size).0 in
    let h3 = split_lines-inner (codes (reason code)) _ _ _ (reason-Inner code) h4 in
    let h2 = split_lines-inner (codes " ") _ _ _ refl h3 in
    let h1 =
      split_lines-inner (codes (decimal code)) _ _ _
        (digits-inner (codes (decimal code)) (decimal_lem code).0) h2 in
    split_lines-inner (codes "HTTP/1.1 ") _ _ _ refl h1
    ∙ ap
        (λ z.
          (codes "HTTP/1.1 " ++ (codes (decimal code) ++ (codes " " ++ z)))
          ∷ header_texts (codes (decimal size)))
        (append-nil (codes (reason code)))

ends_with-append :
    (suffix xs ys : List ℕ) → ends_with suffix ys ≡ true → ends_with suffix (xs ++ ys) ≡ true
unfolding ends_with
ends_with-append suffix [] ys h = h
ends_with-append suffix (x ∷ xs) ys h =
    let rest = ends_with-append suffix xs ys h in ground (arith, rest)

tail_ends_blank :
    ends_with blank_line (codes "\r\nConnection: close\r\nCache-Control: no-store\r\n\r\n") ≡ true
unfolding ends_with
tail_ends_blank = refl

pub ends_blank : (code size : ℕ) → ends_with blank_line (reply_head code size) ≡ true
unfolding reply_head
ends_blank code size = ends_with-append blank_line (codes "HTTP/1.1 ") _ (
    ends_with-append blank_line (codes (decimal code)) _ (
      ends_with-append blank_line (codes " ") _ (
        ends_with-append blank_line (codes (reason code)) _ (
          ends_with-append blank_line
            (codes "\r\nContent-Type: application/json\r\nContent-Length: ") _
            (ends_with-append blank_line (codes (decimal size)) _ tail_ends_blank)))))
