-- ===== src/Daemon/Http/Loops.antt =====
-- rust/src/daemon.rs: what the two loops of `read_request` read.
use mathlib.Core.Path.{subst}
use dssp_bot.Prelude.{
  ℕ, zero, suc, ◌+◌, ◌-◌, ◌≤◌, min, Bool, true, false, ltb, List, [], ◌++◌, length, ◌≡◌, refl, sym,
  ap, ◌∙◌, arith, if◌then◌else◌,
}
use dssp_bot.Daemon.Http.{pass, fail, ◌>>=◌, Stream, read_piece, read_head, read_body, blank_line}
use dssp_bot.Daemon.Bytes.{ends_with}
use dssp_bot.Daemon.Http.Framing.{
  passed_first, Takes, Taken, Answers, Reads, length-append, Reads-suc, Takes-end, Takes-trans,
  read_piece-Takes,
}

-- The head ends with a blank line, and is no longer than its limit.
abbrev pub Heads : Stream → List ℕ → List ℕ → Stream → ℕ → Type 0
Heads s so_far head s' room = Reads s so_far head s' room × (ends_with blank_line head ≡ true)

ended-Heads :
    (s s' : Stream) (so_far head : List ℕ) (room : ℕ)
    → ends_with blank_line so_far ≡ true
    → Answers (pass (so_far, s)) head s'
    → Heads s so_far head s' room
ended-Heads s s' so_far head room h e =
    let same : so_far ≡ head = cc in
    (
      ([], Takes-end s s' so_far head e, omega arith),
      subst (λ x. ends_with blank_line x ≡ true) same h,
    )

pub read_head-Heads :
    (room : ℕ) (s : Stream) (so_far head : List ℕ) (s' : Stream)
    → read_head room s so_far ≡ pass (head, s')
    → Heads s so_far head s' room
unfolding read_head
read_head-Heads zero s so_far head s' e = ended (ends_with blank_line so_far) refl e
  where
    ended :
        (b : Bool)
        → ends_with blank_line so_far ≡ b
        → Answers (if b then pass (so_far, s) else fail 413 "headers too large") head s'
        → Heads s so_far head s' 0
    ended true h e = ended-Heads s s' so_far head 0 h e
    ended false h e = cc
read_head-Heads (suc room) s so_far head s' e =
    ended (ends_with blank_line so_far) refl (λ t read. read_head-Heads room t read head s') e
  where
    ended :
        (b : Bool)
        → ends_with blank_line so_far ≡ b
        → ((t : Stream) (read : List ℕ)
            → read_head room t read ≡ pass (head, s')
            → Heads t read head s' room)
        → Answers
            (elim b [
              | true ↦ pass (so_far, s)
              | false ↦ read_piece s so_far 1 >>= λ (read, s'). read_head room s' read
            ])
            head
            s'
        → Heads s so_far head s' (suc room)
    ended true h ih e = ended-Heads s s' so_far head (suc room) h e
    ended false h ih e =
        let ((read, t), first, rest) = passed_first (read_piece s so_far 1) _ (head, s') e in
        let (behind, done) = ih t read rest in
        (
          Reads-suc s t s' so_far read head room (read_piece-Takes s so_far 1 read t first) behind,
          done,
        )

-- The body is as long as was declared.
abbrev pub Bodies : Stream → List ℕ → List ℕ → Stream → ℕ → Type 0
Bodies s so_far body s' size =
    ((chunk : List ℕ) × Takes s so_far body s' chunk) × (length body ≡ size)

full-Bodies :
    (s s' : Stream) (so_far body : List ℕ) (size : ℕ)
    → length so_far ≡ size
    → Answers (pass (so_far, s)) body s'
    → Bodies s so_far body s' size
full-Bodies s s' so_far body size h e =
    let same : so_far ≡ body = cc in (([], Takes-end s s' so_far body e), ap length (sym same) ∙ h)

more-Bodies :
    (s t s' : Stream) (so_far read body : List ℕ) (size room : ℕ)
    → Taken s so_far read t room
    → Bodies t read body s' size
    → Bodies s so_far body s' size
more-Bodies s t s' so_far read body size room (x, p, low, high) ((y, q), full) =
    ((x ++ y, Takes-trans s t s' so_far read body x y p q), full)

Taken-length :
    (s t : Stream) (so_far read : List ℕ) (room : ℕ)
    → Taken s so_far read t room
    → (suc (length so_far) ≤ length read) × (length read ≤ length so_far + room)
Taken-length s t so_far read room (x, p, low, high) =
    let grown = ap length p.appended ∙ length-append so_far x in
    (omega (arith, grown), omega (arith, grown))

pub read_body-Bodies :
    (rounds size : ℕ) (s : Stream) (so_far body : List ℕ) (s' : Stream)
    → length so_far ≤ size
    → size ≤ length so_far + rounds
    → read_body rounds size s so_far ≡ pass (body, s')
    → Bodies s so_far body s' size
unfolding read_body
read_body-Bodies zero size s so_far body s' low high e =
    full-Bodies s s' so_far body size (omega arith) e
read_body-Bodies (suc rounds) size s so_far body s' low high e =
    go (ltb (length so_far) size) refl
      (λ t read low' high'. read_body-Bodies rounds size t read body s' low' high') e
  where
    go :
        (b : Bool)
        → ltb (length so_far) size ≡ b
        → ((t : Stream) (read : List ℕ)
            → length read ≤ size
            → size ≤ length read + rounds
            → read_body rounds size t read ≡ pass (body, s')
            → Bodies t read body s' size)
        → Answers
            (elim b [
              | true ↦ read_piece s so_far (min (size - length so_far) 4096) >>= λ (read, s').
                  read_body rounds size s' read
              | false ↦ pass (so_far, s)
            ])
            body
            s'
        → Bodies s so_far body s' size
    go false h ih e = full-Bodies s s' so_far body size (ground (arith, h, low)) e
    go true h ih e =
        let room = min (size - length so_far) 4096 in
        let ((read, t), first, rest) = passed_first (read_piece s so_far room) _ (body, s') e in
        let taken = read_piece-Takes s so_far room read t first in
        let (longer, short) = Taken-length s t so_far read room taken in
        more-Bodies s t s' so_far read body size room taken
          (ih t read (omega (arith, short, low)) (omega (arith, longer, high)) rest)
