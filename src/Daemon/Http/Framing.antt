-- ===== src/Daemon/Http/Framing.antt =====
-- rust/src/daemon.rs: how `read_request` frames a request, and what it takes off the stream.
use dssp_bot.Prelude.{
  ℕ, zero, suc, ◌+◌, ◌≤◌, String, Bool, true, false, List, [], ◌∷◌, ◌++◌, length, ◌≡◌, refl, sym,
  ap, ◌∙◌, arith, append-nil, append_assoc,
}
use dssp_bot.Daemon.Http.{
  Checked, pass, fail, ◌>>=◌, guarded, Stream, late, quiet, unsettable, broken, bytes, split_at,
  put_back, extend, read_piece,
}

module _ {A B : Type 0} where
  -- Where a chain passes, so did its first link.
  pub passed_first :
      (m : Checked A) (f : A → Checked B) (b : B)
      → (m >>= f) ≡ pass b
      → (a : A) × (m ≡ pass a) × (f a ≡ pass b)
  passed_first (pass a) f b e = (a, refl, e)
  passed_first (fail code text) f b e = cc

pub passed_guard :
    {B : Type 0} (test : Bool) (code : ℕ) (text : String) (m : Unit {0} → Checked B) (b : B)
    → (guarded test code text >>= m) ≡ pass b
    → (test ≡ true) × (m tt ≡ pass b)
passed_guard true code text m b e = (refl, e)
passed_guard false code text m b e = cc

-- The bytes that a stream brings.
abbrev pub flat : Stream → List ℕ
flat [] = []
flat (bytes bs ∷ s) = bs ++ flat s
flat (_ ∷ s) = flat s

-- `chunk` was taken off the stream and appended to what was read.
pub record Takes (s : Stream) (before : List ℕ) (after : List ℕ) (s' : Stream) (chunk : List ℕ)
    : Type 0 where
  pub appended : after ≡ before ++ chunk
  pub removed : flat s ≡ chunk ++ flat s'

split_at-whole :
    (n : ℕ) (xs : List ℕ)
    → ((split_at n xs).0 ++ (split_at n xs).1 ≡ xs) × (length (split_at n xs).0 ≤ n)
split_at-whole zero xs = (refl, omega arith)
split_at-whole (suc n) [] = (refl, omega arith)
split_at-whole (suc n) (x ∷ xs) =
    let (whole, short) = split_at-whole n xs in (ap (λ ys. x ∷ ys) whole, omega (arith, short))

put_back-flat : (rest : List ℕ) (s : Stream) → flat (put_back rest s) ≡ rest ++ flat s
put_back-flat [] s = refl
put_back-flat (b ∷ bs) s = refl

abbrev pub Taken : Stream → List ℕ → List ℕ → Stream → ℕ → Type 0
Taken s before after s' size =
    (chunk : List ℕ) × Takes s before after s' chunk × (1 ≤ length chunk) × (length chunk ≤ size)

extend-Takes :
    (bs : List ℕ) (so_far : List ℕ) (buffer : List ℕ × List ℕ) (s s' : Stream) (after : List ℕ)
    (size : ℕ)
    → buffer.0 ++ buffer.1 ≡ bs
    → length buffer.0 ≤ size
    → extend so_far buffer s ≡ pass (after, s')
    → Taken (bytes bs ∷ s) so_far after s' size
unfolding extend
extend-Takes bs so_far ([], rest) s s' after size whole short e = cc
extend-Takes bs so_far (b ∷ taken, rest) s s' after size whole short e =
    let grown : after ≡ so_far ++ (b ∷ taken) = cc in
    let left : s' ≡ put_back rest s = cc in
    let takes : Takes (bytes bs ∷ s) so_far after s' (b ∷ taken) = record {
      appended = grown;
      removed =
          sym (ap (λ z. z ++ flat s) whole)
          ∙ append_assoc (b ∷ taken) rest (flat s)
          ∙ ap (λ z. (b ∷ taken) ++ z) (sym (put_back-flat rest s) ∙ ap flat (sym left));
    } in
    (b ∷ taken, takes, omega arith, short)

pub read_piece-Takes :
    (s : Stream) (so_far : List ℕ) (size : ℕ) (after : List ℕ) (s' : Stream)
    → read_piece s so_far size ≡ pass (after, s')
    → Taken s so_far after s' size
unfolding read_piece
read_piece-Takes [] so_far size after s' e = cc
read_piece-Takes (late ∷ s) so_far size after s' e = cc
read_piece-Takes (quiet ∷ s) so_far size after s' e = cc
read_piece-Takes (unsettable x ∷ s) so_far size after s' e = cc
read_piece-Takes (broken x ∷ s) so_far size after s' e = cc
read_piece-Takes (bytes bs ∷ s) so_far size after s' e =
    let (whole, short) = split_at-whole size bs in
    extend-Takes bs so_far (split_at size bs) s s' after size whole short e

-- Two takings, one behind the other.
pub Takes-trans :
    (s t u : Stream) (a b c x y : List ℕ)
    → Takes s a b t x
    → Takes t b c u y
    → Takes s a c u (x ++ y)
Takes-trans s t u a b c x y p q = record {
  appended = q.appended ∙ ap (λ z. z ++ y) p.appended ∙ append_assoc a x y;
  removed = p.removed ∙ ap (λ z. x ++ z) q.removed ∙ sym (append_assoc x y (flat u));
}

Takes-none : (s : Stream) (a : List ℕ) → Takes s a a s []
Takes-none s a = record { appended = sym (append-nil a); removed = refl }

-- Whatever the loops read behind a first chunk is appended to it.
abbrev pub Reads : Stream → List ℕ → List ℕ → Stream → ℕ → Type 0
Reads s a c u size = (chunk : List ℕ) × Takes s a c u chunk × (length chunk ≤ size)

pub length-append : (x y : List ℕ) → length (x ++ y) ≡ length x + length y
length-append [] y = omega arith
length-append (b ∷ x) y = omega (arith, length-append x y)

pub Reads-suc :
    (s t u : Stream) (a b c : List ℕ) (size : ℕ)
    → Taken s a b t 1
    → Reads t b c u size
    → Reads s a c u (suc size)
Reads-suc s t u a b c size (x, p, low, high) (y, q, short) =
    (x ++ y, Takes-trans s t u a b c x y p q, omega (arith, length-append x y))

abbrev pub Answers : Checked (List ℕ × Stream) → List ℕ → Stream → Type 0
Answers answer read s' = answer ≡ pass (read, s')

pub Takes-end :
    (s s' : Stream) (a head : List ℕ) → Answers (pass (a, s)) head s' → Takes s a head s' []
Takes-end s s' a head e =
    let same : head ≡ a = cc in
    let left : s ≡ s' = cc in
    record { appended = same ∙ sym (append-nil a); removed = ap flat left }
