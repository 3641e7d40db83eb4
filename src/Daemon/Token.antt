-- ===== src/Daemon/Token.antt =====
-- rust/src/daemon.rs: `equal_token`, the comparison that takes the same time wherever two tokens differ.
use Prim.Native.Nat.{bit_or, bit_xor, bit_or-bitwise, bit_xor-bitwise, digits, differ, max}
use mathlib.Core.Path.{subst}
use dssp_bot.Prelude.{
  ℕ, zero, suc, ◌/◌, ◌%◌, ◌≤◌, ◌==◌, Bool, true, List, [], ◌∷◌, ◌≡◌, refl, sym, ap, ◌∙◌, ◌↔◌,
  length, arith,
}

-- `a.as_bytes().get(index).copied().unwrap_or(0)`, and the bytes behind it.
abbrev pub first_or_zero : List ℕ → ℕ
first_or_zero [] = 0
first_or_zero (x ∷ xs) = x

abbrev pub behind_first : List ℕ → List ℕ
behind_first [] = []
behind_first (x ∷ xs) = xs

-- The loop over the bytes of `b`, with those of `a` from the same index on.
unfoldable pub differences : List ℕ → List ℕ → ℕ → ℕ
differences a [] diff = diff
differences a (expected ∷ rest) diff =
    differences (behind_first a) rest (bit_or diff (bit_xor (first_or_zero a) expected))

-- Two texts, as their bytes.
unfoldable pub equal_token : List ℕ → List ℕ → Bool
unfolding differences
equal_token a b = differences a b (bit_xor (length a) (length b)) == 0

differ-zero : (x y : ℕ) → differ x y ≡ 0 → x ≡ y
differ-zero zero y e = sym e
differ-zero (suc x) zero e = e
differ-zero (suc x) (suc y) e = ap suc (differ-zero x y e)

differ_self : (x : ℕ) → differ x x ≡ 0
differ_self zero = refl
differ_self (suc x) = differ_self x

-- Two numbers whose halves and lowest digits agree.
halves : (a b : ℕ) → a / 2 ≡ b / 2 → a % 2 ≡ b % 2 → a ≡ b
halves a b p q = omega arith

xor_digits-zero : (n a b : ℕ) → a ≤ n → digits (λ y. y) differ n a b ≡ 0 → a ≡ b
xor_digits-zero zero a b h e = omega (arith, e)
xor_digits-zero (suc n) zero b h e = sym e
xor_digits-zero (suc n) (suc a) b h e =
    let halved = xor_digits-zero n (suc a / 2) (b / 2) (omega arith) (omega (arith, e)) in
    let lowest = differ-zero (suc a % 2) (b % 2) (omega (arith, e)) in
    halves (suc a) b halved lowest

xor_digits_self : (n a : ℕ) → a ≤ n → digits (λ y. y) differ n a a ≡ 0
xor_digits_self zero a h = omega arith
xor_digits_self (suc n) zero h = refl
xor_digits_self (suc n) (suc a) h =
    omega (arith, xor_digits_self n (suc a / 2) (omega arith), differ_self (suc a % 2))

or_digits-zero : (n a b : ℕ) → a ≤ n → digits (λ y. y) max n a b ≡ 0 → (a ≡ 0) × (b ≡ 0)
or_digits-zero zero a b h e = (omega arith, e)
or_digits-zero (suc n) zero b h e = (refl, e)
or_digits-zero (suc n) (suc a) b h e =
    let (p, q) = or_digits-zero n (suc a / 2) (b / 2) (omega arith) (omega (arith, e)) in
    (omega (arith, e), omega (arith, e))

xor-zero : (a b : ℕ) → bit_xor a b ≡ 0 → a ≡ b
xor-zero a b e = xor_digits-zero a a b (omega arith) (sym (bit_xor-bitwise a b) ∙ e)

xor_self : (a : ℕ) → bit_xor a a ≡ 0
xor_self a = bit_xor-bitwise a a ∙ xor_digits_self a a (omega arith)

or-zero : (a b : ℕ) → bit_or a b ≡ 0 → (a ≡ 0) × (b ≡ 0)
or-zero a b e = or_digits-zero a a b (omega arith) (sym (bit_or-bitwise a b) ∙ e)

-- No difference was found: the first `length b` bytes agree, a missing one read as 0.
differences-zero :
    (a b : List ℕ) (diff : ℕ)
    → differences a b diff ≡ 0
    → (diff ≡ 0) × (length a ≡ length b → a ≡ b)
unfolding differences
differences-zero [] [] diff e = (e, λ h. refl)
differences-zero (x ∷ a) [] diff e = (e, λ h. absurd (omega (arith, h)))
differences-zero a (y ∷ b) diff e =
    let (found, rest) = differences-zero (behind_first a) b _ e in
    let (none, same) = or-zero diff (bit_xor (first_or_zero a) y) found in
    (none, joined a rest (xor-zero (first_or_zero a) y same))
  where
    joined :
        (a : List ℕ)
        → (length (behind_first a) ≡ length b → behind_first a ≡ b)
        → first_or_zero a ≡ y
        → length a ≡ length (y ∷ b)
        → a ≡ y ∷ b
    joined [] rest same h = absurd (omega (arith, h))
    joined (x ∷ a) rest same h = let tail = rest (omega (arith, h)) in cc

differences_self : (a : List ℕ) → differences a a 0 ≡ 0
unfolding differences
differences_self [] = refl
differences_self (x ∷ a) = rw xor_self (differences_self a)

accepted : (b : List ℕ) → equal_token b b ≡ true
unfolding equal_token
accepted b = rw xor_self (rw differences_self refl)

-- The comparison accepts a token exactly where it is the expected one, whatever bytes either holds.
pub equal_token_iff : (a b : List ℕ) → (equal_token a b ≡ true) ↔ (a ≡ b)
unfolding equal_token
equal_token_iff a b = (
  λ e.
      let (lengths, bytes) = differences-zero a b _ (ground (arith, e)) in
      bytes (xor-zero (length a) (length b) lengths),
  λ e. subst (λ t. equal_token t b ≡ true) (sym e) (accepted b),
)
