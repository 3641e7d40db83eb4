-- ===== src/Daemon/TokenFile/Minted.antt =====
-- rust/src/daemon.rs: a token that a start makes is the token of every start behind it.
use dssp_bot.Prelude.{
  ℕ, zero, suc, ◌+◌, ◌-◌, ◌*◌, ◌/◌, ◌%◌, ◌<◌, String, Bool, true, false, ◌&&◌, leb, none, some,
  List, [], ◌∷◌, ◌≡◌, refl, sym, ◌∙◌, ap, length, ok, All, arith, if◌then◌else◌,
}
use dssp_bot.Daemon.Bytes.{all_bytes, is_utf8}
use dssp_bot.Daemon.Http.{split_at}
use dssp_bot.Daemon.TokenFile.{
  Calls, hex_digit, hex, is_hex, private_mode, is_private, check_token, check_owned, check_entry,
  check_opened, created, create_token, token_file,
}

-- The bytes that hexadecimal digits write.
abbrev pub nibble : ℕ → ℕ
nibble b = if leb b b'9' then b - b'0' else b - b'a' + 10

abbrev pub unhex : List ℕ → List ℕ
unhex (a ∷ b ∷ rest) = (nibble a * 16 + nibble b) ∷ unhex rest
unhex _ = []

abbrev pub IsByte : ℕ → Type 0
IsByte b = b < 256

nibble-hex_digit : (n : ℕ) → n < 16 → nibble (hex_digit n) ≡ n
nibble-hex_digit n h = ground arith

hex_digit-is_hex : (n : ℕ) → n < 16 → is_hex (hex_digit n) ≡ true
hex_digit-is_hex n h = ground arith

pub unhex-hex : (bs : List ℕ) → All IsByte bs → unhex (hex bs) ≡ bs
unfolding hex
unhex-hex [] h = refl
unhex-hex (b ∷ bs) (small, h) = rw (nibble-hex_digit (b / 16) (omega arith)) (
    rw (nibble-hex_digit (b % 16) (omega arith))
      (rw (unhex-hex bs h) (ap (λ n. n ∷ bs) (omega arith))))

length-hex : (bs : List ℕ) → length (hex bs) ≡ 2 * length bs
unfolding hex
length-hex [] = refl
length-hex (b ∷ bs) = omega (arith, length-hex bs)

hex-all_hex : (bs : List ℕ) → All IsByte bs → all_bytes is_hex (hex bs) ≡ true
unfolding hex
hex-all_hex [] h = refl
hex-all_hex (b ∷ bs) (small, h) =
    rw (hex_digit-is_hex (b / 16) (omega arith))
      (rw (hex_digit-is_hex (b % 16) (omega arith)) (hex-all_hex bs h))

is_hex-low : (b : ℕ) → is_hex b ≡ true → leb b 127 ≡ true
is_hex-low b h = ground arith

and_true : (a b : Bool) → (a && b) ≡ true → (a ≡ true) × (b ≡ true)
and_true true b h = (refl, h)
and_true false b h = cc

hex-utf8 : (bs : List ℕ) → all_bytes is_hex bs ≡ true → is_utf8 [] bs ≡ true
unfolding is_utf8
hex-utf8 [] h = refl
hex-utf8 (b ∷ bs) h =
    let (digit, digits) = and_true (is_hex b) (all_bytes is_hex bs) h in
    rw (is_hex-low b digit, is_utf8) (hex-utf8 bs digits)

split_short : (n : ℕ) (xs : List ℕ) → length xs < n → (split_at n xs).0 ≡ xs
split_short zero xs h = absurd (omega arith)
split_short (suc n) [] h = refl
split_short (suc n) (x ∷ xs) h = ap (λ l. x ∷ l) (split_short n xs (omega arith))

check_token-hex :
    (random : List ℕ)
    → length random ≡ 32
    → All IsByte random
    → check_token (split_at 65 (hex random)).0 ≡ ok (hex random)
unfolding check_token
check_token-hex random long bytes =
    let digits = hex-all_hex random bytes in
    let size : length (hex random) ≡ 64 = omega (arith, length-hex random) in
    rw (split_short 65 (hex random) (omega arith))
      (rw (hex-utf8 (hex random) digits, size, digits) refl)

-- A start to which the system denies nothing, and which no other process races.
abbrev pub granted : List ℕ → ℕ → ℕ → Calls
granted random mode uid = record {
  open_fault = none;
  create_fault = none;
  write_fault = none;
  reopen_fault = none;
  metadata_fault = none;
  read_fault = none;
  entropy = ok random;
  raced = none;
  created_mode = mode;
  uid = uid;
  own_uid = ok uid;
  cut = λ bytes. bytes;
}

is_private-created :
    (random : List ℕ) (mode uid : ℕ) (token : List ℕ)
    → mode % 4096 ≡ private_mode
    → is_private uid (created (granted random mode uid) token) ≡ true
unfolding is_private
is_private-created random mode uid token h = ground arith

-- What a granted start makes of a file that a granted start made.
check_entry-created :
    (random other : List ℕ) (mode mode' uid : ℕ)
    → length random ≡ 32
    → All IsByte random
    → mode % 4096 ≡ private_mode
    → check_entry (granted other mode' uid) none (created (granted random mode uid) (hex random))
      ≡ ok (hex random)
unfolding check_entry check_owned
check_entry-created random other mode mode' uid long bytes h =
    rw (is_private-created random mode uid (hex random) h) (check_token-hex random long bytes)

-- Where nothing stands at the path, a start to which the system denies nothing takes the hexadecimal
-- text of the 32 random bytes for its token, from which the bytes can be read back, and every such
-- start behind it, whatever its random bytes, has the same token and leaves the file as it is.
pub token_file_reads_back :
    (path path' : String) (random other : List ℕ) (mode mode' uid : ℕ)
    → length random ≡ 32
    → All IsByte random
    → mode % 4096 ≡ private_mode
    → let (token, slot) = token_file (granted random mode uid) path none in
      (token ≡ ok (hex random))
      × (unhex (hex random) ≡ random)
      × (token_file (granted other mode' uid) path' slot ≡ (token, slot))
unfolding token_file create_token check_opened
token_file_reads_back path path' random other mode mode' uid long bytes h =
    let first = check_entry-created random random mode mode uid long bytes h in
    let later = check_entry-created random other mode mode' uid long bytes h in
    (
      first,
      unhex-hex random bytes,
      λ i. ((later ∙ sym first) i, some (created (granted random mode uid) (hex random))),
    )
