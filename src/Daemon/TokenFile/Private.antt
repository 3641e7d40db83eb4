-- ===== src/Daemon/TokenFile/Private.antt =====
-- rust/src/daemon.rs: which file a token is taken from, and that no file is written over.
use mathlib.Core.Path.{subst}
use dssp_bot.Prelude.{
  ℕ, zero, suc, ◌%◌, ◌<◌, String, Bool, true, false, Option, none, some, List, [], ◌∷◌, ◌≡◌, refl,
  sym, ap, ◌∙◌, length, Result, ok, err, Bool-cases, inl, inr, arith,
}
use dssp_bot.Daemon.Bytes.{all_bytes}
use dssp_bot.Daemon.Http.{split_at}
use dssp_bot.Daemon.TokenFile.{
  Entry, Calls, unless_link, open_entry, is_hex, private_mode, is_private, check_token, read_token,
  check_owned, check_entry, check_opened, created, write_token, create_token, hex, mint, token_of,
  token_file,
}

-- A list that is cut at 65 and then has 64 items was not cut.
short_whole : (n : ℕ) (xs : List ℕ) → length (split_at n xs).0 < n → (split_at n xs).0 ≡ xs
short_whole zero xs h = absurd (omega arith)
short_whole (suc n) [] h = refl
short_whole (suc n) (x ∷ xs) h = ap (λ l. x ∷ l) (short_whole n xs (omega arith))

abbrev pub IsToken : List ℕ → Type 0
IsToken token = (length token ≡ 64) × (all_bytes is_hex token ≡ true)

check_token-IsToken : (bs token : List ℕ) → check_token bs ≡ ok token → (bs ≡ token) × IsToken bs
unfolding check_token
check_token-IsToken bs token h = ground arith

-- A file that a token may be taken from: a regular file of this process's user, with one name, that
-- nobody else may read or write, whose whole content is the token.
pub record IsPrivate (calls : Calls) (token : List ℕ) (entry : Entry) : Type 0 where
  pub regular : entry.is_file ≡ true
  pub unlinked : entry.is_link ≡ false
  pub closed : entry.mode % 4096 ≡ private_mode
  pub owned : calls.own_uid ≡ ok entry.uid
  pub single : entry.nlink ≡ 1
  pub content : entry.bytes ≡ token

read_token-content :
    (fault : Option String) (entry : Entry) (token : List ℕ)
    → read_token fault entry ≡ ok token
    → (entry.bytes ≡ token) × IsToken token
unfolding read_token
read_token-content (some e) entry token h = cc
read_token-content none entry token h =
    let (same, (long, digits)) = check_token-IsToken (split_at 65 entry.bytes).0 token h in
    (
      sym (short_whole 65 entry.bytes (omega (arith, long))) ∙ same,
      subst IsToken same (long, digits),
    )

is_private-facts :
    (own : ℕ) (entry : Entry)
    → is_private own entry ≡ true
    → (entry.is_file ≡ true)
      × (entry.mode % 4096 ≡ private_mode)
      × (entry.uid ≡ own)
      × (entry.nlink ≡ 1)
unfolding is_private
is_private-facts own entry h = ground arith

-- What an open that succeeds and the checks behind it show.
abbrev Shows : Calls → List ℕ → Entry → Type 0
Shows calls token entry = IsPrivate calls token entry × IsToken token

check_owned-Shows :
    (calls : Calls) (entry : Entry) (r : Result ℕ) (token : List ℕ)
    → calls.own_uid ≡ r
    → entry.is_link ≡ false
    → check_owned calls entry r ≡ ok token
    → Shows calls token entry
unfolding check_owned
check_owned-Shows calls entry (err e) token o l h = cc
check_owned-Shows calls entry (ok own) token o l h = elim (Bool-cases (is_private own entry)) [
  | inl p ↦
      let (content, good) = read_token-content calls.read_fault entry token (rw p at h) in
      let (file, mode, owner, single) = is_private-facts own entry p in
      (
        record {
          regular = file;
          unlinked = l;
          closed = mode;
          owned = o ∙ ap ok (sym owner);
          single = single;
          content = content;
        },
        good,
      )
  | inr p ↦ let h' = rw p at h in cc
]

check_entry-Shows :
    (calls : Calls) (entry : Entry) (fault : Option String) (token : List ℕ)
    → entry.is_link ≡ false
    → check_entry calls fault entry ≡ ok token
    → Shows calls token entry
unfolding check_entry
check_entry-Shows calls entry (some e) token l h = cc
check_entry-Shows calls entry none token l h =
    check_owned-Shows calls entry calls.own_uid token refl l h

-- The path names a file that the token may be taken from.
abbrev pub Names : Calls → List ℕ → Option Entry → Type 0
Names calls token slot =
    (entry : Entry) × (slot ≡ some entry) × IsPrivate calls token entry × IsToken token

unlinked-Names :
    (calls : Calls) (entry : Entry) (link : Bool) (token : List ℕ)
    → entry.is_link ≡ link
    → check_opened calls (unless_link link entry) ≡ ok token
    → Names calls token (some entry)
unfolding check_opened unless_link
unlinked-Names calls entry true token l h = cc
unlinked-Names calls entry false token l h =
    let (safe, good) = check_entry-Shows calls entry calls.metadata_fault token l h in
    (entry, refl, safe, good)

reopened-Names :
    (calls : Calls) (fault : Option String) (slot : Option Entry) (token : List ℕ)
    → check_opened calls (open_entry fault slot) ≡ ok token
    → Names calls token slot
unfolding open_entry
reopened-Names calls (some e) slot token h = unfold check_opened in cc
reopened-Names calls none none token h = unfold check_opened in cc
reopened-Names calls none (some entry) token h =
    unlinked-Names calls entry entry.is_link token refl h

write_token-Names :
    (calls : Calls) (fresh : List ℕ) (fault : Option String) (token : List ℕ)
    → (write_token calls fresh fault).0 ≡ ok token
    → Names calls token (write_token calls fresh fault).1
unfolding write_token
write_token-Names calls fresh (some e) token h = cc
write_token-Names calls fresh none token h =
    reopened-Names calls calls.reopen_fault (some (created calls fresh)) token h

create_token-Names :
    (calls : Calls) (path : String) (fresh : List ℕ) (slot : Option Entry) (fault : Option String)
    → (token : List ℕ) → (create_token calls path fresh slot fault).0 ≡ ok token
    → Names calls token (create_token calls path fresh slot fault).1
unfolding create_token
create_token-Names calls path fresh slot (some f) token h = cc
create_token-Names calls path fresh (some other) none token h =
    reopened-Names calls calls.reopen_fault (some other) token h
create_token-Names calls path fresh none none token h =
    write_token-Names calls fresh calls.write_fault token h

mint-Names :
    (calls : Calls) (path : String) (r : Result (List ℕ)) (token : List ℕ)
    → (mint calls path r).0 ≡ ok token
    → Names calls token (mint calls path r).1
unfolding mint
mint-Names calls path (err e) token h = cc
mint-Names calls path (ok random) token h =
    create_token-Names calls path (hex random) calls.raced calls.create_fault token h

found-Names :
    (calls : Calls) (path : String) (entry : Entry) (link : Bool) (token : List ℕ)
    → entry.is_link ≡ link
    → (token_of calls path (some entry) (unless_link link entry)).0 ≡ ok token
    → Names calls token (token_of calls path (some entry) (unless_link link entry)).1
unfolding token_of unless_link
found-Names calls path entry true token l h = cc
found-Names calls path entry false token l h =
    let (safe, good) = check_entry-Shows calls entry calls.metadata_fault token l h in
    (entry, refl, safe, good)

opened-Names :
    (calls : Calls) (path : String) (fault : Option String) (slot : Option Entry) (token : List ℕ)
    → (token_of calls path slot (open_entry fault slot)).0 ≡ ok token
    → Names calls token (token_of calls path slot (open_entry fault slot)).1
unfolding open_entry
opened-Names calls path (some e) slot token h = unfold token_of in cc
opened-Names calls path none none token h =
    unfold token_of in mint-Names calls path calls.entropy token h
opened-Names calls path none (some entry) token h =
    found-Names calls path entry entry.is_link token refl h

-- Whatever the system answers, a start that has a token has 64 hexadecimal digits, and its path then
-- names a regular file that is no link, has one name, belongs to this process's user, has the mode
-- 0600, and holds the token and nothing else.
pub token_file-IsPrivate :
    (calls : Calls) (path : String) (slot : Option Entry) (token : List ℕ)
    → (token_file calls path slot).0 ≡ ok token
    → Names calls token (token_file calls path slot).1
unfolding token_file
token_file-IsPrivate calls path slot token h = opened-Names calls path calls.open_fault slot token h
