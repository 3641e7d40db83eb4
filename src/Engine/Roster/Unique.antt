-- ===== src/Engine/Roster/Unique.antt =====
-- rust/src/engine.rs `dedupe`: no id twice, and no id lost.
use text.Mathlib.TextPositions.{eq_refl}
use dssp_bot.Prelude.{
  ℕ, ◌+◌, String, Bool, true, false, ◌≡◌, refl, ◌⊎◌, inl, inr, Bool-cases, Option, none, some, List,
  [], ◌∷◌, arith, All, any, str_eq, if◌then◌else◌,
}
use dssp_bot.Protocol.{TraineeRef}
use dssp_bot.Engine.Roster.{QueueKey, key_namespace, key_eq, dedupe_from, dedupe}

abbrev with_id : Option String → List String → List String
with_id none ids = ids
with_id (some id) ids = id ∷ ids

-- The ids in a queue.
abbrev pub queued_ids : List (String × TraineeRef) → List String
queued_ids [] = []
queued_ids ((key, trainee) ∷ rest) = with_id trainee.id (queued_ids rest)

-- Each id differs from all behind it.
abbrev pub AllDistinct : List String → Type 0
AllDistinct [] = Unit
AllDistinct (id ∷ ids) = All (λ x. str_eq id x ≡ false) ids × AllDistinct ids

abbrev was_seen : List QueueKey → QueueKey → Bool
was_seen seen key = any (λ k. key_eq k key) seen

abbrev NewIds : List QueueKey → List String → Type 0
NewIds seen ids = All (λ x. was_seen seen (QueueKey.id x) ≡ false) ids × AllDistinct ids

later_new :
    (key : QueueKey) (seen : List QueueKey) (ids : List String)
    → All (λ x. was_seen (key ∷ seen) (QueueKey.id x) ≡ false) ids
    → All (λ x. key_eq key (QueueKey.id x) ≡ false) ids
      × All (λ x. was_seen seen (QueueKey.id x) ≡ false) ids
later_new key seen [] h = (tt, tt)
later_new key seen (x ∷ ids) h =
    let (apart, before) = later_new key seen ids h.1 in
    ((ground (arith, h.0), apart), (ground (arith, h.0), before))

id_apart :
    (id : String) (ids : List String)
    → All (λ x. key_eq (QueueKey.id id) (QueueKey.id x) ≡ false) ids
    → All (λ x. str_eq id x ≡ false) ids
unfolding key_eq
id_apart id [] h = tt
id_apart id (x ∷ ids) h = (h.0, id_apart id ids h.1)

-- What a trainee that was not seen before adds.
kept_new :
    (id name : Option String) (i : ℕ) (seen : List QueueKey) (ids : List String)
    → was_seen seen (key_namespace (record { id = id; name = name }) i) ≡ false
    → NewIds (key_namespace (record { id = id; name = name }) i ∷ seen) ids
    → NewIds seen (with_id id ids)
unfolding key_namespace
kept_new (some id) name i seen ids e (new, distinct) =
    let (apart, before) = later_new (QueueKey.id id) seen ids new in
    ((e, before), (id_apart id ids apart, distinct))
kept_new none (some name) i seen ids e (new, distinct) =
    ((later_new (QueueKey.name name) seen ids new).1, distinct)
kept_new none none i seen ids e (new, distinct) =
    ((later_new (QueueKey.position i) seen ids new).1, distinct)

dedupe_from-NewIds :
    (i : ℕ) (seen : List QueueKey) (trainees : List TraineeRef)
    → NewIds seen (queued_ids (dedupe_from i seen trainees))
unfolding dedupe_from
dedupe_from-NewIds i seen [] = (tt, tt)
dedupe_from-NewIds i seen (t ∷ ts) =
    let again = dedupe_from-NewIds (i + 1) seen ts in
    let fresh = dedupe_from-NewIds (i + 1) (key_namespace t i ∷ seen) ts in
    elim (Bool-cases (was_seen seen (key_namespace t i))) [
      | inl e ↦ rw e again
      | inr e ↦ rw e (kept_new t.id t.name i seen _ e fresh)
    ]

-- Where a trainee is named by an id, the id is among those queued.
abbrev pub IsKept : List String → Option String → Type 0
IsKept ids none = Unit
IsKept ids (some id) = any (λ x. str_eq x id) ids ≡ true

abbrev HasSeen : List QueueKey → List String → Option String → Type 0
HasSeen seen ids none = Unit
HasSeen seen ids (some id) =
    (was_seen seen (QueueKey.id id) ≡ true) ⊎ (any (λ x. str_eq x id) ids ≡ true)

-- An id seen with a trainee that is kept is queued with it.
HasSeen-kept :
    (id name : Option String) (i : ℕ) (seen : List QueueKey) (ids : List String) (o : Option String)
    → HasSeen (key_namespace (record { id = id; name = name }) i ∷ seen) ids o
    → HasSeen seen (with_id id ids) o
unfolding key_namespace key_eq
HasSeen-kept id name i seen ids none h = tt
HasSeen-kept (some a) name i seen ids (some x) (inr e) = inr (ground arith)
HasSeen-kept (some a) name i seen ids (some x) (inl e) =
    elim (Bool-cases (was_seen seen (QueueKey.id x))) [
      | inl e' ↦ inl e'
      | inr e' ↦ inr (ground arith)
    ]
HasSeen-kept none (some name) i seen ids (some x) (inl e) = inl (ground arith)
HasSeen-kept none (some name) i seen ids (some x) (inr e) = inr e
HasSeen-kept none none i seen ids (some x) (inl e) = inl (ground arith)
HasSeen-kept none none i seen ids (some x) (inr e) = inr e

all_kept :
    (u : TraineeRef) (i : ℕ) (seen : List QueueKey) (ids : List String) (ts : List TraineeRef)
    → All (λ t. HasSeen (key_namespace u i ∷ seen) ids t.id) ts
    → All (λ t. HasSeen seen (with_id u.id ids) t.id) ts
all_kept u i seen ids [] h = tt
all_kept u i seen ids (t ∷ ts) h =
    (HasSeen-kept u.id u.name i seen ids t.id h.0, all_kept u i seen ids ts h.1)

repeat_seen :
    (id name : Option String) (i : ℕ) (seen : List QueueKey) (ids : List String)
    → was_seen seen (key_namespace (record { id = id; name = name }) i) ≡ true
    → HasSeen seen ids id
unfolding key_namespace
repeat_seen none name i seen ids e = tt
repeat_seen (some a) name i seen ids e = inl e

kept_seen :
    (id : Option String) (seen : List QueueKey) (ids : List String)
    → HasSeen seen (with_id id ids) id
kept_seen none seen ids = tt
kept_seen (some a) seen ids = inr (ground (arith, eq_refl a))

step_seen :
    (t : TraineeRef) (ts : List TraineeRef) (i : ℕ) (seen : List QueueKey) (key : String)
    (repeat fresh : List (String × TraineeRef)) (b : Bool)
    → was_seen seen (key_namespace t i) ≡ b
    → All (λ u. HasSeen seen (queued_ids repeat) u.id) ts
    → All (λ u. HasSeen (key_namespace t i ∷ seen) (queued_ids fresh) u.id) ts
    → All (λ u. HasSeen seen (queued_ids (if b then repeat else (key, t) ∷ fresh)) u.id) (t ∷ ts)
step_seen t ts i seen key repeat fresh true e again new =
    (repeat_seen t.id t.name i seen _ e, again)
step_seen t ts i seen key repeat fresh false e again new =
    (kept_seen t.id seen _, all_kept t i seen _ ts new)

dedupe_from-HasSeen :
    (i : ℕ) (seen : List QueueKey) (trainees : List TraineeRef)
    → All (λ t. HasSeen seen (queued_ids (dedupe_from i seen trainees)) t.id) trainees
unfolding dedupe_from
dedupe_from-HasSeen i seen [] = tt
dedupe_from-HasSeen i seen (t ∷ ts) =
    step_seen t ts i seen _ _ _ (was_seen seen (key_namespace t i)) refl
      (dedupe_from-HasSeen (i + 1) seen ts)
      (dedupe_from-HasSeen (i + 1) (key_namespace t i ∷ seen) ts)

HasSeen-IsKept : (ids : List String) (o : Option String) → HasSeen [] ids o → IsKept ids o
HasSeen-IsKept ids none h = tt
HasSeen-IsKept ids (some x) (inl e) = cc
HasSeen-IsKept ids (some x) (inr e) = e

all_IsKept :
    (ids : List String) (ts : List TraineeRef)
    → All (λ t. HasSeen [] ids t.id) ts
    → All (λ t. IsKept ids t.id) ts
all_IsKept ids [] h = tt
all_IsKept ids (t ∷ ts) h = (HasSeen-IsKept ids t.id h.0, all_IsKept ids ts h.1)

-- No two ids of the trainees that a run queues compare equal, and for each trainee that was asked
-- for by an id, an id that compares equal is queued.
pub dedupe-AllDistinct :
    (trainees : List TraineeRef)
    → AllDistinct (queued_ids (dedupe trainees))
      × All (λ t. IsKept (queued_ids (dedupe trainees)) t.id) trainees
unfolding dedupe
dedupe-AllDistinct trainees = (
  (dedupe_from-NewIds 0 [] trainees).1,
  all_IsKept _ trainees (dedupe_from-HasSeen 0 [] trainees),
)
