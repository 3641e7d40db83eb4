-- ===== src/Command/Resolution.antt =====
-- rust/src/main.rs `resolve_against`: the roster names every entry's trainee, once.
use text.Mathlib.TextPositions.{eq_refl}
use dssp_bot.Prelude.{
  ℕ, ◌+◌, String, Bool, true, false, ◌≡◌, refl, sym, ◌⊎◌, inl, inr, Bool-cases, List, [], ◌∷◌,
  arith, All, str_eq,
}
use dssp_bot.Protocol.{TraineeRef, TraineeInfo}
use dssp_bot.Command.Names.{Names, find-Names, ids_of, seen_in}
use dssp_bot.Command.Asked.{IsAsked, resolve_from-asks}
use dssp_bot.Command.{
  Found, one, unknown_id, unknown_name, shared, find, enlist, add, resolved_ref, resolve_from,
  roster_or, resolve_against,
}

-- Each id differs from all behind it.
abbrev pub Distinct : List String → Type 0
Distinct [] = Unit
Distinct (id ∷ ids) = All (λ x. str_eq id x ≡ false) ids × Distinct ids

-- Distinct among themselves, and from those seen before.
abbrev Fresh : List String → List String → Type 0
Fresh seen ids = All (λ x. seen_in seen x ≡ false) ids × Distinct ids

split_fresh :
    (id : String) (seen ids : List String)
    → All (λ x. seen_in (id ∷ seen) x ≡ false) ids
    → All (λ x. str_eq id x ≡ false) ids × All (λ x. seen_in seen x ≡ false) ids
split_fresh id seen [] h = (tt, tt)
split_fresh id seen (x ∷ ids) h =
    let (apart, before) = split_fresh id seen ids h.1 in
    ((ground (arith, h.0), apart), (ground (arith, h.0), before))

-- The entry names a trainee whose id is in the roster.
abbrev pub IsQueued : (String → String) → List TraineeInfo → List TraineeRef → TraineeRef → Type 0
IsQueued normalize available roster entry =
    (t : TraineeInfo) × Names normalize available entry.id entry.name t
    × (seen_in (ids_of roster) t.id ≡ true)

module _ (normalize : String → String) (available : List TraineeInfo) where
  enlist-Fresh :
      (t : TraineeInfo) (seen : List String) (rest : List String → List TraineeRef × List String)
      (b : Bool)
      → seen_in seen t.id ≡ b
      → ((seen' : List String) → Fresh seen' (ids_of (rest seen').0))
      → Fresh seen (ids_of (enlist normalize available t seen rest b).0)
  unfolding enlist
  enlist-Fresh t seen rest true e h = h seen
  enlist-Fresh t seen rest false e h =
      let (new, distinct) = h (t.id ∷ seen) in
      let (apart, before) = split_fresh t.id seen (ids_of (rest (t.id ∷ seen)).0) new in
      ((e, before), (apart, distinct))

  add-Fresh :
      (label : String) (seen : List String) (rest : List String → List TraineeRef × List String)
      (found : Found)
      → ((seen' : List String) → Fresh seen' (ids_of (rest seen').0))
      → Fresh seen (ids_of (add normalize available label seen rest found).0)
  unfolding add
  add-Fresh label seen rest (one t) h = enlist-Fresh t seen rest (seen_in seen t.id) refl h
  add-Fresh label seen rest unknown_id h = h seen
  add-Fresh label seen rest unknown_name h = h seen
  add-Fresh label seen rest (shared n) h = h seen

  resolve_from-Fresh :
      (i : ℕ) (entries : List TraineeRef) (seen : List String)
      → Fresh seen (ids_of (resolve_from normalize available i entries seen).0)
  unfolding resolve_from
  resolve_from-Fresh i [] seen = (tt, tt)
  resolve_from-Fresh i (entry ∷ entries) seen =
      add-Fresh _ seen _ (find normalize available entry) (resolve_from-Fresh (i + 1) entries)

  -- The entry names one trainee, who was seen before or is in the roster.
  abbrev IsNamed : List String → List TraineeRef → TraineeRef → Type 0
  IsNamed seen roster entry =
      (t : TraineeInfo) × (find normalize available entry ≡ one t)
      × ((seen_in seen t.id ≡ true) ⊎ (seen_in (ids_of roster) t.id ≡ true))

  moved :
      (id : String) (seen : List String) (roster : List TraineeRef) (x : String)
      → (seen_in (id ∷ seen) x ≡ true) ⊎ (seen_in (ids_of roster) x ≡ true)
      → (seen_in seen x ≡ true) ⊎ (seen_in (id ∷ ids_of roster) x ≡ true)
  moved id seen roster x (inl e) = elim (Bool-cases (seen_in seen x)) [
    | inl e' ↦ inl e'
    | inr e' ↦ inr (ground arith)
  ]
  moved id seen roster x (inr e) = inr (ground arith)

  IsNamed-moves :
      (u : TraineeInfo) (seen : List String) (roster entries : List TraineeRef)
      → All (IsNamed (u.id ∷ seen) roster) entries
      → All (IsNamed seen (resolved_ref normalize available u ∷ roster)) entries
  IsNamed-moves u seen roster [] h = tt
  IsNamed-moves u seen roster (entry ∷ entries) ((t, e, placed), hs) =
      ((t, e, moved u.id seen roster t.id placed), IsNamed-moves u seen roster entries hs)

  enlist-covers :
      (t : TraineeInfo) (seen : List String) (rest : List String → List TraineeRef × List String)
      (entry : TraineeRef) (entries : List TraineeRef) (b : Bool)
      → seen_in seen t.id ≡ b
      → find normalize available entry ≡ one t
      → ((seen' : List String) → (rest seen').1 ≡ [] → All (IsNamed seen' (rest seen').0) entries)
      → (enlist normalize available t seen rest b).1 ≡ []
      → All (IsNamed seen (enlist normalize available t seen rest b).0) (entry ∷ entries)
  unfolding enlist
  enlist-covers t seen rest entry entries true known e h none_left =
      ((t, e, inl known), h seen none_left)
  enlist-covers t seen rest entry entries false known e h none_left = (
    (t, e, inr (ground (arith, eq_refl t.id))),
    IsNamed-moves t seen _ entries (h (t.id ∷ seen) none_left),
  )

  add-covers :
      (label : String) (seen : List String) (rest : List String → List TraineeRef × List String)
      (entry : TraineeRef) (entries : List TraineeRef) (found : Found)
      → find normalize available entry ≡ found
      → ((seen' : List String) → (rest seen').1 ≡ [] → All (IsNamed seen' (rest seen').0) entries)
      → (add normalize available label seen rest found).1 ≡ []
      → All (IsNamed seen (add normalize available label seen rest found).0) (entry ∷ entries)
  unfolding add
  add-covers label seen rest entry entries (one t) e h none_left =
      enlist-covers t seen rest entry entries (seen_in seen t.id) refl e h none_left
  add-covers label seen rest entry entries unknown_id e h none_left = cc
  add-covers label seen rest entry entries unknown_name e h none_left = cc
  add-covers label seen rest entry entries (shared n) e h none_left = cc

  resolve_from-covers :
      (i : ℕ) (entries : List TraineeRef) (seen : List String)
      → (resolve_from normalize available i entries seen).1 ≡ []
      → All (IsNamed seen (resolve_from normalize available i entries seen).0) entries
  unfolding resolve_from
  resolve_from-covers i [] seen h = tt
  resolve_from-covers i (entry ∷ entries) seen h =
      add-covers _ seen _ entry entries (find normalize available entry) refl
        (resolve_from-covers (i + 1) entries) h

  roster_or-inl :
      (resolved : List TraineeRef) (problems : List String) {roster : List TraineeRef}
      → roster_or normalize available resolved problems ≡ inl roster
      → (resolved ≡ roster) × (problems ≡ [])
  unfolding roster_or
  roster_or-inl resolved [] e = (cc, refl)
  roster_or-inl resolved (p ∷ problems) e = cc

  queued :
      (roster entries : List TraineeRef)
      → All (IsNamed [] roster) entries
      → All (IsQueued normalize available roster) entries
  queued roster [] h = tt
  queued roster (entry ∷ entries) ((t, e, inl seen), h) = cc
  queued roster (entry ∷ entries) ((t, e, inr placed), h) =
      ((t, find-Names normalize available entry t e, placed), queued roster entries h)

  -- In a roster that is resolved no two ids compare equal, and each entry that was asked for names a
  -- trainee whose id is in the roster: with an id, the last of the portal's trainees that has it; without
  -- one, the only one of them whose name, once both are normalized, is the entry's. Every id of the
  -- roster is that of a trainee whom one of the entries names.
  pub resolve_against-covers :
      (trainees roster : List TraineeRef)
      → resolve_against normalize available trainees ≡ inl roster
      → Distinct (ids_of roster)
        × All (IsQueued normalize available roster) trainees
        × All (IsAsked normalize available trainees) (ids_of roster)
  unfolding resolve_against
  resolve_against-covers trainees roster e =
      let (same, none_left) =
        roster_or-inl (resolve_from normalize available 0 trainees []).0
          (resolve_from normalize available 0 trainees []).1 e in
      rw (sym same) (
        (resolve_from-Fresh 0 trainees []).1,
        queued _ trainees (resolve_from-covers 0 trainees [] none_left),
        resolve_from-asks normalize available 0 trainees [],
      )
