-- ===== src/Command/Names.antt =====
-- rust/src/main.rs `resolve_against`: which trainee of the portal an entry names, independently of how
-- it is looked up.
use mathlib.Core.Path.{subst}
use text.Mathlib.TextEquality.{eq_iff}
use dssp_bot.Prelude.{
  any, map, String, Bool, false, ◌≡◌, ◌≢◌, refl, ap, ◌∙◌, Option, none, some, List, [], ◌∷◌, ◌++◌,
  All, filter, str_eq, unwrap_or, or_else, Bool-cases, inl, inr, if◌then◌else◌,
}
use dssp_bot.Protocol.{TraineeRef, TraineeInfo}
use dssp_bot.Command.{one, lookup_id, find_by, found_id, found_names, find}

abbrev pub ids_of : List TraineeRef → List String
ids_of refs = map (λ r. unwrap_or r.id "") refs

abbrev pub seen_in : List String → String → Bool
seen_in seen id = any (λ s. str_eq s id) seen

-- `t` stands in the list, and what is before and behind it satisfies these.
pub record Stands (available : List TraineeInfo) (t : TraineeInfo) (P Q : TraineeInfo → Type 0)
    : Type 0 where
  pub before : List TraineeInfo
  pub behind : List TraineeInfo
  pub split : available ≡ before ++ (t ∷ behind)
  pub apart_before : All P before
  pub apart_behind : All Q behind

abbrev Anyone : TraineeInfo → Type 0
Anyone u = Unit

-- An id names the last trainee of the portal that has it; a name names the only one whose name it is,
-- once both are normalized.
abbrev pub Names :
    (String → String) → List TraineeInfo → Option String → Option String → TraineeInfo → Type 0
Names normalize available (some id) name t =
    (t.id ≡ id) × Stands available t Anyone (λ u. u.id ≢ id)
Names normalize available none name t =
    let wanted = normalize (unwrap_or name "") in
    (normalize t.name ≡ wanted)
    × Stands available t (λ u. normalize u.name ≢ wanted) (λ u. normalize u.name ≢ wanted)

differ : (a b : String) → str_eq a b ≡ false → a ≢ b
differ a b h e = let same = (eq_iff a b).1 e in cc

further :
    (u : TraineeInfo) {available : List TraineeInfo} {t : TraineeInfo} {P Q : TraineeInfo → Type 0}
    → P u
    → Stands available t P Q
    → Stands (u ∷ available) t P Q
further u h s = record {
  before = u ∷ s.before;
  behind = s.behind;
  split = ap (λ xs. u ∷ xs) s.split;
  apart_before = (h, s.apart_before);
  apart_behind = s.apart_behind;
}

first :
    (t : TraineeInfo) {available : List TraineeInfo} {P Q : TraineeInfo → Type 0}
    → All Q available
    → Stands (t ∷ available) t P Q
first t h = record { before = []; behind = _; split = refl; apart_before = tt; apart_behind = h }

module _ (id : String) where
  unlisted :
      (available : List TraineeInfo)
      → lookup_id available id ≡ none
      → All (λ u. u.id ≢ id) available
  unfolding lookup_id
  unlisted [] h = tt
  unlisted (u ∷ available) h = by_rest (lookup_id available id) (unlisted available) refl h
    where
      by_rest :
          (o : Option TraineeInfo)
          → (lookup_id available id ≡ none → All (λ u. u.id ≢ id) available)
          → lookup_id available id ≡ o
          → or_else o (if str_eq u.id id then some u else none) ≡ none
          → All (λ u. u.id ≢ id) (u ∷ available)
      by_rest (some x) rest e h = cc
      by_rest none rest e h = elim (Bool-cases (str_eq u.id id)) [
        | inl same ↦ let h' = rw same at h in cc
        | inr apart ↦ (differ u.id id apart, rest e)
      ]

  lookup_id-Stands :
      (available : List TraineeInfo) (t : TraineeInfo)
      → lookup_id available id ≡ some t
      → (t.id ≡ id) × Stands available t Anyone (λ u. u.id ≢ id)
  unfolding lookup_id
  lookup_id-Stands [] t h = cc
  lookup_id-Stands (u ∷ available) t h =
      by_rest (lookup_id available id) (lookup_id-Stands available t) refl h
    where
      by_rest :
          (o : Option TraineeInfo)
          → (lookup_id available id ≡ some t
              → (t.id ≡ id) × Stands available t Anyone (λ u. u.id ≢ id))
          → lookup_id available id ≡ o
          → or_else o (if str_eq u.id id then some u else none) ≡ some t
          → (t.id ≡ id) × Stands (u ∷ available) t Anyone (λ u. u.id ≢ id)
      by_rest (some x) rest e h = let (same, stands) = rest (e ∙ h) in (same, further u tt stands)
      by_rest none rest e h = elim (Bool-cases (str_eq u.id id)) [
        | inl same ↦
            let h' : ◌≡◌ {A = Option TraineeInfo} (some u) (some t) = rw same at h in
            let it : u ≡ t = cc in
            subst (λ x. (x.id ≡ id) × Stands (u ∷ available) x Anyone (λ u. u.id ≢ id)) it
              ((eq_iff u.id id).0 same, first u (unlisted available e))
        | inr apart ↦ let h' = rw apart at h in cc
      ]

module _ (normalize : String → String) (wanted : String) where
  abbrev bears : TraineeInfo → Bool
  bears u = str_eq (normalize u.name) wanted

  nobody :
      (available : List TraineeInfo)
      → filter bears available ≡ []
      → All (λ u. normalize u.name ≢ wanted) available
  nobody [] h = tt
  nobody (u ∷ available) h = elim (Bool-cases (bears u)) [
    | inl e ↦ let h' = rw e at h in cc
    | inr e ↦ (differ (normalize u.name) wanted e, nobody available (rw e at h))
  ]

  only_one :
      (available : List TraineeInfo) (t : TraineeInfo)
      → filter bears available ≡ t ∷ []
      → (normalize t.name ≡ wanted)
        × Stands available t (λ u. normalize u.name ≢ wanted) (λ u. normalize u.name ≢ wanted)
  only_one [] t h = cc
  only_one (u ∷ available) t h = elim (Bool-cases (bears u)) [
    | inl e ↦
        let h' : u ∷ filter bears available ≡ t ∷ [] = rw e at h in
        let it : u ≡ t = cc in
        let none_left : filter bears available ≡ [] = cc in
        subst
          (λ x.
            (normalize x.name ≡ wanted)
            × Stands (u ∷ available) x (λ u. normalize u.name ≢ wanted)
                (λ u. normalize u.name ≢ wanted))
          it ((eq_iff (normalize u.name) wanted).0 e, first u (nobody available none_left))
    | inr e ↦
        let (same, stands) = only_one available t (rw e at h) in
        (same, further u (differ (normalize u.name) wanted e) stands)
  ]

found_names-one : (us : List TraineeInfo) (t : TraineeInfo) → found_names us ≡ one t → us ≡ t ∷ []
unfolding found_names
found_names-one [] t h = cc
found_names-one (u ∷ []) t h = cc
found_names-one (u ∷ v ∷ us) t h = cc

found_id-one : (o : Option TraineeInfo) (t : TraineeInfo) → found_id o ≡ one t → o ≡ some t
unfolding found_id
found_id-one none t h = cc
found_id-one (some u) t h = cc

-- Whoever an entry is resolved to, it names.
pub find-Names :
    (normalize : String → String) (available : List TraineeInfo) (entry : TraineeRef)
    → (t : TraineeInfo) → find normalize available entry ≡ one t
    → Names normalize available entry.id entry.name t
unfolding find find_by
find-Names normalize available entry t e = by_id entry.id entry.name e
  where
    by_id :
        (id name : Option String)
        → find_by normalize available id name ≡ one t
        → Names normalize available id name t
    by_id (some id) name e = lookup_id-Stands id available t (found_id-one _ t e)
    by_id none name e =
        only_one normalize (normalize (unwrap_or name "")) available t (found_names-one _ t e)
