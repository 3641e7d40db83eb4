-- ===== src/Command/Asked.antt =====
-- rust/src/main.rs `resolve_against`: nobody is in the roster whom no entry names.
use mathlib.Core.List.{Memᴰ}
use dssp_bot.Prelude.{ℕ, ◌+◌, String, Bool, true, false, ◌≡◌, refl, List, [], ◌∷◌, All}
use dssp_bot.Protocol.{TraineeRef, TraineeInfo}
use dssp_bot.Command.Names.{Names, find-Names, ids_of, seen_in}
use dssp_bot.Command.{Found, one, unknown_id, unknown_name, shared, find, enlist, add, resolve_from}

module _ (normalize : String → String) (available : List TraineeInfo) where
  -- One of the entries names the trainee with this id.
  abbrev pub IsAsked : List TraineeRef → String → Type 0
  IsAsked entries id =
      (entry : TraineeRef) × Memᴰ entry entries
      × ((t : TraineeInfo) × Names normalize available entry.id entry.name t × (t.id ≡ id))

  IsAsked-later :
      (entry : TraineeRef) (entries : List TraineeRef) (ids : List String)
      → All (IsAsked entries) ids
      → All (IsAsked (entry ∷ entries)) ids
  IsAsked-later entry entries [] h = tt
  IsAsked-later entry entries (id ∷ ids) ((e, m, named), h) =
      ((e, Memᴰ.tail m, named), IsAsked-later entry entries ids h)

  enlist-asks :
      (P : String → Type 0) (t : TraineeInfo) (seen : List String)
      (rest : List String → List TraineeRef × List String) (b : Bool)
      → P t.id
      → ((seen' : List String) → All P (ids_of (rest seen').0))
      → All P (ids_of (enlist normalize available t seen rest b).0)
  unfolding enlist
  enlist-asks P t seen rest true p h = h seen
  enlist-asks P t seen rest false p h = (p, h (t.id ∷ seen))

  add-asks :
      (P : String → Type 0) (label : String) (seen : List String)
      (rest : List String → List TraineeRef × List String) (found : Found)
      → ((t : TraineeInfo) → found ≡ one t → P t.id)
      → ((seen' : List String) → All P (ids_of (rest seen').0))
      → All P (ids_of (add normalize available label seen rest found).0)
  unfolding add
  add-asks P label seen rest (one t) p h =
      enlist-asks P t seen rest (seen_in seen t.id) (p t refl) h
  add-asks P label seen rest unknown_id p h = h seen
  add-asks P label seen rest unknown_name p h = h seen
  add-asks P label seen rest (shared n) p h = h seen

  pub resolve_from-asks :
      (i : ℕ) (entries : List TraineeRef) (seen : List String)
      → All (IsAsked entries) (ids_of (resolve_from normalize available i entries seen).0)
  unfolding resolve_from
  resolve_from-asks i [] seen = tt
  resolve_from-asks i (entry ∷ entries) seen =
      add-asks (IsAsked (entry ∷ entries)) _ seen _ (find normalize available entry)
        (λ t e. (entry, Memᴰ.head refl, (t, find-Names normalize available entry t e, refl)))
        (λ seen'. IsAsked-later entry entries _ (resolve_from-asks (i + 1) entries seen'))
