-- ===== src/Engine/Roster.antt =====
-- rust/src/engine.rs: the key under which a trainee is queued, and a roster without repeats.
pub mod Unique
use dssp_bot.Prelude.{
  ℕ, ◌+◌, String, Bool, false, Option, none, some, List, [], ◌∷◌, any, or_else, unwrap_or, str_eq,
  ◌==◌, format, decimal, if◌then◌else◌,
}
use dssp_bot.Protocol.{TraineeRef}

unfoldable pub queue_key : TraineeRef → ℕ → String
queue_key trainee index =
    unwrap_or (or_else trainee.id trainee.name) (format ("#" ∷ decimal index ∷ []))

pub data QueueKey : Type 0 where
  id name : String → QueueKey
  position : ℕ → QueueKey

namespace_of : Option String → Option String → ℕ → QueueKey
namespace_of (some i) _ index = QueueKey.id i
namespace_of none (some n) index = QueueKey.name n
namespace_of none none index = position index

unfoldable pub key_namespace : TraineeRef → ℕ → QueueKey
unfolding namespace_of
key_namespace trainee index = namespace_of trainee.id trainee.name index

-- The derived `PartialEq`.
unfoldable pub key_eq : QueueKey → QueueKey → Bool
key_eq (QueueKey.id a) (QueueKey.id b) = str_eq a b
key_eq (QueueKey.name a) (QueueKey.name b) = str_eq a b
key_eq (position a) (position b) = a == b
key_eq _ _ = false

-- `seen` is the `HashSet`; the line printed for a repeat is not modelled.
unfoldable pub dedupe_from : ℕ → List QueueKey → List TraineeRef → List (String × TraineeRef)
dedupe_from i seen [] = []
dedupe_from i seen (trainee ∷ rest) =
    let key = key_namespace trainee i in
    let repeat = dedupe_from (i + 1) seen rest in
    let fresh = (queue_key trainee i, trainee) ∷ dedupe_from (i + 1) (key ∷ seen) rest in
    if any (λ k. key_eq k key) seen then repeat else fresh

unfoldable pub dedupe : List TraineeRef → List (String × TraineeRef)
unfolding dedupe_from
dedupe trainees = dedupe_from 0 [] trainees
