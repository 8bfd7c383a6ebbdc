-- ===== src/Protocol/Dedup.antt =====
-- internal/protocol/envelope.go: the duplicate detector of the receive path. The mutex is not
-- modelled: each call is one step. The texts of the refusals are left out, their cause is kept.
pub mod Laws
pub mod Ring
use cablecheck.Base.{
  ℕ, ◌+◌, ◌%◌, ◌≡◌, Bool, true, false, not, ◌&&◌, Option, none, some, List, [], ◌∷◌, any, set,
  replicate, leb, if◌then◌else◌,
}
use cablecheck.Base.Text.{String, str_eq}
use cablecheck.Protocol.MessageId.{split_message_id}

abbrev pub dedup_ring_size : ℕ
dedup_ring_size = 128

-- The map from roles to the largest sequence number seen; a role has one entry.
unfoldable pub last_seq : List (String × ℕ) → String → Option ℕ
last_seq [] role = none
last_seq ((other, last) ∷ entries) role =
    if str_eq role other then some last else last_seq entries role

unfoldable pub track : List (String × ℕ) → String → ℕ → List (String × ℕ)
track [] role seq = (role, seq) ∷ []
track ((other, last) ∷ entries) role seq =
    if str_eq role other then (role, seq) ∷ entries else (other, last) ∷ track entries role seq

pub record DuplicateDetector : Type 0 where
  pub ring : List String
  pub next : ℕ
  pub max_seq : List (String × ℕ)

abbrev pub new_duplicate_detector : DuplicateDetector
new_duplicate_detector = record { ring = replicate dedup_ring_size ""; next = 0; max_seq = [] }

-- The answer of `Observe`, with the reason of a refusal.
pub data Answer : Type 0 where
  fresh duplicate : Answer
  -- the sequence number, and the last one
  non_increasing : ℕ → ℕ → Answer

abbrev pub is_fresh : Answer → Bool
is_fresh fresh = true
is_fresh _ = false

-- The identifier stands in the ring.
unfoldable pub seen_in : String → List String → Bool
seen_in id ring = any (λ seen. str_eq seen id && not (str_eq seen "")) ring

-- The end of `Observe`: the identifier goes into the ring.
unfoldable pub remember : DuplicateDetector → String → DuplicateDetector
remember d id = record d { ring = set d.ring d.next id; next = (d.next + 1) % dedup_ring_size }

-- `Observe` behind the search of the ring, on the parsed identifier.
unfoldable pub observe_seq :
    DuplicateDetector → String → Option (String × ℕ) → DuplicateDetector × Answer
unfolding remember
observe_seq d id none = (remember d id, fresh)
observe_seq d id (some (role, seq)) =
    let accept = remember (record d { max_seq = track d.max_seq role seq }) id in
    elim (last_seq d.max_seq role) [
      | none ↦ (accept, fresh)
      | some last ↦ if leb seq last then (d, non_increasing seq last) else (accept, fresh)
    ]

unfoldable pub observe : DuplicateDetector → String → DuplicateDetector × Answer
unfolding observe_seq
observe d id = if seen_in id d.ring then (d, duplicate) else observe_seq d id (split_message_id id)

-- The frames of a connection, one after another.
unfoldable pub observe_all : DuplicateDetector → List String → DuplicateDetector
observe_all d [] = d
observe_all d (id ∷ ids) = observe_all (observe d id).0 ids
