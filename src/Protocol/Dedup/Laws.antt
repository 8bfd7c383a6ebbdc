-- ===== src/Protocol/Dedup/Laws.antt =====
-- The sequence numbers of the duplicate detector of internal/protocol/envelope.go.
use cablecheck.Base.{
  ℕ, ◌+◌, ◌%◌, ◌≤◌, ◌≡◌, refl, Bool, true, false, Option, none, some, List, [], ◌∷◌, set, leb,
  arith, Bool-cases, inl, inr, if◌then◌else◌,
}
use cablecheck.Base.Text.{String, str_eq, eq_iff, eq_refl}
use cablecheck.Protocol.MessageId.{split_message_id}
use cablecheck.Protocol.Dedup.{
  last_seq, track, DuplicateDetector, fresh, is_fresh, seen_in, remember, observe_seq, observe,
  observe_all,
}

last_seq-track :
    (entries : List (String × ℕ)) (role asked : String) (seq : ℕ)
    → last_seq (track entries role seq) asked
      ≡ (if str_eq role asked then some seq else last_seq entries asked)
unfolding last_seq track
last_seq-track [] role asked seq = ground (arith, eq_iff role asked, eq_iff asked role)
last_seq-track ((other, last) ∷ entries) role asked seq = ground (
  arith,
  last_seq-track entries role asked seq,
  eq_iff role asked,
  eq_iff role other,
  eq_iff asked role,
  eq_iff asked other,
)

-- The largest number seen of the role is at least n.
abbrev pub saw : String → ℕ → DuplicateDetector → Bool
saw role n d = elim (last_seq d.max_seq role) [ none ↦ false | some last ↦ leb n last ]

remember_lem :
    (d : DuplicateDetector) (id : String)
    → ((remember d id).max_seq ≡ d.max_seq)
      × ((remember d id).ring ≡ set d.ring d.next id)
      × ((remember d id).next ≡ (d.next + 1) % 128)
unfolding remember
remember_lem d id = (refl, refl, refl)

observe_seq-saw :
    (role : String) (n : ℕ) (d : DuplicateDetector) (id : String) (o : Option (String × ℕ))
    → saw role n d ≡ true
    → saw role n (observe_seq d id o).0 ≡ true
unfolding observe_seq
observe_seq-saw role n d id none h = h
observe_seq-saw role n d id (some (r, k)) h =
    ground (arith, last_seq-track d.max_seq r role k, eq_iff r role)

-- What was seen stays seen.
observe-saw :
    (role : String) (n : ℕ) (d : DuplicateDetector) (id : String)
    → saw role n d ≡ true
    → saw role n (observe d id).0 ≡ true
unfolding observe
observe-saw role n d id h = elim (Bool-cases (seen_in id d.ring)) [
  | inl e ↦ rw e h
  | inr e ↦ rw e (observe_seq-saw role n d id (split_message_id id) h)
]

observe_all-saw :
    (role : String) (n : ℕ) (d : DuplicateDetector) (ids : List String)
    → saw role n d ≡ true
    → saw role n (observe_all d ids) ≡ true
unfolding observe_all
observe_all-saw role n d [] h = h
observe_all-saw role n d (id ∷ ids) h =
    observe_all-saw role n (observe d id).0 ids (observe-saw role n d id h)

observe_seq-fresh :
    (d : DuplicateDetector) (id role : String) (n : ℕ)
    → (observe_seq d id (some (role, n))).1 ≡ fresh
    → saw role n (observe_seq d id (some (role, n))).0 ≡ true
unfolding observe_seq
observe_seq-fresh d id role n h = ground (arith, last_seq-track d.max_seq role role n, eq_refl role)

-- An accepted identifier's number was seen.
observe-fresh :
    (d : DuplicateDetector) (id role : String) (n : ℕ)
    → split_message_id id ≡ some (role, n)
    → (observe d id).1 ≡ fresh
    → saw role n (observe d id).0 ≡ true
unfolding observe
observe-fresh d id role n p h = elim (Bool-cases (seen_in id d.ring)) [
  | inl e ↦ (let refused = rw (e, observe) at h in cc)
  | inr e ↦ rw (e, p) (observe_seq-fresh d id role n (rw (e, p) at h))
]

observe_seq-stale :
    (d : DuplicateDetector) (id role : String) (k n : ℕ)
    → k ≤ n
    → saw role n d ≡ true
    → ((observe_seq d id (some (role, k))).0 ≡ d)
      × (is_fresh (observe_seq d id (some (role, k))).1 ≡ false)
unfolding observe_seq
observe_seq-stale d id role k n l h = ground arith

observe-stale :
    (d : DuplicateDetector) (id role : String) (k n : ℕ)
    → split_message_id id ≡ some (role, k)
    → k ≤ n
    → saw role n d ≡ true
    → ((observe d id).0 ≡ d) × (is_fresh (observe d id).1 ≡ false)
unfolding observe
observe-stale d id role k n p l h = elim (Bool-cases (seen_in id d.ring)) [
  | inl e ↦ rw e (refl, refl)
  | inr e ↦ rw (e, p) (observe_seq-stale d id role k n l h)
]

-- Once an identifier with a role and a number was accepted, then whatever frames come after it, an
-- identifier of that role with that number or a smaller one is refused, and the refusal changes
-- nothing.
pub observe_all-stale :
    (d : DuplicateDetector) (id old role : String) (ids : List String) (n k : ℕ)
    → split_message_id id ≡ some (role, n)
    → (observe d id).1 ≡ fresh
    → split_message_id old ≡ some (role, k)
    → k ≤ n
    → let d' = observe_all (observe d id).0 ids in
      ((observe d' old).0 ≡ d') × (is_fresh (observe d' old).1 ≡ false)
observe_all-stale d id old role ids n k p h q l =
    observe-stale (observe_all (observe d id).0 ids) old role k n q l
      (observe_all-saw role n (observe d id).0 ids (observe-fresh d id role n p h))
