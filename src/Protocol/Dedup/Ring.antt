-- ===== src/Protocol/Dedup/Ring.antt =====
-- The ring of the duplicate detector of internal/protocol/envelope.go.
use cablecheck.Base.{
  ℕ, ◌+◌, ◌-◌, ◌%◌, ◌≤◌, ◌<◌, ◌≡◌, ◌≢◌, ◌⊎◌, inl, inr, false, not, ◌&&◌, some, List, [], ◌∷◌, set,
  get_elem?, length, length-set, length-replicate, get_elem?-set_self, get_elem?-set_ne,
  any-get_elem?, arith, ◌∙◌,
}
use cablecheck.Base.Text.{String, str_eq, eq_refl}
use cablecheck.Protocol.Dedup.{
  DuplicateDetector, new_duplicate_detector, fresh, duplicate, seen_in, observe, observe_all,
}

-- The ring has its size and the next slot is in it.
pub record IsWellFormed (d : DuplicateDetector) : Type 0 where
  pub full_ring : length d.ring ≡ 128
  pub next_in_ring : d.next < 128

-- An answer writes the identifier to the next slot, or leaves the ring alone.
abbrev RingStep : DuplicateDetector → DuplicateDetector → String → Type 0
RingStep d e id =
    ((e.ring ≡ d.ring) × (e.next ≡ d.next))
    ⊎ ((e.ring ≡ set d.ring d.next id) × (e.next ≡ (d.next + 1) % 128))

observe-RingStep : (d : DuplicateDetector) (id : String) → RingStep d (observe d id).0 id
unfolding observe
observe-RingStep d id = ground arith

observe-IsWellFormed :
    (d : DuplicateDetector) (id : String) → IsWellFormed d → IsWellFormed (observe d id).0
observe-IsWellFormed d id w = ground (arith, observe-RingStep d id, length-set d.ring d.next id)

observe_all-IsWellFormed :
    (d : DuplicateDetector) (ids : List String) → IsWellFormed d → IsWellFormed (observe_all d ids)
unfolding observe_all
observe_all-IsWellFormed d [] w = w
observe_all-IsWellFormed d (id ∷ ids) w =
    observe_all-IsWellFormed (observe d id).0 ids (observe-IsWellFormed d id w)

-- How many slots were written after slot p.
abbrev age : ℕ → DuplicateDetector → ℕ
age p d = (d.next + 127 - p) % 128

-- The identifier stands in slot p, which is not written in the next rounds.
record IsHeld (p rounds : ℕ) (id : String) (d : DuplicateDetector) : Type 0 where
  well_formed : IsWellFormed d
  slot : p < 128
  held : get_elem? d.ring p ≡ some id
  young : age p d + rounds < 128

next-ne :
    (p rounds : ℕ) (d : DuplicateDetector)
    → p < 128
    → d.next < 128
    → age p d + (rounds + 1) < 128
    → d.next ≢ p
next-ne p rounds d h k y e = omega arith

observe-held :
    (p rounds : ℕ) (id other : String) (d : DuplicateDetector)
    → IsHeld p (rounds + 1) id d
    → get_elem? (observe d other).0.ring p ≡ some id
observe-held p rounds id other d h = elim (observe-RingStep d other) [
  | inl (r, n) ↦ rw r h.held
  | inr (r, n) ↦ rw r (
      get_elem?-set_ne d.ring d.next p other
        (next-ne p rounds d h.slot h.well_formed.next_in_ring h.young)
      ∙ h.held)
]

observe-young :
    (p rounds : ℕ) (id other : String) (d : DuplicateDetector)
    → IsHeld p (rounds + 1) id d
    → age p (observe d other).0 + rounds < 128
observe-young p rounds id other d h = elim (observe-RingStep d other) [
  | inl (r, n) ↦ rw n (omega (arith, h.young))
  | inr (r, n) ↦ rw n (omega (arith, h.young, h.slot, h.well_formed.next_in_ring))
]

observe-IsHeld :
    (p rounds : ℕ) (id other : String) (d : DuplicateDetector)
    → IsHeld p (rounds + 1) id d
    → IsHeld p rounds id (observe d other).0
observe-IsHeld p rounds id other d h = record {
  well_formed = observe-IsWellFormed d other h.well_formed;
  slot = h.slot;
  held = observe-held p rounds id other d h;
  young = observe-young p rounds id other d h;
}

observe_all-IsHeld :
    (p rounds : ℕ) (id : String) (ids : List String) (d : DuplicateDetector)
    → IsHeld p (length ids + rounds) id d
    → IsHeld p rounds id (observe_all d ids)
unfolding observe_all
observe_all-IsHeld p rounds id [] d h = record {
  well_formed = h.well_formed;
  slot = h.slot;
  held = h.held;
  young = omega (arith, h.young);
}
observe_all-IsHeld p rounds id (other ∷ ids) d h =
    observe_all-IsHeld p rounds id ids (observe d other).0 (
      observe-IsHeld p (length ids + rounds) id other d (record {
        well_formed = h.well_formed;
        slot = h.slot;
        held = h.held;
        young = omega (arith, h.young);
      }))

observe-fresh_writes :
    (d : DuplicateDetector) (id : String)
    → (observe d id).1 ≡ fresh
    → ((observe d id).0.ring ≡ set d.ring d.next id) × ((observe d id).0.next ≡ (d.next + 1) % 128)
unfolding observe
observe-fresh_writes d id h = ground arith

-- An accepted identifier stands in the slot that was next.
fresh-IsHeld :
    (d : DuplicateDetector) (id : String)
    → IsWellFormed d
    → (observe d id).1 ≡ fresh
    → IsHeld d.next 127 id (observe d id).0
fresh-IsHeld d id w h =
    let (r, n) = observe-fresh_writes d id h in
    record {
      well_formed = observe-IsWellFormed d id w;
      slot = w.next_in_ring;
      held =
          rw r (get_elem?-set_self d.ring d.next id (omega (arith, w.full_ring, w.next_in_ring)));
      young = rw n (omega (arith, w.next_in_ring));
    }

IsHeld-duplicate :
    (p : ℕ) (id : String) (d : DuplicateDetector)
    → str_eq id "" ≡ false
    → IsHeld p 0 id d
    → observe d id ≡ (d, duplicate)
unfolding observe seen_in
IsHeld-duplicate p id d n h = rw (
    any-get_elem? (λ s. str_eq s id && not (str_eq s "")) d.ring p id h.held
      (ground (arith, eq_refl id)))

new-IsWellFormed : IsWellFormed new_duplicate_detector
new-IsWellFormed = record {
  full_ring = length-replicate {A = String} 128 "";
  next_in_ring = omega arith;
}

-- On every connection: an identifier that is not empty and was accepted is refused as a duplicate,
-- with no change of state, as long as at most 127 frames came in between, whether or not it carries
-- a number.
pub observe_all-repeat :
    (before ids : List String) (id : String)
    → str_eq id "" ≡ false
    → (observe (observe_all new_duplicate_detector before) id).1 ≡ fresh
    → length ids ≤ 127
    → let d = observe_all (observe (observe_all new_duplicate_detector before) id).0 ids in
      observe d id ≡ (d, duplicate)
observe_all-repeat before ids id n h l =
    let d = observe_all new_duplicate_detector before in
    let w = observe_all-IsWellFormed new_duplicate_detector before new-IsWellFormed in
    let held = fresh-IsHeld d id w h in
    IsHeld-duplicate d.next id (observe_all (observe d id).0 ids) n (
      observe_all-IsHeld d.next 0 id ids (observe d id).0 (record {
        well_formed = held.well_formed;
        slot = held.slot;
        held = held.held;
        young = omega (arith, held.young);
      }))
