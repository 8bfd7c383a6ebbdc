-- ===== src/Evaluate/Deltas.antt =====
-- Counter deltas and side facts of internal/evaluate/facts.go.
use cablecheck.Base.{
  ℕ, ◌-◌, ◌≡◌, refl, Bool, false, not, ◌&&◌, Option, none, some, List, [], ◌∷◌, any, leb, arith,
  Option-cases, inl, inr, is_empty, if◌then◌else◌,
}
use cablecheck.Base.Text.{String, eq_iff}
use cablecheck.Model.Report.{CounterSnapshot}
use cablecheck.Evaluate.Counters.{
  CounterDelta, CounterDeltaSet, counter_of, counter_delta, delta_keys, is_present, has_new_key,
  delta_set, sum_from, sum, frames_received, unclassified_rx_errors, side_facts,
}

-- What moved between two values of a counter: the difference, or an unreliable 0 where it went back;
-- nothing where either value is missing.
abbrev pub delta_of : Option ℕ → Option ℕ → Option CounterDelta
delta_of (some b) (some a) = some (record { delta = if leb b a then a - b else 0; ok = leb b a })
delta_of _ _ = none

counter_delta_lem :
    (b a : ℕ) → counter_delta b a ≡ record { delta = if leb b a then a - b else 0; ok = leb b a }
unfolding counter_delta
counter_delta_lem b a = ground arith

counter_of-delta_keys :
    (before after : List (String × ℕ)) (name : String)
    → counter_of (delta_keys before after).0 name ≡ (elim (counter_of after name) [
      | none ↦ none
      | some a ↦ delta_of (counter_of before name) (some a)
    ])
unfolding delta_keys counter_of
counter_of-delta_keys [] after name = ground arith
counter_of-delta_keys ((key, b) ∷ before) after name = elim (Option-cases (counter_of after key)) [
  | inl e ↦ ground (arith, counter_of-delta_keys before after name, eq_iff name key)
  | inr (a, e) ↦
      ground
        (arith, counter_delta_lem b a, counter_of-delta_keys before after name, eq_iff name key)
]

-- The counter is still there, and has not gone back.
abbrev pub grows : List (String × ℕ) → String × ℕ → Bool
grows after (key, b) = elim (counter_of after key) [ none ↦ false | some a ↦ leb b a ]

delta_keys-ok :
    (before after : List (String × ℕ))
    → (delta_keys before after).1 ≡ not (any (λ e. not (grows after e)) before)
unfolding delta_keys counter_delta
delta_keys-ok [] after = refl
delta_keys-ok ((key, b) ∷ before) after = ground (arith, delta_keys-ok before after)

has_new_key-any :
    (before after : List (String × ℕ))
    → has_new_key before after ≡ any (λ e. not (is_present (counter_of before e.0))) after
unfolding has_new_key
has_new_key-any before [] = refl
has_new_key-any before ((key, a) ∷ after) = ground (arith, has_new_key-any before after)

-- The difference of two snapshots holds a counter exactly where both have it: with the second value
-- less the first, marked reliable, where it has not gone back, and with 0, marked unreliable, where it
-- has. The whole is reliable exactly when each counter of the first is in the second with no
-- smaller value, and the second has no other counter.
pub delta_set_lem :
    (b a : CounterSnapshot) (name : String)
    → (counter_of (delta_set (some b) (some a)).0 name
        ≡ delta_of (counter_of b.standard name) (counter_of a.standard name))
      × ((delta_set (some b) (some a)).1 ≡ (
          not (any (λ e. not (grows a.standard e)) b.standard)
          && not (any (λ e. not (is_present (counter_of b.standard e.0))) a.standard)))
unfolding delta_set
delta_set_lem b a name = (
  ground (arith, counter_of-delta_keys b.standard a.standard name),
  ground (arith, delta_keys-ok b.standard a.standard, has_new_key-any b.standard a.standard),
)

-- Each counter that is there is reliable and has not moved.
abbrev IsStill : CounterDeltaSet → Type 0
IsStill set = (name : String) (d : CounterDelta) → counter_of set name ≡ some d → d.delta ≡ 0

same_counter : (n : ℕ) → (counter_delta n n).delta ≡ 0
unfolding counter_delta
same_counter n = ground arith

delta_set-IsStill : (s : CounterSnapshot) → IsStill (delta_set (some s) (some s)).0
delta_set-IsStill s name d h = elim (Option-cases (counter_of s.standard name)) [
  | inl e ↦ ground (arith, (delta_set_lem s s name).0)
  | inr (n, e) ↦ ground (arith, (delta_set_lem s s name).0, same_counter n)
]

sum_from-still :
    (set : CounterDeltaSet) (keys : List String) → IsStill set → sum_from 0 set keys ≡ 0
unfolding sum_from
sum_from-still set [] h = refl
sum_from-still set (k ∷ keys) h = elim (Option-cases (counter_of set k)) [
  | inl e ↦ rw e (sum_from-still set keys h)
  | inr (d, e) ↦ ground (arith, h k d e, sum_from-still set keys h)
]

sum-still :
    (s : CounterSnapshot) (keys : List String) → sum (delta_set (some s) (some s)).0 keys ≡ 0
sum-still s keys = sum_from-still (delta_set (some s) (some s)).0 keys (delta_set-IsStill s)

none_left : (n : ℕ) → (if leb 0 n then 0 else 0 - n) ≡ 0
none_left n = ground arith

-- Two equal snapshots give a side no errors, no carrier events, no drops and no frames, whatever
-- carrier events of its own the run is charged with.
pub side_facts-still :
    (s : CounterSnapshot) (own : ℕ)
    → let side = side_facts (some s) (some s) own in
      (side.crc_class_errors ≡ 0)
      × (side.unclassified_rx_errors ≡ 0)
      × (side.carrier_events ≡ 0)
      × (side.jabber_size_errors ≡ 0)
      × (side.fifo_overrun ≡ 0)
      × (side.missed_errors ≡ 0)
      × (side.carrier_phy_errors ≡ 0)
      × (side.frames_received ≡ 0)
unfolding side_facts unclassified_rx_errors frames_received
side_facts-still s own = (
  sum-still s _,
  rw (sum-still s ("rx_errors_total" ∷ [])) (none_left _),
  rw (sum-still s ("link_resets" ∷ [])) (none_left own),
  sum-still s _,
  sum-still s _,
  sum-still s _,
  sum-still s _,
  ground (arith, same_counter s.rx_packets),
)

-- The deltas of a side are reliable exactly when it was captured twice with at least one counter
-- each, each counter of the first capture is in the second with no smaller value, and the second has
-- no other counter.
pub side_facts-delta_ok :
    (b a : CounterSnapshot) (own : ℕ)
    → (side_facts (some b) (some a) own).delta_ok ≡ (
        not (any (λ e. not (grows a.standard e)) b.standard)
        && (not (any (λ e. not (is_present (counter_of b.standard e.0))) a.standard)
            && (not (is_empty b.standard) && not (is_empty a.standard))))
unfolding side_facts
side_facts-delta_ok b a own = ground (arith, (delta_set_lem b a "").1)
