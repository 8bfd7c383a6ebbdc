-- ===== src/Evaluate/Counters.antt =====
-- internal/evaluate/facts.go: counter deltas and the facts of one side. A Go map is a list of
-- entries, one for each key; a nil snapshot is `none`. Of a snapshot the model has the standard
-- counters and the received packets of its interface statistics.
use cablecheck.Base.{
  ℕ, ◌-◌, Bool, true, false, not, ◌&&◌, Option, none, some, List, [], ◌∷◌, any, is_empty, ltb, leb,
  if◌then◌else◌,
}
use cablecheck.Base.Int.{add_u64}
use cablecheck.Base.Text.{String, str_eq}
use cablecheck.Model.Report.{CounterSnapshot}
use cablecheck.Evaluate.Facts.{SideFacts}

pub record CounterDelta : Type 0 where
  pub delta : ℕ
  pub ok : Bool

abbrev pub CounterDeltaSet : Type 0
CounterDeltaSet = List (String × CounterDelta)

-- Indexing a map by a counter name.
unfoldable pub counter_of {ℓ} : {A : Type ℓ} → List (String × A) → String → Option A
counter_of [] name = none
counter_of ((key, value) ∷ entries) name =
    if str_eq name key then some value else counter_of entries name

unfoldable pub counter_delta : ℕ → ℕ → CounterDelta
counter_delta before after =
    if ltb after before
    then record { delta = 0; ok = false }
    else record { delta = after - before; ok = true }

-- The loop over the counters of the first snapshot.
unfoldable pub delta_keys : List (String × ℕ) → List (String × ℕ) → CounterDeltaSet × Bool
delta_keys [] after = ([], true)
delta_keys ((key, b) ∷ rest) after =
    let (set, ok) = delta_keys rest after in
    elim (counter_of after key) [
      | none ↦ (set, false)
      | some a ↦ ((key, counter_delta b a) ∷ set, (counter_delta b a).ok && ok)
    ]

abbrev pub is_present {ℓ} : {A : Type ℓ} → Option A → Bool
is_present none = false
is_present (some _) = true

-- The loop over the counters of the second snapshot.
unfoldable pub has_new_key : List (String × ℕ) → List (String × ℕ) → Bool
has_new_key before [] = false
has_new_key before ((key, _) ∷ rest) =
    let later = has_new_key before rest in
    if is_present (counter_of before key) then later else true

unfoldable pub delta_set : Option CounterSnapshot → Option CounterSnapshot → CounterDeltaSet × Bool
delta_set none after = ([], false)
delta_set (some b) none = ([], false)
delta_set (some b) (some a) =
    let (set, ok) = delta_keys b.standard a.standard in
    (set, ok && not (has_new_key b.standard a.standard))

-- The closure `sum`, from a running total.
unfoldable pub sum_from : ℕ → CounterDeltaSet → List String → ℕ
sum_from total set [] = total
sum_from total set (k ∷ keys) =
    sum_from
      (elim (counter_of set k) [
        | none ↦ total
        | some d ↦ if d.ok then add_u64 total d.delta else total
      ])
      set keys

abbrev pub sum : CounterDeltaSet → List String → ℕ
sum set keys = sum_from 0 set keys

-- The closure `present`.
abbrev pub present : CounterDeltaSet → List String → Bool
present set keys = any (λ k. is_present (counter_of set k)) keys

unfoldable pub frames_received : Option CounterSnapshot → Option CounterSnapshot → ℕ
frames_received none after = 0
frames_received (some b) none = 0
frames_received (some b) (some a) =
    let d = counter_delta b.rx_packets a.rx_packets in if d.ok then d.delta else 0

abbrev pub rx_error_evidence_keys : List String
rx_error_evidence_keys = "rx_crc" ∷ "rx_frame" ∷ "rx_align" ∷ "rx_symbol" ∷ "rx_errors_total" ∷ []

unfoldable pub unclassified_rx_errors : CounterDeltaSet → ℕ
unclassified_rx_errors set =
    let total = sum set ("rx_errors_total" ∷ []) in
    let explained = sum set (
      "rx_crc" ∷ "rx_frame" ∷ "rx_align" ∷ "rx_symbol" ∷ "rx_length" ∷ "undersize" ∷ "oversize"
      ∷ "jabber" ∷ []) in
    if leb total explained then 0 else total - explained

abbrev pub has_counters : Option CounterSnapshot → Bool
has_counters none = false
has_counters (some s) = not (is_empty s.standard)

unfoldable pub side_facts : Option CounterSnapshot → Option CounterSnapshot → ℕ → SideFacts
side_facts before after self_inflicted_carrier =
    let (set, ok) = delta_set before after in
    let baseline = has_counters before in
    let available = baseline && has_counters after in
    let carrier = sum set ("link_resets" ∷ []) in
    record {
      crc_class_errors = sum set ("rx_crc" ∷ "rx_frame" ∷ "rx_align" ∷ "rx_symbol" ∷ []);
      unclassified_rx_errors = unclassified_rx_errors set;
      rx_error_evidence = present set rx_error_evidence_keys;
      carrier_events =
          if leb carrier self_inflicted_carrier then 0 else carrier - self_inflicted_carrier;
      jabber_size_errors = sum set ("jabber" ∷ "oversize" ∷ "undersize" ∷ "rx_length" ∷ []);
      fifo_overrun = sum set ("rx_fifo" ∷ []);
      missed_errors = sum set ("rx_missed" ∷ []);
      frames_received = frames_received before after;
      carrier_phy_errors = sum set ("tx_carrier" ∷ "phy_errors" ∷ []);
      delta_ok = ok && available;
      counters_available = available;
      baseline_captured = baseline;
    }
