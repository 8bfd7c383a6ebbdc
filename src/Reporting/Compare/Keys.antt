-- ===== src/Reporting/Compare/Keys.antt =====
-- internal/reporting/compare.go: udpMetricKeys. The sorted set of the keys is built direction by direction.
use cablecheck.Base.{
  ℕ, ◌≡◌, refl, sym, Bool, true, false, List, [], ◌∷◌, ◌++◌, map, ltb, ◌==◌, if◌then◌else◌, arith,
}
use cablecheck.Base.Text.{String, str_eq}
use cablecheck.Model.Report.{UdpResult, direction_pc1_to_pc2, direction_pc2_to_pc1}
use cablecheck.Reporting.Compare.{UdpMetricKey}

-- A rate put into a sorted list without repetition.
unfoldable pub insert_rate : ℕ → List ℕ → List ℕ
insert_rate n [] = n ∷ []
insert_rate n (m ∷ ms) =
    let rest = insert_rate n ms in
    if n == m then m ∷ ms else if ltb n m then n ∷ m ∷ ms else m ∷ rest

module _ {F : Type 0} where
  -- The target rates of a direction, put into a list.
  unfoldable pub add_rates : String → List (UdpResult F) → List ℕ → List ℕ
  add_rates direction [] rates = rates
  add_rates direction (u ∷ us) rates =
      if str_eq u.direction direction
      then insert_rate u.target_bps (add_rates direction us rates)
      else add_rates direction us rates

  abbrev pub keys_of : String → List (UdpResult F) → List (UdpResult F) → List UdpMetricKey
  keys_of direction a b =
      map (λ rate. record { direction = direction; target_bps = rate })
        (add_rates direction a (add_rates direction b []))

  unfoldable pub udp_metric_keys : List (UdpResult F) → List (UdpResult F) → List UdpMetricKey
  udp_metric_keys a b = keys_of direction_pc1_to_pc2 a b ++ keys_of direction_pc2_to_pc1 a b

insert_rate_comm :
    (m n : ℕ) (xs : List ℕ) → insert_rate m (insert_rate n xs) ≡ insert_rate n (insert_rate m xs)
unfolding insert_rate
insert_rate_comm m n [] = ground arith
insert_rate_comm m n (x ∷ xs) = let rest = insert_rate_comm m n xs in ground arith

if-insert_rate :
    (test : Bool) (m n : ℕ) (rates : List ℕ)
    → (if test then insert_rate m (insert_rate n rates) else insert_rate n rates)
      ≡ insert_rate n (if test then insert_rate m rates else rates)
if-insert_rate true m n rates = insert_rate_comm m n rates
if-insert_rate false m n rates = refl

module _ {F : Type 0} where
  add_rates-insert_rate :
      (direction : String) (us : List (UdpResult F)) (n : ℕ) (rates : List ℕ)
      → add_rates direction us (insert_rate n rates) ≡ insert_rate n (add_rates direction us rates)
  unfolding add_rates
  add_rates-insert_rate direction [] n rates = refl
  add_rates-insert_rate direction (u ∷ us) n rates =
      let rest = add_rates-insert_rate direction us n rates in
      rw rest (
        if-insert_rate (str_eq u.direction direction) u.target_bps n (add_rates direction us rates))

  if-add_rates :
      (test : Bool) (direction : String) (vs : List (UdpResult F)) (n : ℕ) (rates : List ℕ)
      → (if test
          then insert_rate n (add_rates direction vs rates)
          else add_rates direction vs rates)
        ≡ add_rates direction vs (if test then insert_rate n rates else rates)
  if-add_rates true direction vs n rates = sym (add_rates-insert_rate direction vs n rates)
  if-add_rates false direction vs n rates = refl

  add_rates_comm :
      (direction : String) (us vs : List (UdpResult F)) (rates : List ℕ)
      → add_rates direction us (add_rates direction vs rates)
        ≡ add_rates direction vs (add_rates direction us rates)
  unfolding add_rates
  add_rates_comm direction [] vs rates = refl
  add_rates_comm direction (u ∷ us) vs rates = rw (add_rates_comm direction us vs rates) (
      if-add_rates (str_eq u.direction direction) direction vs u.target_bps
        (add_rates direction us rates))

  pub udp_metric_keys_comm : (a b : List (UdpResult F)) → udp_metric_keys a b ≡ udp_metric_keys b a
  unfolding udp_metric_keys
  udp_metric_keys_comm a b =
      rw (add_rates_comm direction_pc1_to_pc2 a b [], add_rates_comm direction_pc2_to_pc1 a b [])
        refl
