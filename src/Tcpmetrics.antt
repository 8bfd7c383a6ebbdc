-- ===== src/Tcpmetrics.antt =====
-- internal/tcpmetrics/collapse.go: the collapsed intervals of a TCP trial, grouped.
use cablecheck.Base.{
  ℕ, zero, suc, ◌-◌, ◌/◌, ◌%◌, Bool, false, not, ◌&&◌, ◌||◌, List, [], ◌∷◌, ◌++◌, any, map, length,
  ◌==◌, if◌then◌else◌,
}
use cablecheck.Base.Int.{pos, add_int}
use cablecheck.Float64.{Float64, of_ℕ}
use cablecheck.Model.Report.{TcpCollapseEvent}

pub record Sample (F : Type 0) : Type 0 where
  pub start_sec : F
  pub bits_per_second : F

module _ {F : Type 0} ⦃fl : Float64 F⦄ where
  abbrev pub is_nan : F → Bool
  is_nan x = not (fl.eq x x)

  -- The order of slices.Sort: NaN first.
  abbrev pub float_less : F → F → Bool
  float_less x y = (is_nan x && not (is_nan y)) || fl.lt x y

  unfoldable pub insert_float : F → List F → List F
  insert_float x [] = x ∷ []
  insert_float x (y ∷ ys) = if float_less y x then y ∷ insert_float x ys else x ∷ y ∷ ys

  -- slices.Sort on float64.
  unfoldable pub sort_floats : List F → List F
  sort_floats [] = []
  sort_floats (x ∷ xs) = insert_float x (sort_floats xs)

  -- Indexing; in the source the index is always in range.
  abbrev pub nth : List F → ℕ → F
  nth [] i = of_ℕ 0
  nth (x ∷ xs) zero = x
  nth (x ∷ xs) (suc i) = nth xs i

  -- The median of sorted rates, at least one.
  unfoldable pub median_of : List F → F
  median_of rates =
      let middle = nth rates (length rates / 2) in
      if length rates % 2 == 0
      then (let lower = nth rates (length rates / 2 - 1) in
          fl.add lower (fl.div (fl.sub middle lower) (of_ℕ 2)))
      else middle

  -- Without the first row, where there are two.
  abbrev pub without_first : List (Sample F) → List (Sample F)
  without_first (_ ∷ x ∷ rows) = x ∷ rows
  without_first rows = rows

  abbrev pub is_bad_rate : Sample F → Bool
  is_bad_rate row =
      fl.lt row.bits_per_second (of_ℕ 0)
      || (is_nan row.bits_per_second || fl.is_inf row.bits_per_second)

  -- One more row in an event.
  abbrev pub extend : Sample F → TcpCollapseEvent F → TcpCollapseEvent F
  extend row e = record {
    start_sec = e.start_sec;
    len = add_int e.len (pos 1);
    min_bps = fl.fmin e.min_bps row.bits_per_second;
  }

  abbrev pub update_last :
      (TcpCollapseEvent F → TcpCollapseEvent F)
      → List (TcpCollapseEvent F)
      → List (TcpCollapseEvent F)
  update_last g [] = []
  update_last g (e ∷ []) = g e ∷ []
  update_last g (e ∷ d ∷ events) = e ∷ update_last g (d ∷ events)

  abbrev pub opened : Sample F → TcpCollapseEvent F
  opened row = record { start_sec = row.start_sec; len = pos 0; min_bps = row.bits_per_second }

  -- The grouping loop. The index `active` is -1, or that of the last event: `active` says which.
  unfoldable pub group_rows :
      F → Bool → List (TcpCollapseEvent F) → List (Sample F) → List (TcpCollapseEvent F)
  group_rows threshold active events [] = events
  group_rows threshold active events (row ∷ rows) =
      let is_fine = fl.le threshold row.bits_per_second in
      group_rows threshold (not is_fine)
        (if is_fine
          then events
          else update_last (extend row) (if active then events else events ++ opened row ∷ []))
        rows

  unfoldable pub collapse_events : List (Sample F) → List (TcpCollapseEvent F)
  collapse_events rows =
      let set = without_first rows in
      if length set == 0
      then []
      else if any is_bad_rate set
      then []
      else (let median = median_of (sort_floats (map (λ row. row.bits_per_second) set)) in
          if fl.le median (of_ℕ 0)
          then []
          else group_rows (fl.mul (fl.of_ratio 1 2) median) false [] set)
