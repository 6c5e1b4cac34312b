-- ===== src/Traffic/Select.antt =====
-- selectTrafficBatch (api/v2board/traffic.go): the next batch of distinct users, and the rest.
pub mod Partition
use v2node_hy.Base.{
  ℤ, pos, ltb_ℤ, leb_ℤ, eqb_ℤ, Bool, true, false, ◌||◌, ◌==◌, if◌then◌else◌, List, [], ◌∷◌, ◌++◌,
  length, Option, none, some,
}
use v2node_hy.Traffic.{TrafficRow, max_traffic_rows}

pub record Selection : Type 0 where
  pub selected : List TrafficRow
  pub rest : List TrafficRow

-- r.UID <= 0 || r.Upload < 0 || r.Download < 0
abbrev pub is_invalid_row : TrafficRow → Bool
is_invalid_row r = leb_ℤ r.uid (pos 0) || ltb_ℤ r.upload (pos 0) || ltb_ℤ r.download (pos 0)

-- The map `seen`.
unfoldable pub seen : ℤ → List TrafficRow → Bool
seen uid [] = false
seen uid (r ∷ rs) = eqb_ℤ r.uid uid || seen uid rs

abbrev pub is_kept_back : TrafficRow → Selection → Bool
is_kept_back r acc = length acc.selected == max_traffic_rows || seen r.uid acc.selected

-- One row of the loop; both lists grow at their ends.
unfoldable pub place_row : TrafficRow → Selection → Selection
unfolding seen
place_row r acc =
    if is_kept_back r acc
    then record acc { rest = acc.rest ++ r ∷ [] }
    else record acc { selected = acc.selected ++ r ∷ [] }

-- The loop over the rows. `none` is the error.
unfoldable pub select_loop : List TrafficRow → Selection → Option Selection
unfolding place_row
select_loop [] acc = some acc
select_loop (r ∷ rows) acc =
    let next = select_loop rows (place_row r acc) in if is_invalid_row r then none else next

unfoldable pub select_traffic_batch : List TrafficRow → Option Selection
unfolding select_loop
select_traffic_batch rows = select_loop rows (record { selected = []; rest = [] })
