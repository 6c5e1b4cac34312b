-- ===== src/Traffic/Select/Partition.antt =====
-- What `select_traffic_batch` makes of the rows: a batch for the wire, and the rest in order.
use mathlib.Core.List.{Perm, perm_middle, append_assoc, append-nil}
use mathlib.Core.List.Perm
use mathlib.Core.Option.{some-injective}
use v2node_hy.Base.{
  ℕ, suc, ◌+◌, ◌≤◌, ◌<◌, ℤ, eqb_ℤ, eqb_ℤ_iff, false, ◌||◌, ◌≡◌, refl, subst, inl, inr, List, [],
  ◌∷◌, ◌++◌, length, length-append, All, All-append, some, Bool-cases, arith,
}
use v2node_hy.Traffic.{TrafficRow, max_traffic_rows}
use v2node_hy.Traffic.Select.{
  Selection, is_invalid_row, is_kept_back, seen, place_row, select_loop, select_traffic_batch,
}

-- No user has two rows.
abbrev pub IsDistinct : List TrafficRow → Type 0
IsDistinct [] = Unit
IsDistinct (r ∷ rs) = (seen r.uid rs ≡ false) × IsDistinct rs

abbrev pub IsValidRow : TrafficRow → Type 0
IsValidRow r = is_invalid_row r ≡ false

seen-append :
    (uid : ℤ) (rs : List TrafficRow) (r : TrafficRow)
    → seen uid (rs ++ r ∷ []) ≡ (seen uid rs || eqb_ℤ r.uid uid)
unfolding seen
seen-append uid [] r = ground arith
seen-append uid (q ∷ rs) r = ground (arith, seen-append uid rs r)

IsDistinct-append :
    (rs : List TrafficRow) (r : TrafficRow)
    → IsDistinct rs
    → seen r.uid rs ≡ false
    → IsDistinct (rs ++ r ∷ [])
unfolding seen
IsDistinct-append [] r d s = (refl, tt)
IsDistinct-append (q ∷ rs) r d s = (
  ground (arith, seen-append q.uid rs r, eqb_ℤ_iff r.uid q.uid, eqb_ℤ_iff q.uid r.uid),
  IsDistinct-append rs r d.1 (ground arith),
)

-- The state of the loop.
pub record IsPartial (acc : Selection) : Type 0 where
  pub distinct : IsDistinct acc.selected
  pub bounded : length acc.selected ≤ max_traffic_rows
  pub valid : All IsValidRow acc.selected

place_row-IsPartial :
    (r : TrafficRow) (acc : Selection) → IsValidRow r → IsPartial acc → IsPartial (place_row r acc)
unfolding place_row
place_row-IsPartial r acc valid h = elim (Bool-cases (is_kept_back r acc)) [
  | inl back ↦ rw back (record { distinct = h.distinct; bounded = h.bounded; valid = h.valid })
  | inr free ↦ rw free (record {
    distinct = IsDistinct-append acc.selected r h.distinct (ground arith);
    bounded = ground (arith, length-append acc.selected (r ∷ []), h.bounded);
    valid = All-append IsValidRow acc.selected (r ∷ []) h.valid (valid, tt);
  })
]

-- A row moves from the rows ahead to one of the two lists.
place_row-perm :
    (r : TrafficRow) (acc : Selection) (rows : List TrafficRow)
    → Perm
        ((place_row r acc).selected ++ ((place_row r acc).rest ++ rows))
        (acc.selected ++ (acc.rest ++ (r ∷ rows)))
unfolding place_row
place_row-perm r acc rows = elim (Bool-cases (is_kept_back r acc)) [
  | inl back ↦ rw back (rw append_assoc (Perm.refl _))
  | inr free ↦
      rw free
        (rw append_assoc (Perm.append_left acc.selected (Perm.symm (perm_middle acc.rest rows))))
]

select_loop_cons :
    (r : TrafficRow) (rows : List TrafficRow) (acc : Selection) {out : Selection}
    → select_loop (r ∷ rows) acc ≡ some out
    → IsValidRow r × (select_loop rows (place_row r acc) ≡ some out)
unfolding select_loop
select_loop_cons r rows acc e = ground arith

select_loop-IsPartial :
    (rows : List TrafficRow) (acc : Selection) {out : Selection}
    → IsPartial acc
    → select_loop rows acc ≡ some out
    → IsPartial out
unfolding select_loop
select_loop-IsPartial [] acc h e = subst IsPartial (some-injective _ _ e) h
select_loop-IsPartial (r ∷ rows) acc h e =
    let step = select_loop_cons r rows acc e in
    select_loop-IsPartial rows (place_row r acc) (place_row-IsPartial r acc step.0 h) step.1

select_loop-perm :
    (rows : List TrafficRow) (acc : Selection) {out : Selection}
    → select_loop rows acc ≡ some out
    → Perm (out.selected ++ out.rest) (acc.selected ++ (acc.rest ++ rows))
unfolding select_loop
select_loop-perm [] acc e =
    subst (λ o. Perm (o.selected ++ o.rest) (acc.selected ++ (acc.rest ++ [])))
      (some-injective _ _ e) (rw append-nil (Perm.refl _))
select_loop-perm (r ∷ rows) acc e =
    Perm.trans (select_loop-perm rows (place_row r acc) (select_loop_cons r rows acc e).1)
      (place_row-perm r acc rows)

abbrev total : Selection → ℕ
total acc = length acc.selected + length acc.rest

total-place_row : (r : TrafficRow) (acc : Selection) → total (place_row r acc) ≡ suc (total acc)
unfolding place_row
total-place_row r acc =
    ground (arith, length-append acc.selected (r ∷ []), length-append acc.rest (r ∷ []))

total-select_loop :
    (rows : List TrafficRow) (acc : Selection) {out : Selection}
    → select_loop rows acc ≡ some out
    → total out ≡ total acc + length rows
unfolding select_loop
total-select_loop [] acc e = ground arith
total-select_loop (r ∷ rows) acc e = omega (
  arith,
  total-select_loop rows (place_row r acc) (select_loop_cons r rows acc e).1,
  total-place_row r acc,
)

-- The selected rows only grow.
length-selected :
    (rows : List TrafficRow) (acc : Selection) {out : Selection}
    → select_loop rows acc ≡ some out
    → length acc.selected ≤ length out.selected
unfolding select_loop
length-selected [] acc e = ground arith
length-selected (r ∷ rows) acc e =
    omega (arith, length-selected rows (place_row r acc) (select_loop_cons r rows acc e).1, grows)
  where
    grows : length acc.selected ≤ length (place_row r acc).selected
    grows = ground (arith, length-append acc.selected (r ∷ []))

abbrev nothing : Selection
nothing = record { selected = []; rest = [] }

-- A selection that succeeds makes a wire batch: distinct users, at most 500 rows, every row with a
-- positive user and counters that are not negative; and no row is lost, made up or changed.
pub select_traffic_batch_partition :
    (rows : List TrafficRow) {out : Selection}
    → select_traffic_batch rows ≡ some out
    → IsPartial out × Perm (out.selected ++ out.rest) rows
unfolding select_traffic_batch
select_traffic_batch_partition rows e = (
  select_loop-IsPartial rows nothing (record { distinct = tt; bounded = omega arith; valid = tt })
      e,
  select_loop-perm rows nothing e,
)

-- A selection from some rows leaves fewer of them, so the loops over batches end.
pub length-rest-lt :
    (r : TrafficRow) (rows : List TrafficRow) {out : Selection}
    → select_traffic_batch (r ∷ rows) ≡ some out
    → length out.rest < length (r ∷ rows)
unfolding select_traffic_batch
length-rest-lt r rows {out} e = omega (
  arith,
  total-select_loop (r ∷ rows) nothing e,
  length-selected rows (place_row r nothing) (select_loop_cons r rows nothing e).1,
  first,
)
  where
    first : length (place_row r nothing).selected ≡ 1
    first = unfold place_row seen in refl
