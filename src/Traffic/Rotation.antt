-- ===== src/Traffic/Rotation.antt =====
-- Sorting and rotating the captured rows changes their order only.
use mathlib.Core.List.{Perm, perm_middle, perm_append_comm, append-nil}
use mathlib.Core.List.Perm
use v2node_hy.Base.{
  ℤ, ltb_ℤ, eqb_ℤ, Bool, true, false, ◌||◌, ◌≡◌, refl, List, [], ◌∷◌, ◌++◌, if◌then◌else◌, ap,
}
use v2node_hy.Traffic.{UserTraffic}
use v2node_hy.Traffic.Flush.{insert_row, sort_from, sort_rows, up_to, past, rotate_rows}

either : {A : Type 0} (P : A → Type 0) (b : Bool) (x y : A) → P x → P y → P (if b then x else y)
either P true x y p q = p
either P false x y p q = q

insert_row-perm : (r : UserTraffic) (rows : List UserTraffic) → Perm (insert_row r rows) (r ∷ rows)
unfolding insert_row
insert_row-perm r [] = Perm.refl _
insert_row-perm r (s ∷ rows) =
    either (λ l. Perm l (r ∷ s ∷ rows)) (ltb_ℤ s.uid r.uid || eqb_ℤ s.uid r.uid) _ _
      (Perm.trans (Perm.cons s (insert_row-perm r rows)) (Perm.swap r s rows)) (Perm.refl _)

sort_from-perm : (sorted rows : List UserTraffic) → Perm (sort_from sorted rows) (sorted ++ rows)
unfolding sort_from
sort_from-perm sorted [] = rw append-nil (Perm.refl _)
sort_from-perm sorted (r ∷ rows) = Perm.trans (sort_from-perm (insert_row r sorted) rows) (
    Perm.trans (Perm.append_right rows (insert_row-perm r sorted))
      (Perm.symm (perm_middle sorted rows)))

up_to-past : (last : ℤ) (rows : List UserTraffic) → up_to last rows ++ past last rows ≡ rows
unfolding up_to past
up_to-past last [] = refl
up_to-past last (r ∷ rows) = by_test (ltb_ℤ last r.uid) (up_to-past last rows)
  where
    by_test :
        (b : Bool)
        → up_to last rows ++ past last rows ≡ rows
        → (if b then [] else r ∷ up_to last rows) ++ (if b then r ∷ rows else past last rows)
          ≡ r ∷ rows
    by_test true e = refl
    by_test false e = ap (λ l. r ∷ l) e

-- The order in which a round takes the captured rows, from the user after the last one reported,
-- leaves no row out and takes none twice.
pub rotate_rows-perm : (last : ℤ) (rows : List UserTraffic) → Perm (rotate_rows last rows) rows
unfolding rotate_rows
rotate_rows-perm last rows =
    Perm.trans (perm_append_comm (past last (sort_rows rows)) (up_to last (sort_rows rows)))
      (rw (up_to-past last (sort_rows rows)) (sort_from-perm [] rows))
