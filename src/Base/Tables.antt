-- ===== src/Base/Tables.antt =====
-- Go's maps and `sync.Map`: an association list with one entry for a key, over keys with a test
-- for equality. The order of entries stands for the unspecified order of iteration.
use Prim.Native.Nat.{ℕ}
use Prim.Native.String.{String}
use text.Mathlib.TextEquality.{eq_iff}
use mathlib.Core.Path.{◌≡◌, refl}
use mathlib.Core.Logic.{◌↔◌}
use mathlib.Core.Bool.{Bool, true}
use mathlib.Core.Option.{Option, none, some}
use mathlib.Core.List.{List, [], ◌∷◌}
use native.Mathlib.Omega.{arith}
use v2node_hy.Base.Tests.{str_eq, ◌==◌, ==_iff, if◌then◌else◌}
use v2node_hy.Base.Int.{ℤ, eqb_ℤ, eqb_ℤ_iff}

pub record Key (K : Type 0) : Type 0 where
  pub same : K → K → Bool
  pub same_iff : (a b : K) → (same a b ≡ true) ↔ (a ≡ b)

instance abbrev pub string_key : Key String
string_key = record { same = str_eq; same_iff = eq_iff }

instance abbrev pub int_key : Key ℤ
int_key = record { same = eqb_ℤ; same_iff = eqb_ℤ_iff }

instance abbrev pub nat_key : Key ℕ
nat_key = record { same = ◌==◌; same_iff = ==_iff }

abbrev pub Table : Type 0 → Type 0 → Type 0
Table K V = List (K × V)

pub same_refl : {K : Type 0} ⦃e : Key K⦄ (k : K) → e.same k k ≡ true
same_refl ⦃e⦄ k = (e.same_iff k k).1 refl

module _ {K V : Type 0} ⦃e : Key K⦄ where
  unfoldable pub get : K → Table K V → Option V
  get k [] = none
  get k ((j, v) ∷ m) = if e.same j k then some v else get k m

  unfoldable pub del : K → Table K V → Table K V
  del k [] = []
  del k ((j, v) ∷ m) = if e.same j k then del k m else (j, v) ∷ del k m

  unfoldable pub put : K → V → Table K V → Table K V
  put k v [] = (k, v) ∷ []
  put k v ((j, w) ∷ m) = if e.same j k then (k, v) ∷ m else (j, w) ∷ put k v m

  pub get-put :
      (k j : K) (v : V) (m : Table K V)
      → get j (put k v m) ≡ (if e.same k j then some v else get j m)
  unfolding get put
  get-put k j v [] = refl
  get-put k j v ((i, w) ∷ m) =
      ground (arith, e.same_iff k j, e.same_iff i k, e.same_iff i j, get-put k j v m)

  pub get-del : (k j : K) (m : Table K V) → get j (del k m) ≡ (if e.same k j then none else get j m)
  unfolding get del
  get-del k j [] = ground arith
  get-del k j ((i, w) ∷ m) =
      ground (arith, e.same_iff k j, e.same_iff i k, e.same_iff i j, get-del k j m)

  pub get-put_self : (k : K) (v : V) (m : Table K V) → get k (put k v m) ≡ some v
  get-put_self k v m = simp (get-put, same_refl)

  pub get-del_self : (k : K) (m : Table K V) → get k (del k m) ≡ none
  get-del_self k m = simp (get-del, same_refl)
