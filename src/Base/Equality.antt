-- ===== src/Base/Equality.antt =====
-- Equality as `reflect.DeepEqual` finds it on plain data: tests for Booleans, pointers and slices.
use mathlib.Core.Path.{◌≡◌}
use mathlib.Core.Logic.{◌↔◌}
use mathlib.Core.Bool.{Bool, true, false, not, ◌&&◌}
use mathlib.Core.Option.{Option, none, some}
use mathlib.Core.List.{List, [], ◌∷◌}
use native.Mathlib.Omega.{arith}
use v2node_hy.Base.Tables.{Key}

abbrev pub eq_bool : Bool → Bool → Bool
eq_bool true b = b
eq_bool false b = not b

pub eq_bool_iff : (a b : Bool) → (eq_bool a b ≡ true) ↔ (a ≡ b)
eq_bool_iff true true = ground arith
eq_bool_iff true false = ground arith
eq_bool_iff false true = ground arith
eq_bool_iff false false = ground arith

instance abbrev pub bool_key : Key Bool
bool_key = record { same = eq_bool; same_iff = eq_bool_iff }

module _ {A : Type 0} ⦃e : Key A⦄ where
  abbrev pub eq_option : Option A → Option A → Bool
  eq_option none none = true
  eq_option (some a) (some b) = e.same a b
  eq_option _ _ = false

  pub eq_option_iff : (a b : Option A) → (eq_option a b ≡ true) ↔ (a ≡ b)
  eq_option_iff none none = ground arith
  eq_option_iff none (some b) = ground arith
  eq_option_iff (some a) none = ground arith
  eq_option_iff (some a) (some b) = ground (arith, e.same_iff a b)

  abbrev pub eq_list : List A → List A → Bool
  eq_list [] [] = true
  eq_list (a ∷ rest) (b ∷ bs) = e.same a b && eq_list rest bs
  eq_list _ _ = false

  pub eq_list_iff : (a b : List A) → (eq_list a b ≡ true) ↔ (a ≡ b)
  eq_list_iff [] [] = ground arith
  eq_list_iff [] (b ∷ bs) = ground arith
  eq_list_iff (a ∷ r) [] = ground arith
  eq_list_iff (a ∷ r) (b ∷ bs) = ground (arith, e.same_iff a b, eq_list_iff r bs)

  instance abbrev pub option_key : Key (Option A)
  option_key = record { same = eq_option; same_iff = eq_option_iff }

  instance abbrev pub list_key : Key (List A)
  list_key = record { same = eq_list; same_iff = eq_list_iff }
