-- ===== src/Base/Texts.antt =====
-- Texts that the code takes apart: lists of code points, which are bytes for ASCII. The functions
-- of Go's `strings` and `strconv` that the code calls.
use Prim.Native.Nat.{ℕ, zero, suc, ◌+◌, ◌-◌, ◌*◌, ◌/◌, ◌%◌, ◌<◌}
use Prim.Native.String.{String, ◌++◌ as str_append, slice}
use mathlib.Core.Path.{◌≡◌, refl, ap, ◌∙◌}
use mathlib.Core.Logic.{◌↔◌}
use mathlib.Core.Bool.{Bool, true, false, ◌&&◌, ◌||◌}
use mathlib.Core.Option.{Option, none, some}
use mathlib.Core.List.{List, [], ◌∷◌, ◌++◌}
use native.Mathlib.Omega.{arith}
use v2node_hy.Base.Tests.{leb, ◌==◌, if◌then◌else◌, unless_not}
use v2node_hy.Base.Int.{ℤ, pos, negsuc}
use v2node_hy.Base.Tables.{Key}

abbrev pub Bytes : Type 0
Bytes = List ℕ

abbrev pub is_nil : Bytes → Bool
is_nil [] = true
is_nil (c ∷ s) = false

abbrev pub eq_bytes : Bytes → Bytes → Bool
eq_bytes [] [] = true
eq_bytes (c ∷ s) (d ∷ t) = c == d && eq_bytes s t
eq_bytes _ _ = false

pub eq_bytes_iff : (s t : Bytes) → (eq_bytes s t ≡ true) ↔ (s ≡ t)
eq_bytes_iff [] [] = ground arith
eq_bytes_iff [] (d ∷ t) = ground arith
eq_bytes_iff (c ∷ s) [] = ground arith
eq_bytes_iff (c ∷ s) (d ∷ t) = ground (arith, eq_bytes_iff s t)

instance abbrev pub bytes_key : Key Bytes
bytes_key = record { same = eq_bytes; same_iff = eq_bytes_iff }

-- White space of ASCII.
unfoldable pub is_space : ℕ → Bool
is_space c = c == 32 || (leb 9 c && leb c 13)

unfoldable pub trim_left : Bytes → Bytes
unfolding is_space
trim_left [] = []
trim_left (c ∷ s) = let rest = trim_left s in if is_space c then rest else c ∷ s

unfoldable pub trim_right : Bytes → Bytes
unfolding is_space
trim_right [] = []
trim_right (c ∷ s) = let rest = trim_right s in if is_space c && is_nil rest then [] else c ∷ rest

abbrev pub trim_space : Bytes → Bytes
trim_space s = trim_right (trim_left s)

unfoldable pub contains_byte : ℕ → Bytes → Bool
contains_byte b [] = false
contains_byte b (c ∷ s) = c == b || contains_byte b s

unfoldable pub ends_with : ℕ → Bytes → Bool
ends_with b [] = false
ends_with b (c ∷ []) = c == b
ends_with b (c ∷ d ∷ s) = ends_with b (d ∷ s)

unfoldable pub drop_last : Bytes → Bytes
drop_last [] = []
drop_last (c ∷ []) = []
drop_last (c ∷ d ∷ s) = c ∷ drop_last (d ∷ s)

-- strings.SplitN(s, sep, 2), where the separator occurs.
unfoldable pub cut : ℕ → Bytes → Option (Bytes × Bytes)
cut b [] = none
cut b (c ∷ s) =
    let rest = cut b s in
    if c == b then some ([], s) else elim rest [ none ↦ none | some p ↦ some (c ∷ p.0, p.1) ]

unfoldable pub cons_first : ℕ → List Bytes → List Bytes
cons_first c [] = (c ∷ []) ∷ []
cons_first c (s ∷ ss) = (c ∷ s) ∷ ss

-- strings.Split by one byte.
unfoldable pub split : ℕ → Bytes → List Bytes
unfolding cons_first
split b [] = [] ∷ []
split b (c ∷ s) = let rest = split b s in if c == b then [] ∷ rest else cons_first c rest

unfoldable pub join : Bytes → List Bytes → Bytes
join sep [] = []
join sep (s ∷ []) = s
join sep (s ∷ t ∷ ts) = s ++ (sep ++ join sep (t ∷ ts))

-- The decimal digits of a number, in front of a text; the fuel is more than the number.
unfoldable pub digits : ℕ → ℕ → Bytes → Bytes
digits zero n acc = acc
digits (suc fuel) n acc =
    let more = digits fuel (n / 10) ((b'0' + n % 10) ∷ acc) in
    if n / 10 == 0 then (b'0' + n % 10) ∷ acc else more

abbrev pub show_nat : ℕ → Bytes
show_nat n = digits (suc n) n []

-- The same as a native text.
unfoldable pub decimal_from : ℕ → ℕ → String
decimal_from zero n = ""
decimal_from (suc fuel) n =
    let more = decimal_from fuel (n / 10) in
    str_append (if n / 10 == 0 then "" else more) (slice "0123456789" (n % 10) (n % 10 + 1))

-- strconv.Itoa.
unfoldable pub decimal : ℤ → String
unfolding decimal_from
decimal (pos n) = decimal_from (suc n) n
decimal (negsuc n) = str_append "-" (decimal_from (suc (suc n)) (suc n))

-- The number of the digits, after one that is read already.
unfoldable pub read_from : ℕ → Bytes → Option ℕ
read_from n [] = some n
read_from n (c ∷ s) =
    let rest = read_from (n * 10 + (c - b'0')) s in if leb b'0' c && leb c b'9' then rest else none

unfoldable pub read_nat : Bytes → Option ℕ
unfolding read_from
read_nat [] = none
read_nat (c ∷ s) = read_from 0 (c ∷ s)

read_from-digit :
    (m d : ℕ) (acc : Bytes) → d < 10 → read_from m ((b'0' + d) ∷ acc) ≡ read_from (m * 10 + d) acc
unfolding read_from
read_from-digit m d acc h =
    unless_not (leb b'0' (b'0' + d) && leb (b'0' + d) b'9') _ _ (ground arith)
    ∙ ap (λ k. read_from (m * 10 + k) acc) (omega arith)

read_from-digits :
    (fuel n : ℕ) (acc : Bytes) → n < fuel → read_from 0 (digits fuel n acc) ≡ read_from n acc
unfolding digits
read_from-digits zero n acc h = absurd (omega arith)
read_from-digits (suc fuel) n acc h =
    by_size (n / 10 == 0) refl (read_from-digits fuel (n / 10) ((b'0' + n % 10) ∷ acc))
  where
    by_size :
        (b : Bool)
        → (n / 10 == 0) ≡ b
        → (n / 10 < fuel
            → read_from 0 (digits fuel (n / 10) ((b'0' + n % 10) ∷ acc))
              ≡ read_from (n / 10) ((b'0' + n % 10) ∷ acc))
        → read_from 0
            (if b then (b'0' + n % 10) ∷ acc else digits fuel (n / 10) ((b'0' + n % 10) ∷ acc))
          ≡ read_from n acc
    by_size true e ih =
        read_from-digit 0 (n % 10) acc (omega arith) ∙ ap (λ k. read_from k acc) (ground (arith, e))
    by_size false e ih =
        ih (ground (arith, e))
        ∙ read_from-digit (n / 10) (n % 10) acc (omega arith)
        ∙ ap (λ k. read_from k acc) (omega arith)

read_nat_from : (s : Bytes) → is_nil s ≡ false → read_nat s ≡ read_from 0 s
unfolding read_nat
read_nat_from [] h = absurd (ground arith)
read_nat_from (c ∷ s) h = refl

digits-nonempty :
    (fuel n : ℕ) (acc : Bytes) → is_nil acc ≡ false → is_nil (digits fuel n acc) ≡ false
unfolding digits
digits-nonempty zero n acc h = h
digits-nonempty (suc fuel) n acc h =
    ground (arith, digits-nonempty fuel (n / 10) ((b'0' + n % 10) ∷ acc) refl)

show_nat-nonempty : (n : ℕ) → is_nil (show_nat n) ≡ false
unfolding digits
show_nat-nonempty n = ground (arith, digits-nonempty n (n / 10) ((b'0' + n % 10) ∷ []) refl)

-- A number is read back from its decimal digits.
pub read_nat-show_nat : (n : ℕ) → read_nat (show_nat n) ≡ some n
unfolding read_from
read_nat-show_nat n =
    read_nat_from (show_nat n) (show_nat-nonempty n) ∙ read_from-digits (suc n) n [] (omega arith)
