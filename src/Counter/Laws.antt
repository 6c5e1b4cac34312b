-- ===== src/Counter/Laws.antt =====
-- The counters of one user do not depend on another's, and a subtraction stops at zero.
use v2node_hy.Base.{
  ℕ, ◌<◌, ℤ, pos, ◌+ℤ◌, ◌-ℤ◌, InInt64, -ℤ_parts, eq_of_parts, wrap, wrap_exact, String, Bool, true,
  false, ◌≡◌, refl, Option, none, some, get, get-put, get-put_self, ◌∙◌, ap, sym, Bool-cases,
  string_key, nat_key, inl, inr, if◌then◌else◌, ◌==◌, ◌-◌, arith, str_eq_iff, str_eq,
}
use v2node_hy.Counter.{
  TrafficCounter, TrafficStorage, new_storage, get_counter, found_or_new, add_storage, storage_at,
  count_of, get_up_count, get_down_count, set_storage, set_if_found, subtract_atomic, subtract,
  less, add_down, rx,
}

-- No two users share a storage, and the heap is filled up to the next address only.
pub record IsOwned (c : TrafficCounter) : Type 0 where
  pub single :
      (u v : String) (a : ℕ) → get u c.counters ≡ some a → get v c.counters ≡ some a → u ≡ v
  pub bounded : (u : String) (a : ℕ) → get u c.counters ≡ some a → a < c.fresh

pub add_storage-IsOwned :
    (u : String) (c : TrafficCounter) → IsOwned c → IsOwned (add_storage u c).1
unfolding add_storage
add_storage-IsOwned u c h = record {
  single = λ v w a p q. ground (
    arith,
    get-put u v c.fresh c.counters,
    get-put u w c.fresh c.counters,
    str_eq_iff u v,
    str_eq_iff u w,
    h.bounded v a,
    h.bounded w a,
    h.single v w a,
  );
  bounded = λ v a p. ground (arith, get-put u v c.fresh c.counters, h.bounded v a);
}

pub found_or_new-IsOwned :
    (o : Option ℕ) (u : String) (c : TrafficCounter) → IsOwned c → IsOwned (found_or_new o u c).1
unfolding found_or_new
found_or_new-IsOwned none u c h = add_storage-IsOwned u c h
found_or_new-IsOwned (some a) u c h = h

pub set_if_found-IsOwned :
    (o : Option ℕ) (f : TrafficStorage → TrafficStorage) (c : TrafficCounter)
    → IsOwned c
    → IsOwned (set_if_found o f c)
unfolding set_if_found set_storage
set_if_found-IsOwned none f c h = h
set_if_found-IsOwned (some a) f c h = record { single = h.single; bounded = h.bounded }

pub get_counter-IsOwned :
    (u : String) (c : TrafficCounter) → IsOwned c → IsOwned (get_counter u c).1
unfolding get_counter
get_counter-IsOwned u c h = found_or_new-IsOwned (get u c.counters) u c h

-- What a user's counters are after a change at an address.
pub count_of-set_storage :
    (part : TrafficStorage → ℤ) (o : Option ℕ) (a : ℕ) (s : TrafficStorage) (c : TrafficCounter)
    → count_of part o (set_storage a s c)
      ≡ elim o [ none ↦ pos 0 | some b ↦ if a == b then part s else part (storage_at b c) ]
unfolding count_of set_storage storage_at
count_of-set_storage part none a s c = refl
count_of-set_storage part (some b) a s c = ground (arith, get-put a b s c.storages)

-ℤ-InInt64 : (a b : ℕ) → InInt64 (pos a) → InInt64 (pos b) → InInt64 (pos a -ℤ pos b)
unfolding ◌-ℤ◌
-ℤ-InInt64 a b ha hb = ground arith

-- A subtraction that does not overflow stops at zero, and one of no bytes changes nothing.
pub subtract_atomic_lem :
    (current n : ℕ)
    → InInt64 (pos current)
    → InInt64 (pos n)
    → subtract_atomic (pos current) (pos n) ≡ pos (current - n)
unfolding subtract_atomic
subtract_atomic_lem current n hc hn = ground (
  arith,
  wrap_exact (pos current -ℤ pos n) (-ℤ-InInt64 current n hc hn),
  -ℤ_parts (pos current) (pos n),
  eq_of_parts (pos current -ℤ pos n) (pos (current - n)),
)

same_entry :
    (u v : String) (c : TrafficCounter) → str_eq u v ≡ true → get u c.counters ≡ get v c.counters
same_entry u v c same = ap (λ x. get x c.counters) ((str_eq_iff u v).0 same)

count-change :
    (part : TrafficStorage → ℤ) (u v : String) (a : ℕ) (s : TrafficStorage) (c : TrafficCounter)
    → IsOwned c
    → get u c.counters ≡ some a
    → count_of part (get v c.counters) (set_storage a s c)
      ≡ (if str_eq u v then part s else count_of part (get v c.counters) c)
unfolding count_of
count-change part u v a s c h e =
    count_of-set_storage part (get v c.counters) a s c ∙ by_entry (get v c.counters) refl
  where
    by_entry :
        (o : Option ℕ)
        → get v c.counters ≡ o
        → elim o [ none ↦ pos 0 | some b ↦ if a == b then part s else part (storage_at b c) ]
          ≡ (if str_eq u v then part s else count_of part o c)
    by_entry none f = elim (Bool-cases (str_eq u v)) [
      | inl same ↦ absurd (ground (arith, same_entry u v c same, e, f))
      | inr other ↦ rw other refl
    ]
    by_entry (some b) f = elim (Bool-cases (str_eq u v)) [
      | inl same ↦ ground (arith, same_entry u v c same, e, f)
      | inr other ↦ ground (arith, h.single u v a, str_eq_iff u v, e, f)
    ]

get-found_or_new :
    (u : String) (o : Option ℕ) (c : TrafficCounter)
    → get u c.counters ≡ o
    → get u (found_or_new o u c).1.counters ≡ some (found_or_new o u c).0
unfolding found_or_new add_storage
get-found_or_new u none c e = get-put_self u c.fresh c.counters
get-found_or_new u (some a) c e = e

storage_at-add_storage :
    (u : String) (b : ℕ) (c : TrafficCounter)
    → storage_at b (add_storage u c).1 ≡ (if c.fresh == b then new_storage else storage_at b c)
unfolding add_storage storage_at
storage_at-add_storage u b c = ground (arith, get-put c.fresh b new_storage c.storages)

count-add :
    (part : TrafficStorage → ℤ) (u : String) (c : TrafficCounter)
    → part new_storage ≡ pos 0
    → (same : Bool) (o : Option ℕ) → (same ≡ true → o ≡ none)
    → ((a : ℕ) → o ≡ some a → a < c.fresh)
    → count_of part (if same then some c.fresh else o) (add_storage u c).1 ≡ count_of part o c
unfolding count_of
count-add part u c z true none h b = ap part (storage_at-add_storage u c.fresh c ∙ ground arith) ∙ z
count-add part u c z true (some a) h b = absurd (ground (arith, h refl))
count-add part u c z false none h b = refl
count-add part u c z false (some a) h b =
    ap part (storage_at-add_storage u a c ∙ ground (arith, b a refl))

count-found_or_new :
    (part : TrafficStorage → ℤ) (u v : String) (o : Option ℕ) (c : TrafficCounter)
    → part new_storage ≡ pos 0
    → IsOwned c
    → get u c.counters ≡ o
    → count_of part (get v (found_or_new o u c).1.counters) (found_or_new o u c).1
      ≡ count_of part (get v c.counters) c
unfolding found_or_new add_storage count_of storage_at
count-found_or_new part u v none c z h e = rw (get-put u v c.fresh c.counters) (
    count-add part u c z (str_eq u v) (get v c.counters) (λ same. sym (same_entry u v c same) ∙ e)
      (λ x. h.bounded v x))
count-found_or_new part u v (some a) c z h e = refl

counted :
    (part : TrafficStorage → ℤ) (u : String) (a : ℕ) (c : TrafficCounter)
    → get u c.counters ≡ some a
    → part (storage_at a c) ≡ count_of part (get u c.counters) c
unfolding count_of
counted part u a c e = rw e refl

if_ap :
    (f : ℤ → ℤ) (b : Bool) {x x' y y' : ℤ}
    → x ≡ x'
    → y ≡ y'
    → (if b then f x else y) ≡ (if b then f x' else y')
if_ap f true p q = ap f p
if_ap f false p q = q

-- The count of each user after traffic of one user: the bytes are added to the user's own, with
-- the wrap-around of int64, and no other user's count changes.
pub get_down_count-rx :
    (u v : String) (n : ℤ) (c : TrafficCounter)
    → IsOwned c
    → get_down_count v (rx u n c)
      ≡ (if str_eq u v then wrap (get_down_count u c +ℤ n) else get_down_count v c)
unfolding rx get_down_count add_down get_counter
get_down_count-rx u v n c h =
    count-change (λ s. s.down_counter) u v _ _ (get_counter u c).1 (get_counter-IsOwned u c h)
      (get-found_or_new u (get u c.counters) c refl)
    ∙ if_ap (λ x. wrap (x +ℤ n)) (str_eq u v)
        (counted (λ s. s.down_counter) u _ (get_counter u c).1
            (get-found_or_new u (get u c.counters) c refl)
          ∙ count-found_or_new (λ s. s.down_counter) u u (get u c.counters) c refl h refl)
        (count-found_or_new (λ s. s.down_counter) u v (get u c.counters) c refl h refl)

subtract-up :
    (u v : String) (k up : ℕ) (down : ℤ) (c : TrafficCounter)
    → IsOwned c
    → get_up_count u c ≡ pos k
    → InInt64 (pos k)
    → InInt64 (pos up)
    → get_up_count v (subtract u (pos up) down c)
      ≡ (if str_eq u v then pos (k - up) else get_up_count v c)
unfolding subtract get_up_count
subtract-up u v k up down c h e hk hu = go (get u c.counters) refl
  where
    go :
        (o : Option ℕ)
        → get u c.counters ≡ o
        → get_up_count v (set_if_found o (less (pos up) down) c)
          ≡ (if str_eq u v then pos (k - up) else get_up_count v c)
    go none f = elim (Bool-cases (str_eq u v)) [
      | inl same ↦ rw (same, sym (same_entry u v c same), f) (ground (arith, e))
      | inr other ↦ rw other refl
    ]
    go (some a) f =
        count-change (λ s. s.up_counter) u v a _ c h f
        ∙ if_ap (λ x. subtract_atomic x (pos up)) (str_eq u v) {y = get_up_count v c}
            (counted (λ s. s.up_counter) u a c f ∙ e) refl
        ∙ ap (λ x. if str_eq u v then x else get_up_count v c) (subtract_atomic_lem k up hk hu)

subtract-down :
    (u v : String) (k down : ℕ) (up : ℤ) (c : TrafficCounter)
    → IsOwned c
    → get_down_count u c ≡ pos k
    → InInt64 (pos k)
    → InInt64 (pos down)
    → get_down_count v (subtract u up (pos down) c)
      ≡ (if str_eq u v then pos (k - down) else get_down_count v c)
unfolding subtract get_down_count
subtract-down u v k down up c h e hk hu = go (get u c.counters) refl
  where
    go :
        (o : Option ℕ)
        → get u c.counters ≡ o
        → get_down_count v (set_if_found o (less up (pos down)) c)
          ≡ (if str_eq u v then pos (k - down) else get_down_count v c)
    go none f = elim (Bool-cases (str_eq u v)) [
      | inl same ↦ rw (same, sym (same_entry u v c same), f) (ground (arith, e))
      | inr other ↦ rw other refl
    ]
    go (some a) f =
        count-change (λ s. s.down_counter) u v a _ c h f
        ∙ if_ap (λ x. subtract_atomic x (pos down)) (str_eq u v) {y = get_down_count v c}
            (counted (λ s. s.down_counter) u a c f ∙ e) refl
        ∙ ap (λ x. if str_eq u v then x else get_down_count v c) (subtract_atomic_lem k down hk hu)

-- Reported bytes of both directions are taken off the user's own counters, each of which stops at
-- zero, and off no other's, for counts and reported bytes that are not negative.
pub get_up_count-subtract :
    (u v : String) (j k up down : ℕ) (c : TrafficCounter)
    → IsOwned c
    → get_up_count u c ≡ pos j
    → get_down_count u c ≡ pos k
    → InInt64 (pos j) × InInt64 (pos up)
    → InInt64 (pos k) × InInt64 (pos down)
    → (get_up_count v (subtract u (pos up) (pos down) c)
        ≡ (if str_eq u v then pos (j - up) else get_up_count v c))
      × (get_down_count v (subtract u (pos up) (pos down) c)
          ≡ (if str_eq u v then pos (k - down) else get_down_count v c))
get_up_count-subtract u v j k up down c h e f a b =
    (subtract-up u v j up (pos down) c h e a.0 a.1, subtract-down u v k down (pos up) c h f b.0 b.1)
