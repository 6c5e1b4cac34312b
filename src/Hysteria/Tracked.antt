-- ===== src/Hysteria/Tracked.antt =====
-- Where the open servers of a node are: with the node, or with the thread that closes or installs
-- them.
use v2node_hy.Base.{
  ℕ, ◌==◌, Bool, true, false, ◌||◌, ◌≡◌, refl, ap, Option, none, some, is_some, get, nat_key, arith,
}
use v2node_hy.Hysteria.Serve.{
  LoopPoint, retiring_server, waiting, creating, created, installing, discarding, StopPoint,
  not_called, taking, stopping_server, Serving, loop_at, after_retiring, after_taking,
  after_loading, has_lock,
}

abbrev is_server : Option ℕ → ℕ → Bool
is_server none s = false
is_server (some t) s = t == s

-- The servers that the loop is about to close or to install, and the one that stop closes.
abbrev loop_holds : LoopPoint → ℕ → Bool
loop_holds (retiring_server t) s = t == s
loop_holds (created t) s = t == s
loop_holds (installing t) s = t == s
loop_holds (discarding t) s = t == s
loop_holds _ s = false

abbrev stop_holds : StopPoint → ℕ → Bool
stop_holds (stopping_server t) s = t == s
stop_holds _ s = false

abbrev is_open : ℕ → Serving → Bool
is_open s v = is_some (get s v.open_servers)

-- Whether stop has been called, and whether it has taken the server.
abbrev pub is_called : StopPoint → Bool
is_called not_called = false
is_called _ = true

abbrev pub has_taken : StopPoint → Bool
has_taken not_called = false
has_taken taking = false
has_taken _ = true

-- Where the loop has left the server of the node, and not made the next one.
abbrev is_between : LoopPoint → Bool
is_between (retiring_server s) = true
is_between waiting = true
is_between creating = true
is_between (created s) = true
is_between (installing s) = true
is_between _ = false

-- An open server is that of the node, or one of the threads is about to close or to install it;
-- once stop has taken the server there is none to come.
pub record IsTracked (v : Serving) : Type 0 where
  pub held :
      (s : ℕ)
      → is_open s v ≡ true
      → (is_server v.server s || (loop_holds v.loop s || stop_holds v.stop s)) ≡ true
  pub vacant : is_between v.loop ≡ true → v.server ≡ none
  pub called : is_called v.stop ≡ v.stop_called
  pub taken : has_taken v.stop ≡ true → (v.server ≡ none) × (has_lock v.loop ≡ false)

pub moved-IsTracked :
    (v : Serving) (q : LoopPoint)
    → IsTracked v
    → ((s : ℕ) → loop_holds v.loop s ≡ true → loop_holds q s ≡ true)
    → has_lock q ≡ false
    → (is_between q ≡ true → v.server ≡ none)
    → IsTracked (loop_at q v)
moved-IsTracked v q h k l b = record {
  held = λ s o. ground (arith, h.held s, k s);
  vacant = b;
  called = h.called;
  taken = λ t. ((h.taken t).0, l);
}

pub holds_none :
    (p q : LoopPoint)
    → p ≡ q
    → ((s : ℕ) → loop_holds q s ≡ false)
    → (s : ℕ) → loop_holds p s ≡ true
    → ⊥
holds_none p q e n s h = ground (arith, n s, ap (λ x. loop_holds x s) e)

-- A step from a point where the loop holds no server to another.
pub idle-IsTracked :
    (v : Serving) (p q : LoopPoint)
    → IsTracked v
    → v.loop ≡ p
    → ((s : ℕ) → loop_holds p s ≡ false)
    → has_lock q ≡ false
    → (is_between q ≡ true → v.server ≡ none)
    → IsTracked (loop_at q v)
idle-IsTracked v p q h e n l b =
    moved-IsTracked v q h (λ s k. absurd (holds_none v.loop p e n s k)) l b

pub after_loading-vacant : (o : Option ℕ) → is_between (after_loading o) ≡ true → o ≡ none
after_loading-vacant none h = refl
after_loading-vacant (some s) h = absurd (ground (arith, h))

pub after_loading-has_lock : (o : Option ℕ) → has_lock (after_loading o) ≡ false
after_loading-has_lock none = refl
after_loading-has_lock (some s) = refl

pub after_retiring-has_lock : (o : Option ℕ) → has_lock (after_retiring o) ≡ false
after_retiring-has_lock none = refl
after_retiring-has_lock (some s) = refl

pub after_retiring-holds : (o : Option ℕ) (s : ℕ) → is_server o s ≡ loop_holds (after_retiring o) s
after_retiring-holds none s = refl
after_retiring-holds (some t) s = refl

pub after_taking-holds : (o : Option ℕ) (s : ℕ) → is_server o s ≡ stop_holds (after_taking o) s
after_taking-holds none s = refl
after_taking-holds (some t) s = refl

pub after_taking-called : (o : Option ℕ) → is_called (after_taking o) ≡ true
after_taking-called none = refl
after_taking-called (some t) = refl
