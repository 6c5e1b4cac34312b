-- ===== src/Hysteria/Serving.antt =====
-- No server of a node is lost: an invariant of the serve loop and stop, and their end.
use v2node_hy.Base.{
  ℕ, true, false, ◌≡◌, refl, ap, ◌∙◌, none, get, put, get-put, get-del, nat_key, arith,
}
use v2node_hy.Hysteria.Serve.{
  checking, loading, serving, served, retiring, waiting, creating, discarding, finished, StopPoint,
  stopped, Serving, new_serving, after_loading, install, create, retry_later, LoopStep, leaves,
  goes_on, loads, returns, ends, fails, retires, closes, wakes, gives_up, creates, cannot_create,
  locks, drops, installs, discards, StopStep, begins, takes, stops_server, sees_end, times_out,
  ServeStep, Fault, breaks, by_loop, by_fault, by_stop, ServeSteps, stays, moves,
}
use v2node_hy.Hysteria.Tracked.{
  is_called, has_taken, IsTracked, moved-IsTracked, holds_none, idle-IsTracked,
  after_loading-vacant, after_loading-has_lock, after_retiring-has_lock, after_retiring-holds,
  after_taking-holds, after_taking-called,
}

LoopStep-IsTracked : (v w : Serving) → IsTracked v → LoopStep v w → IsTracked w
unfolding install create retry_later
LoopStep-IsTracked _ _ h (leaves v e c) =
    idle-IsTracked v checking finished h e (λ s. refl) refl (λ b. absurd (ground (arith, b)))
LoopStep-IsTracked _ _ h (goes_on v e c) =
    idle-IsTracked v checking loading h e (λ s. refl) refl (λ b. absurd (ground (arith, b)))
LoopStep-IsTracked _ _ h (loads v e) =
    idle-IsTracked v loading (after_loading v.server) h e (λ s. refl)
      (after_loading-has_lock v.server) (after_loading-vacant v.server)
LoopStep-IsTracked _ _ h (returns v s e g) =
    idle-IsTracked v (serving s) served h e (λ t. refl) refl (λ b. absurd (ground (arith, b)))
LoopStep-IsTracked _ _ h (ends v e c) =
    idle-IsTracked v served finished h e (λ s. refl) refl (λ b. absurd (ground (arith, b)))
LoopStep-IsTracked _ _ h (fails v e c) =
    idle-IsTracked v served retiring h e (λ s. refl) refl (λ b. absurd (ground (arith, b)))
LoopStep-IsTracked _ _ h (retires v e) = record {
  held = λ s o. ground (
    arith,
    h.held s o,
    holds_none v.loop retiring e (λ t. refl) s,
    after_retiring-holds v.server s,
  );
  vacant = λ b. refl;
  called = h.called;
  taken = λ t. (refl, after_retiring-has_lock v.server);
}
LoopStep-IsTracked _ _ h (closes v s e) = record {
  held = λ t o. ground (arith, h.held t, e, get-del s t v.open_servers);
  vacant = λ b. h.vacant (ground (arith, e));
  called = h.called;
  taken = λ t. ground (arith, h.taken t, e);
}
LoopStep-IsTracked _ _ h (wakes v e) =
    idle-IsTracked v waiting creating h e (λ s. refl) refl (λ b. h.vacant (ground (arith, e)))
LoopStep-IsTracked _ _ h (gives_up v e c) =
    idle-IsTracked v waiting finished h e (λ s. refl) refl (λ b. absurd (ground (arith, b)))
LoopStep-IsTracked _ _ h (creates v e) = record {
  held = λ s o. ground (
    arith,
    h.held s,
    holds_none v.loop creating e (λ t. refl) s,
    get-put v.fresh s tt v.open_servers,
  );
  vacant = λ b. h.vacant (ground (arith, e));
  called = h.called;
  taken = λ t. ((h.taken t).0, refl);
}
LoopStep-IsTracked _ _ h (cannot_create v e) =
    let k =
      idle-IsTracked v creating checking h e (λ s. refl) refl (λ b. absurd (ground (arith, b))) in
    record { held = k.held; vacant = k.vacant; called = k.called; taken = k.taken }
LoopStep-IsTracked _ _ h (locks v s e c) = record {
  held = λ t o. ground (arith, h.held t o, e);
  vacant = λ b. h.vacant (ground (arith, e));
  called = h.called;
  taken = λ t. absurd (not_yet v.stop t (h.called ∙ c));
}
  where
    not_yet : (p : StopPoint) → has_taken p ≡ true → is_called p ≡ false → ⊥
    not_yet p t c = ground (arith, t, c)
LoopStep-IsTracked _ _ h (drops v s e c) =
    moved-IsTracked v (discarding s) h (λ t k. ground (arith, k, e)) refl
      (λ b. absurd (ground (arith, b)))
LoopStep-IsTracked _ _ h (installs v s e) = record {
  held = λ t o. ground (arith, h.held t, h.vacant (ground (arith, e)), e);
  vacant = λ b. absurd (ground (arith, b));
  called = h.called;
  taken = λ t. ground (arith, h.taken t, e);
}
LoopStep-IsTracked _ _ h (discards v s e) = record {
  held = λ t o. ground (arith, h.held t, e, get-del s t v.open_servers);
  vacant = λ b. absurd (ground (arith, b));
  called = h.called;
  taken = λ t. ((h.taken t).0, refl);
}

Fault-IsTracked : (v w : Serving) → IsTracked v → Fault v w → IsTracked w
Fault-IsTracked _ _ h (breaks v s e) =
    idle-IsTracked v (serving s) served h e (λ t. refl) refl (λ b. absurd (ground (arith, b)))

StopStep-IsTracked : (v w : Serving) → IsTracked v → StopStep v w → IsTracked w
StopStep-IsTracked _ _ h (begins v e) = record {
  held = λ s o. ground (arith, h.held s o, e);
  vacant = h.vacant;
  called = refl;
  taken = λ t. ground (arith, t);
}
StopStep-IsTracked _ _ h (takes v e l) = record {
  held = λ s o. ground (arith, h.held s o, e, after_taking-holds v.server s);
  vacant = λ b. refl;
  called = after_taking-called v.server ∙ ground (arith, h.called, e);
  taken = λ t. (refl, l);
}
StopStep-IsTracked _ _ h (stops_server v s e) = record {
  held = λ t o. ground (arith, h.held t, e, get-del s t v.open_servers);
  vacant = h.vacant;
  called = ground (arith, h.called, e);
  taken = λ t. h.taken (ground (arith, e));
}
StopStep-IsTracked _ _ h (sees_end v e f) = record {
  held = λ s o. ground (arith, h.held s o, e);
  vacant = h.vacant;
  called = ground (arith, h.called, e);
  taken = λ t. h.taken (ground (arith, e));
}
StopStep-IsTracked _ _ h (times_out v e) = record {
  held = λ s o. ground (arith, h.held s o, e);
  vacant = h.vacant;
  called = ground (arith, h.called, e);
  taken = λ t. h.taken (ground (arith, e));
}

ServeStep-IsTracked : (v w : Serving) → IsTracked v → ServeStep v w → IsTracked w
ServeStep-IsTracked v w h (by_loop _ _ s) = LoopStep-IsTracked v w h s
ServeStep-IsTracked v w h (by_fault _ _ s) = Fault-IsTracked v w h s
ServeStep-IsTracked v w h (by_stop _ _ s) = StopStep-IsTracked v w h s

pub new_serving-IsTracked : IsTracked new_serving
unfolding new_serving get put
new_serving-IsTracked = record {
  held = λ s o. ground (arith, o);
  vacant = λ b. absurd (ground (arith, b));
  called = refl;
  taken = λ t. ground (arith, t);
}

pub ServeSteps-IsTracked : (v w : Serving) → IsTracked v → ServeSteps v w → IsTracked w
ServeSteps-IsTracked _ _ h (stays v) = h
ServeSteps-IsTracked _ _ h (moves v w x s r) =
    ServeSteps-IsTracked w x (ServeStep-IsTracked v w h s) r

-- However the serve loop and stop of a node interleave from its start: when the loop has ended and
-- stop has returned, no server that was ever created is open, and the node has none.
pub ServeSteps-closes :
    (v : Serving) (s : ℕ)
    → ServeSteps new_serving v
    → v.loop ≡ finished
    → v.stop ≡ stopped
    → (get s v.open_servers ≡ none) × (v.server ≡ none)
ServeSteps-closes v s r f t =
    let h = ServeSteps-IsTracked new_serving v new_serving-IsTracked r in
    let k = h.taken (ap has_taken t) in (ground (arith, h.held s, k.0, f, t), k.0)
