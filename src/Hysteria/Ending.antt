-- ===== src/Hysteria/Ending.antt =====
-- The serve loop ends once stop has been called, and the pauses between its attempts are bounded.
use v2node_hy.Base.{
  ℕ, suc, ◌+◌, ◌*◌, ◌<◌, ◌≤◌, Bool, true, false, get, nat_key, ◌∙◌, ◌⊎◌, inl, inr, ◌≡◌, ◌≢◌, refl,
  sym, ap, subst, Option, none, some, arith,
}
use v2node_hy.Hysteria.Users.{second, next_restart_backoff}
use v2node_hy.Hysteria.Tracked.{IsTracked, has_taken, is_called}
use v2node_hy.Hysteria.Serving.{new_serving-IsTracked, ServeSteps-IsTracked}
use v2node_hy.Hysteria.Serve.{
  LoopPoint, checking, loading, serving, served, retiring, retiring_server, waiting, creating,
  created, installing, discarding, finished, Serving, loop_at, close_server, after_retiring,
  after_taking, not_called, after_loading, install, create, retry_later, LoopStep, leaves, goes_on,
  loads, returns, ends, fails, retires, closes, wakes, gives_up, creates, cannot_create, locks,
  drops, installs, discards, StopStep, begins, takes, stops_server, sees_end, times_out, Fault,
  breaks, by_loop, by_fault, by_stop, StopPoint, taking, stopping_server, awaiting, stopped,
  new_serving, ServeSteps, stays, moves, retry_delay,
}

-- A bound for the steps that the loop has left, once stop has been called.
abbrev pub steps_left : LoopPoint → ℕ
steps_left finished = 0
steps_left checking = 1
steps_left served = 1
steps_left (discarding s) = 1
steps_left (serving s) = 2
steps_left (created s) = 2
steps_left (installing s) = 2
steps_left creating = 3
steps_left waiting = 4
steps_left (retiring_server s) = 5
steps_left loading = 5
steps_left retiring = 6

steps_left-bound : (p : LoopPoint) → steps_left p ≤ 6
steps_left-bound finished = omega arith
steps_left-bound checking = omega arith
steps_left-bound served = omega arith
steps_left-bound (discarding s) = omega arith
steps_left-bound (serving s) = omega arith
steps_left-bound (created s) = omega arith
steps_left-bound (installing s) = omega arith
steps_left-bound creating = omega arith
steps_left-bound waiting = omega arith
steps_left-bound (retiring_server s) = omega arith
steps_left-bound loading = omega arith
steps_left-bound retiring = omega arith

after_loading-steps_left : (o : Option ℕ) → steps_left (after_loading o) < 5
after_loading-steps_left none = omega arith
after_loading-steps_left (some s) = omega arith

after_retiring-steps_left : (o : Option ℕ) → steps_left (after_retiring o) < 6
after_retiring-steps_left none = omega arith
after_retiring-steps_left (some s) = omega arith

left_at : (v : Serving) (p : LoopPoint) → v.loop ≡ p → steps_left v.loop ≡ steps_left p
left_at v p e = ap steps_left e

LoopStep-steps_left :
    (v w : Serving)
    → v.stop_called ≡ true
    → LoopStep v w
    → (steps_left w.loop < steps_left v.loop) × (w.stop_called ≡ true)
unfolding install create retry_later
LoopStep-steps_left _ _ h (leaves v e c) = (ground (arith, e), h)
LoopStep-steps_left _ _ h (goes_on v e c) = absurd (ground (arith, h, c))
LoopStep-steps_left _ _ h (loads v e) =
    (ground (arith, left_at v loading e, after_loading-steps_left v.server), h)
LoopStep-steps_left _ _ h (returns v s e g) = (ground (arith, e), h)
LoopStep-steps_left _ _ h (ends v e c) = (ground (arith, e), h)
LoopStep-steps_left _ _ h (fails v e c) = absurd (ground (arith, h, c))
LoopStep-steps_left _ _ h (retires v e) =
    (ground (arith, left_at v retiring e, after_retiring-steps_left v.server), h)
LoopStep-steps_left _ _ h (closes v s e) = (ground (arith, e), h)
LoopStep-steps_left _ _ h (wakes v e) = (ground (arith, e), h)
LoopStep-steps_left _ _ h (gives_up v e c) = (ground (arith, e), h)
LoopStep-steps_left _ _ h (creates v e) = (ground (arith, e), h)
LoopStep-steps_left _ _ h (cannot_create v e) = (ground (arith, e), h)
LoopStep-steps_left _ _ h (locks v s e c) = absurd (ground (arith, h, c))
LoopStep-steps_left _ _ h (drops v s e c) = (ground (arith, e), h)
LoopStep-steps_left _ _ h (installs v s e) = (ground (arith, e), h)
LoopStep-steps_left _ _ h (discards v s e) = (ground (arith, e), h)

StopStep-loop :
    (v w : Serving)
    → StopStep v w
    → (w.loop ≡ v.loop) × (v.stop_called ≡ true → w.stop_called ≡ true)
StopStep-loop _ _ (begins v e) = (refl, λ h. refl)
StopStep-loop _ _ (takes v e l) = (refl, λ h. h)
StopStep-loop _ _ (stops_server v s e) = (refl, λ h. h)
StopStep-loop _ _ (sees_end v e f) = (refl, λ h. h)
StopStep-loop _ _ (times_out v e) = (refl, λ h. h)

Fault-steps_left :
    (v w : Serving)
    → v.stop_called ≡ true
    → Fault v w
    → (steps_left w.loop < steps_left v.loop) × (w.stop_called ≡ true)
Fault-steps_left _ _ h (breaks v s e) = (ground (arith, e), h)

-- The number of the loop's steps, with those where Serve fails by itself.
abbrev pub loop_steps : (v w : Serving) → ServeSteps v w → ℕ
loop_steps _ _ (stays v) = 0
loop_steps _ _ (moves v w x (by_loop _ _ s) r) = suc (loop_steps w x r)
loop_steps _ _ (moves v w x (by_fault _ _ s) r) = suc (loop_steps w x r)
loop_steps _ _ (moves v w x (by_stop _ _ s) r) = loop_steps w x r

loop_steps-steps_left :
    (v w : Serving) (r : ServeSteps v w)
    → v.stop_called ≡ true
    → loop_steps v w r + steps_left w.loop ≤ steps_left v.loop
loop_steps-steps_left _ _ (stays v) h = omega arith
loop_steps-steps_left _ _ (moves v w x (by_loop _ _ s) r) h =
    let k = LoopStep-steps_left v w h s in
    let ih = loop_steps-steps_left w x r k.1 in omega (arith, k.0, ih)
loop_steps-steps_left _ _ (moves v w x (by_fault _ _ s) r) h =
    let k = Fault-steps_left v w h s in
    let ih = loop_steps-steps_left w x r k.1 in omega (arith, k.0, ih)
loop_steps-steps_left _ _ (moves v w x (by_stop _ _ s) r) h =
    let k = StopStep-loop v w s in
    let ih = loop_steps-steps_left w x r (k.1 h) in
    let e = ap steps_left k.0 in omega (arith, e, ih)

-- Whether stop has closed the server that it has taken.
abbrev pub is_past_close : StopPoint → Bool
is_past_close awaiting = true
is_past_close stopped = true
is_past_close _ = false

-- Then the server that the loop serves is closed.
serving-closed :
    (v : Serving) (s : ℕ)
    → IsTracked v
    → is_past_close v.stop ≡ true
    → v.loop ≡ serving s
    → get s v.open_servers ≡ none
serving-closed v s h p e = elim (past v.stop p) [
  | inl q ↦ ground (arith, h.held s, (h.taken (ap has_taken q)).0, e, q)
  | inr q ↦ ground (arith, h.held s, (h.taken (ap has_taken q)).0, e, q)
]
  where
    past : (q : StopPoint) → is_past_close q ≡ true → (q ≡ awaiting) ⊎ (q ≡ stopped)
    past awaiting h = inl refl
    past stopped h = inr refl
    past not_called h = absurd (ground (arith, h))
    past taking h = absurd (ground (arith, h))
    past (stopping_server t) h = absurd (ground (arith, h))

-- A step of the loop that is open to it.
module _ (v : Serving) (h : v.stop_called ≡ true) where
  next_step :
      ((s : ℕ) → v.loop ≡ serving s → get s v.open_servers ≡ none)
      → (p : LoopPoint) → v.loop ≡ p
      → p ≢ finished
      → (w : Serving) × LoopStep v w
  next_step g checking e n = (loop_at finished v, leaves v e h)
  next_step g loading e n = (loop_at (after_loading v.server) v, loads v e)
  next_step g (serving s) e n = (loop_at served v, returns v s e (g s e))
  next_step g served e n = (loop_at finished v, ends v e h)
  next_step g retiring e n =
      (record v { server = none; loop = after_retiring v.server }, retires v e)
  next_step g (retiring_server s) e n = (loop_at waiting (close_server s v), closes v s e)
  next_step g waiting e n = (loop_at finished v, gives_up v e h)
  next_step g creating e n = (retry_later v, cannot_create v e)
  next_step g (created s) e n = (loop_at (discarding s) v, drops v s e h)
  next_step g (installing s) e n = (install s v, installs v s e)
  next_step g (discarding s) e n = (loop_at finished (close_server s v), discards v s e)
  next_step g finished e n = absurd (n refl)

-- A step that is open to one of the two threads, where Serve does not fail by itself.
abbrev pub CanMove : Serving → Type 0
CanMove v = (w : Serving) × (LoopStep v w ⊎ StopStep v w)

take_step : (v : Serving) → v.stop ≡ taking → (p : LoopPoint) → v.loop ≡ p → CanMove v
take_step v e (installing s) f = (install s v, inl (installs v s f))
take_step v e p f =
    (record v { server = none; stop = after_taking v.server }, inr (takes v e (ground (arith, f))))

stop_step :
    (v : Serving)
    → is_called v.stop ≡ true
    → (p : StopPoint) → v.stop ≡ p
    → is_past_close p ≡ false
    → CanMove v
stop_step v c not_called e n = absurd (ground (arith, c, e))
stop_step v c taking e n = take_step v e v.loop refl
stop_step v c (stopping_server s) e n =
    (record (close_server s v) { stop = awaiting }, inr (stops_server v s e))
stop_step v c awaiting e n = absurd (ground (arith, n))
stop_step v c stopped e n = absurd (ground (arith, n))

-- Once stop has been called, the loop takes at most six more steps, however those of stop come
-- between them. Until stop has closed the server that it takes, a step is open to one of the two;
-- from then on a step is open to the loop until it has ended, whether or not Serve ever fails by
-- itself, since the server that it may be in is closed.
pub loop_steps-bound :
    (v w : Serving)
    → ServeSteps new_serving v
    → v.stop_called ≡ true
    → (r : ServeSteps v w)
    → (loop_steps v w r ≤ 6)
      × (is_past_close w.stop ≡ false → CanMove w)
      × (is_past_close w.stop ≡ true → w.loop ≢ finished → (x : Serving) × LoopStep w x)
loop_steps-bound v w before h r =
    let k = loop_steps-steps_left v w r h in
    let b = steps_left-bound v.loop in
    let c = still_called v w r h in
    let t =
      ServeSteps-IsTracked v w (ServeSteps-IsTracked new_serving v new_serving-IsTracked before)
        r in
    (
      omega (arith, k, b),
      λ n. stop_step w (t.called ∙ c) w.stop refl n,
      λ p n. next_step w c (λ s e. serving-closed w s t p e) w.loop refl n,
    )
  where
    still_called : (v w : Serving) → ServeSteps v w → v.stop_called ≡ true → w.stop_called ≡ true
    still_called _ _ (stays v) c = c
    still_called _ _ (moves v w x (by_loop _ _ s) r) c =
        still_called w x r (LoopStep-steps_left v w c s).1
    still_called _ _ (moves v w x (by_fault _ _ s) r) c =
        still_called w x r (Fault-steps_left v w c s).1
    still_called _ _ (moves v w x (by_stop _ _ s) r) c =
        still_called w x r ((StopStep-loop v w s).1 c)

-- The pause lies between the first one and thirty seconds.
abbrev pub IsBounded : ℕ → Type 0
IsBounded n = (retry_delay ≤ n) × (n ≤ 30 * second)

next_restart_backoff-IsBounded : (n : ℕ) → IsBounded n → IsBounded (next_restart_backoff n)
unfolding next_restart_backoff
next_restart_backoff-IsBounded n h = ground (arith, h)

LoopStep-IsBounded : (v w : Serving) → IsBounded v.backoff → LoopStep v w → IsBounded w.backoff
unfolding install create retry_later
LoopStep-IsBounded _ _ h (leaves v e c) = h
LoopStep-IsBounded _ _ h (goes_on v e c) = h
LoopStep-IsBounded _ _ h (loads v e) = h
LoopStep-IsBounded _ _ h (returns v s e g) = h
LoopStep-IsBounded _ _ h (ends v e c) = h
LoopStep-IsBounded _ _ h (fails v e c) = h
LoopStep-IsBounded _ _ h (retires v e) = h
LoopStep-IsBounded _ _ h (closes v s e) = h
LoopStep-IsBounded _ _ h (wakes v e) = h
LoopStep-IsBounded _ _ h (gives_up v e c) = h
LoopStep-IsBounded _ _ h (creates v e) = h
LoopStep-IsBounded _ _ h (cannot_create v e) = next_restart_backoff-IsBounded v.backoff h
LoopStep-IsBounded _ _ h (locks v s e c) = h
LoopStep-IsBounded _ _ h (drops v s e c) = h
LoopStep-IsBounded _ _ h (installs v s e) = (omega arith, omega arith)
LoopStep-IsBounded _ _ h (discards v s e) = h

StopStep-backoff : (v w : Serving) → StopStep v w → w.backoff ≡ v.backoff
StopStep-backoff _ _ (begins v e) = refl
StopStep-backoff _ _ (takes v e l) = refl
StopStep-backoff _ _ (stops_server v s e) = refl
StopStep-backoff _ _ (sees_end v e f) = refl
StopStep-backoff _ _ (times_out v e) = refl

-- Whatever happens, the pause before an attempt to make a server is at least one second and at
-- most thirty.
ServeSteps-IsBounded : (v w : Serving) → IsBounded v.backoff → ServeSteps v w → IsBounded w.backoff
ServeSteps-IsBounded _ _ h (stays v) = h
ServeSteps-IsBounded _ _ h (moves v w x (by_loop _ _ s) r) =
    ServeSteps-IsBounded w x (LoopStep-IsBounded v w h s) r
ServeSteps-IsBounded _ _ h (moves v w x (by_fault _ _ (breaks _ s e)) r) =
    ServeSteps-IsBounded w x h r
ServeSteps-IsBounded _ _ h (moves v w x (by_stop _ _ s) r) =
    ServeSteps-IsBounded w x (subst IsBounded (sym (StopStep-backoff v w s)) h) r
