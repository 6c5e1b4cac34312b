-- ===== src/Hysteria/Examples.antt =====
-- A node that is stopped while its server runs, and the theorems on servers applied to it.
use v2node_hy.Base.{
  ◌≤◌, pos, true, false, none, some, [], ◌∷◌, put, get, del, string_key, nat_key, ◌≡◌, ◌≢◌, refl,
}
use v2node_hy.Hysteria.{Node, new_node}
use v2node_hy.Hysteria.Users.{Manager, second}
use v2node_hy.Hysteria.Nodes.{quiesce_node}
use v2node_hy.Hysteria.Quiet.{IsQuiet, quiesce_node-IsQuiet}
use v2node_hy.Hysteria.Serve.{
  checking, not_called, loading, serving, served, taking, stopping_server, awaiting, Serving,
  new_serving, finished, stopped, loop_at, goes_on, loads, begins, takes, stops_server, returns,
  ends, sees_end, LoopStep, ServeSteps, stays, moves, by_loop, by_stop,
}
use v2node_hy.Hysteria.Serving.{ServeSteps-closes}
use v2node_hy.Hysteria.Ending.{loop_steps, is_past_close, CanMove, loop_steps-bound}

abbrev checked_point : Serving
checked_point = record {
  server = some 0;
  stop_called = false;
  loop = checking;
  stop = not_called;
  open_servers = (0, tt) ∷ [];
  fresh = 1;
  backoff = second;
}

start-checked : new_serving ≡ checked_point
unfolding new_serving put
start-checked = refl

abbrev in_serve : Serving
in_serve = record checked_point { loop = serving 0 }

abbrev called : Serving
called = record in_serve { stop_called = true; stop = taking }

abbrev taken : Serving
taken = record called { server = none; stop = stopping_server 0 }

abbrev shut : Serving
shut = record taken { open_servers = []; stop = awaiting }

abbrev over : Serving
over = record shut { loop = finished; stop = stopped }

from_call : ServeSteps called over
unfolding del get
from_call = moves called taken over (by_stop called taken (takes called refl refl)) (
    moves taken shut over (by_stop taken shut (stops_server taken 0 refl)) (
      moves shut (loop_at served shut) over
        (by_loop shut (loop_at served shut) (returns shut 0 refl refl))
        (moves (loop_at served shut) (loop_at finished shut) over
          (by_loop (loop_at served shut) (loop_at finished shut)
            (ends (loop_at served shut) refl refl))
          (moves (loop_at finished shut) over over
            (by_stop (loop_at finished shut) over (sees_end (loop_at finished shut) refl refl))
            (stays over)))))

whole_run : ServeSteps new_serving over
unfolding new_serving put
whole_run =
    moves checked_point (loop_at loading checked_point) over
      (by_loop checked_point (loop_at loading checked_point) (goes_on checked_point refl refl))
      (moves (loop_at loading checked_point) in_serve over
        (by_loop (loop_at loading checked_point) in_serve
          (loads (loop_at loading checked_point) refl))
        (moves in_serve called over (by_stop in_serve called (begins in_serve refl)) from_call))

ServeSteps-closes_example : (get 0 over.open_servers ≡ none) × (over.server ≡ none)
ServeSteps-closes_example = ServeSteps-closes over 0 whole_run refl refl

before_call : ServeSteps new_serving called
unfolding new_serving put
before_call =
    moves checked_point (loop_at loading checked_point) called
      (by_loop checked_point (loop_at loading checked_point) (goes_on checked_point refl refl))
      (moves (loop_at loading checked_point) in_serve called
        (by_loop (loop_at loading checked_point) in_serve
          (loads (loop_at loading checked_point) refl))
        (moves in_serve called called (by_stop in_serve called (begins in_serve refl))
          (stays called)))

loop_steps-bound_example :
    (loop_steps called over from_call ≤ 6)
    × (is_past_close over.stop ≡ false → CanMove over)
    × (is_past_close over.stop ≡ true → over.loop ≢ finished → (x : Serving) × LoopStep over x)
loop_steps-bound_example = loop_steps-bound called over before_call refl from_call

abbrev one_user : Node
one_user = record (new_node "t" none) { users = ("a", pos 1) ∷ [] }

abbrev one_node : Manager
one_node = ("t", one_user) ∷ []

found_one : get "t" one_node ≡ some one_user
unfolding get
found_one = refl

quiesce_node-IsQuiet_example :
    ((quiesce_node "t" none one_node).0 ≡ none)
    × ((k : Node) × ((get "t" (quiesce_node "t" none one_node).1 ≡ some k) × IsQuiet one_user k))
quiesce_node-IsQuiet_example = quiesce_node-IsQuiet "t" none one_node one_user found_one
