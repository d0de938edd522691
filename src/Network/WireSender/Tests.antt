-- ===== src/Network/WireSender/Tests.antt =====
-- Chunks on their way through a socket (libcore/src/network/ASIOSocketWrapper.cpp).
use sirikata.Base.{ℕ, ◌<◌, ◌≡◌, refl, List, [], ◌∷◌, ◌++◌, none, some, length, arith}
use sirikata.Network.WireSender.{
  Pending, offered, Wrapper, fill, send_deque, send_to_wire, finish_async_send, completed,
  take_bytes, raw_send,
}
use sirikata.Network.WireSender.Progress.{to_send}
use sirikata.Network.WireSender.Stream.{
  stream, Event, taken, given, run, stream_run, completions, run-stream,
}
use sirikata.Network.WireSender.Drain.{all_on_wire}

abbrev fresh : Wrapper
fresh = record { queue = []; pending = none; wire = [] }

-- Three chunks; the second and the third go out in one buffer, of which the socket takes a part
-- first.
abbrev events : List Event
events = given (1 ∷ 2 ∷ []) ∷ given (3 ∷ []) ∷ given (4 ∷ 5 ∷ []) ∷ taken 1 ∷ taken 1 ∷ taken 2 ∷ []

events-run : (run events fresh).wire ≡ 1 ∷ 2 ∷ 3 ∷ 4 ∷ []
unfolding take_bytes raw_send completed finish_async_send send_to_wire send_deque fill
events-run = refl

run-stream_example :
    (stream (run events fresh) ≡ stream_run events (stream fresh))
    × (0 < length (to_send (run events fresh))
        → (p : Pending) × ((run events fresh).pending ≡ some p) × (0 < length (offered p)))
unfolding take_bytes raw_send completed finish_async_send send_to_wire send_deque fill
run-stream_example =
    run-stream events fresh (tt, refl)
      (
        omega arith,
        (
          omega arith,
          (
            omega arith,
            (
              (omega arith, omega arith),
              ((omega arith, omega arith), ((omega arith, omega arith), tt)),
            ),
          ),
        ),
      )

abbrev loaded : Wrapper
loaded = run (given (1 ∷ 2 ∷ []) ∷ given (3 ∷ []) ∷ given (4 ∷ 5 ∷ []) ∷ []) fresh

abbrev sizes : List ℕ
sizes = 2 ∷ 1 ∷ 2 ∷ 1 ∷ 1 ∷ []

all_on_wire_example :
    ((run (completions sizes) loaded).wire ≡ loaded.wire ++ to_send loaded)
    × (to_send (run (completions sizes) loaded) ≡ [])
unfolding take_bytes raw_send completed finish_async_send send_to_wire send_deque fill
all_on_wire_example =
    all_on_wire sizes loaded (((omega arith, (omega arith, tt)), omega arith))
      (
        (omega arith, omega arith),
        ((omega arith, omega arith), ((omega arith, omega arith), (tt, (tt, tt)))),
      )
      (omega arith)
