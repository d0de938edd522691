-- ===== src/Network/StreamStatus/Tests.antt =====
-- A packet is sent while the stream is being closed (libcore/src/network/TCPStream.cpp).
use sirikata.Base.{ℕ, ◌+◌, ◌*◌, ◌^◌, ◌<◌, ◌≡◌, ◌⊎◌, refl, inl, true, false, [], ◌∷◌, arith}
use sirikata.Network.StreamStatus.{
  send_status_closing, outside, allowed, handed, idle, adding, waiting, enter_open, send_bytes,
  leave_handed, find_open, add_flag, return, System, update, sender, closer, start_system, Steps,
  none_yet, later,
}
use sirikata.Network.StreamStatus.Closed.{closed_for_good}

abbrev counted_in : System
counted_in = record start_system {
  mem = record { status = 1; added = 0; sent = []; closed = false };
  senders = update start_system.senders 0 (allowed 5);
}

abbrev found_open : System
found_open = record counted_in { closers = update counted_in.closers 0 adding }

abbrev flagged : System
flagged = record found_open {
  mem = record { status = 2 ^ 29 + 1; added = 1; sent = []; closed = false };
  closers = update found_open.closers 0 waiting;
}

abbrev sent_on : System
sent_on = record flagged {
  mem = record { status = 2 ^ 29 + 1; added = 1; sent = 5 ∷ []; closed = false };
  senders = update flagged.senders 0 handed;
}

abbrev left : System
left = record sent_on {
  mem = record { status = 2 ^ 29; added = 1; sent = 5 ∷ []; closed = false };
  senders = update sent_on.senders 0 outside;
}

abbrev returned : System
returned = record left {
  mem = record { status = 2 ^ 29; added = 1; sent = 5 ∷ []; closed = true };
  closers = update left.closers 0 idle;
}

flagged-Steps : Steps 1 1 start_system flagged
flagged-Steps =
    later
      (later (later none_yet (sender 0 (omega arith) (enter_open 5 refl)))
        (closer 0 (omega arith) (find_open refl)))
      (closer 0 (omega arith) add_flag)

returned-Steps : Steps 1 1 start_system returned
returned-Steps =
    later
      (later (later flagged-Steps (sender 0 (omega arith) send_bytes))
        (sender 0 (omega arith) leave_handed))
      (closer 0 (omega arith) (return (inl refl)))

closed_for_good_example :
    (returned.mem.closed ≡ true → (t : System) → Steps 1 1 returned t → t.mem.sent ≡ 5 ∷ [])
    × ((i : ℕ)
        → i < 1
        → returned.closers i ≡ waiting
        → ((j : ℕ) → returned.senders j ≡ outside)
        → (returned.mem.status ≡ send_status_closing)
          ⊎ ((returned.mem.status ≡ 2 * send_status_closing)
              ⊎ (returned.mem.status ≡ 3 * send_status_closing)))
closed_for_good_example =
    closed_for_good {n = 1} {k = 1} {s = returned} (omega arith) (omega arith) returned-Steps
