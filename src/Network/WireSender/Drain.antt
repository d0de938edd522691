-- ===== src/Network/WireSender/Drain.antt =====
-- The sends come to an end (libcore/src/network/ASIOSocketWrapper.cpp): each that completes takes
-- bytes away from those that wait.
use sirikata.Base.{
  ℕ, ◌-◌, ◌≤◌, ◌≡◌, refl, sym, ap, ◌∙◌, List, [], ◌∷◌, ◌++◌, Option, none, some, length, drop, take,
  append_assoc, append-nil, arith, length-drop, length-zero, take-drop,
}
use sirikata.Network.WireSender.{Pending, Wrapper, take_bytes}
use sirikata.Network.WireSender.Progress.{to_send}
use sirikata.Network.WireSender.Completion.{IsSending}
use sirikata.Network.WireSender.Stream.{
  Stream, stream, taken, run, stream_handle, stream_run, IsTaken, FitsAll, handle-stream, runs,
  completions, drop_none,
}

shortens :
    (n : ℕ) (m : Wrapper) (o : Option Pending)
    → IsSending (record m { pending = o })
    → IsTaken n o
    → length (drop n (to_send (record m { pending = o })))
      ≤ length (to_send (record m { pending = o })) - 1
shortens n m none h fits = rw (h.1, drop_none n) (omega arith)
shortens n m (some p) h fits =
    omega (arith, length-drop n (to_send (record m { pending = some p })), fits.0)

all_shorten :
    (ns : List ℕ) (m : Wrapper)
    → IsSending m
    → FitsAll (completions ns) m
    → length (to_send (run (completions ns) m)) ≤ length (to_send m) - length ns
all_shorten [] m h fits = omega arith
all_shorten (n ∷ ns) m h fits =
    let (sending, same) = handle-stream (taken n) m h fits.0 in
    omega (
      arith,
      all_shorten ns (take_bytes n m) sending fits.1,
      shortens n m m.pending h fits.0,
      ap (λ s. length s.waiting) same,
    )

bytes_of : Stream → List ℕ
bytes_of s = s.sent ++ s.waiting

stream_run-bytes_of :
    (ns : List ℕ) (s : Stream) → bytes_of (stream_run (completions ns) s) ≡ bytes_of s
unfolding bytes_of
stream_run-bytes_of [] s = refl
stream_run-bytes_of (n ∷ ns) s =
    stream_run-bytes_of ns (stream_handle (taken n) s)
    ∙ append_assoc s.sent (take n s.waiting) (drop n s.waiting)
    ∙ ap (λ bytes. s.sent ++ bytes) (take-drop n s.waiting)

-- From a state that is sending what there is to send, once as many sends have completed as there
-- were bytes to send, each of between one and all offered bytes, all of them are on the wire behind
-- those before, and none is left.
pub all_on_wire :
    (ns : List ℕ) (m : Wrapper)
    → IsSending m
    → FitsAll (completions ns) m
    → length (to_send m) ≤ length ns
    → ((run (completions ns) m).wire ≡ m.wire ++ to_send m)
      × (to_send (run (completions ns) m) ≡ [])
unfolding bytes_of
all_on_wire ns m h fits enough =
    let after = run (completions ns) m in
    let done : to_send after ≡ [] =
      length-zero (to_send after) (omega (arith, all_shorten ns m h fits)) in
    (
      sym (append-nil after.wire)
          ∙ ap (λ bytes. after.wire ++ bytes) (sym done)
          ∙ ap bytes_of ((runs (completions ns) m h fits).1)
          ∙ stream_run-bytes_of ns (stream m),
      done,
    )
