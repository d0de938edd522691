-- ===== src/Network/Handshake/Agreement.antt =====
-- The connection is made exactly if all sockets bring one header; otherwise its failure is told
-- once.
use sirikata.Base.{
  ℕ, zero, suc, ◌+◌, ◌-◌, ◌≤◌, ◌<◌, ◌≡◌, refl, ap, ◌∙◌, Bool, true, false, ◌&&◌, List, [], ◌∷◌,
  length, ◌==◌, if◌then◌else◌, arith, inl, inr, Bool-cases,
}
use sirikata.Base.Int.{ℤ, pos, negsuc, ◌-ℤ◌}
use sirikata.Network.Handshake.{
  Act, connected, connection_failed, read_buffer, Handshake, check_header_contents, no_address_left,
  Outcome, header, unreachable, finish_socket, finish_all, initial,
}

abbrev pub times_connected : List Act → ℕ
times_connected [] = 0
times_connected (connected ∷ log) = suc (times_connected log)
times_connected (connection_failed w ∷ log) = times_connected log
times_connected (read_buffer w ∷ log) = times_connected log

abbrev pub times_failed : List Act → ℕ
times_failed [] = 0
times_failed (connected ∷ log) = times_failed log
times_failed (connection_failed w ∷ log) = suc (times_failed log)
times_failed (read_buffer w ∷ log) = times_failed log

-- All brought this header.
unfoldable pub all_brought : ℕ → List (ℕ × Outcome) → Bool
all_brought h [] = true
all_brought h ((which, header buffer) ∷ results) = h == buffer && all_brought h results
all_brought h ((which, unreachable) ∷ results) = false

-- All brought the header of the first.
abbrev pub agree : List (ℕ × Outcome) → Bool
agree [] = true
agree ((which, header buffer) ∷ results) = all_brought buffer results
agree ((which, unreachable) ∷ results) = false

abbrev at : ℤ → ℕ → List Act → Handshake
at count first log = record {
  finished_check_count = count;
  first_received_header = first;
  log = log;
}

-- After a failure the count stays below 0, and nothing is told any more.
finish_socket-negative :
    (n which j f : ℕ) (outcome : Outcome) (log : List Act)
    → finish_socket n which outcome (at (negsuc j) f log) ≡ at (negsuc (suc j)) f log
unfolding finish_socket check_header_contents no_address_left ◌-ℤ◌
finish_socket-negative n which j f (header buffer) log = ground arith
finish_socket-negative n which j f unreachable log = ground arith

finish_all-negative :
    (n j f : ℕ) (results : List (ℕ × Outcome)) (log : List Act)
    → (finish_all n results (at (negsuc j) f log)).log ≡ log
unfolding finish_all
finish_all-negative n j f [] log = refl
finish_all-negative n j f ((which, outcome) ∷ results) log =
    ap (λ h. (finish_all n results h).log) (finish_socket-negative n which j f outcome log)
    ∙ finish_all-negative n (suc j) f results log

module _ (n k which f : ℕ) (log : List Act) (lt : k < n) where
  finish_socket-same :
      (buffer : ℕ)
      → (f == buffer) ≡ true
      → finish_socket n which (header buffer) (at (pos (suc k)) f log)
        ≡ at (pos k) f (read_buffer which ∷ (if k == 0 then connected ∷ log else log))
  unfolding finish_socket check_header_contents ◌-ℤ◌
  finish_socket-same buffer e = ground arith

  finish_socket-other :
      (buffer : ℕ)
      → (f == buffer) ≡ false
      → suc k < n
      → finish_socket n which (header buffer) (at (pos (suc k)) f log)
        ≡ at (negsuc (n - suc k)) f (connection_failed which ∷ log)
  unfolding finish_socket check_header_contents ◌-ℤ◌
  finish_socket-other buffer e below = ground arith

  finish_socket-unreachable :
      finish_socket n which unreachable (at (pos (suc k)) f log)
      ≡ at (negsuc (n - suc k)) f (connection_failed which ∷ log)
  unfolding finish_socket no_address_left ◌-ℤ◌
  finish_socket-unreachable = ground arith

-- The first header is the one to compare with.
finish_socket-first :
    (k which f buffer : ℕ) (log : List Act)
    → finish_socket (suc k) which (header buffer) (at (pos (suc k)) f log)
      ≡ at (pos k) buffer (read_buffer which ∷ (if k == 0 then connected ∷ log else log))
unfolding finish_socket check_header_contents ◌-ℤ◌
finish_socket-first k which f buffer log = ground arith

abbrev Told : List Act → List Act → Bool → Bool → Type 0
Told after before agreed all =
    (times_connected after ≡ times_connected before + (if agreed && all then 1 else 0))
    × (times_failed after ≡ times_failed before + (if agreed then 0 else 1))

-- After a header that fits, with `k` to come: the last one, or the claim for the rest.
on :
    (k : ℕ) (results : List (ℕ × Outcome)) (n f which : ℕ) (log : List Act)
    → suc (length results) ≤ suc k
    → ((l : List Act)
        → 0 < k
        → Told
            (finish_all n results (at (pos k) f l)).log
            l
            (all_brought f results)
            (length results == k))
    → Told
        (finish_all n results
          (at (pos k) f (read_buffer which ∷ (if k == 0 then connected ∷ log else log)))).log
        log
        (all_brought f results)
        (suc (length results) == suc k)
unfolding finish_all all_brought
on zero [] n f which log le rest = (omega arith, omega arith)
on zero (r ∷ results) n f which log le rest = absurd (omega arith)
on (suc k) results n f which log le rest =
    let claim = rest (read_buffer which ∷ log) (omega arith) in ground (arith, claim)

-- From a state in which some sockets have brought the header and `k` are to come.
finish_all-rest :
    (n k f : ℕ) (results : List (ℕ × Outcome)) (log : List Act)
    → 0 < k
    → k < n
    → length results ≤ k
    → Told
        (finish_all n results (at (pos k) f log)).log
        log
        (all_brought f results)
        (length results == k)
unfolding finish_all all_brought
finish_all-rest n zero f results log some_left lt le = absurd (omega arith)
finish_all-rest n (suc k) f [] log some_left lt le = ground arith
finish_all-rest n (suc k) f ((which, unreachable) ∷ results) log some_left lt le =
    let end =
      ap (λ h. (finish_all n results h).log)
        (finish_socket-unreachable n k which f log (omega arith))
      ∙ finish_all-negative n (n - suc k) f results (connection_failed which ∷ log) in
    rw end (omega arith, omega arith)
finish_all-rest n (suc k) f ((which, header buffer) ∷ results) log some_left lt le =
    elim (Bool-cases (f == buffer)) [
      | inl same ↦
          let step =
            ap (λ h. (finish_all n results h).log)
              (finish_socket-same n k which f log (omega arith) buffer same) in
          rw (step, same)
            (on k results n f which log le
              (λ l more. finish_all-rest n k f results l more (omega arith) (omega arith)))
      | inr other ↦
          let end =
            ap (λ h. (finish_all n results h).log)
              (finish_socket-other n k which f log (omega arith) buffer other lt)
            ∙ finish_all-negative n (n - suc k) f results (connection_failed which ∷ log) in
          rw (end, other) (omega arith, omega arith)
    ]

-- If as many sockets as there are, or fewer, are done in any order: all that were done have brought
-- one header and nothing was told but, when they are all sockets, that the connection is made,
-- once; or some did not, and that the connection has failed was told exactly once.
pub finish_all-agree :
    (n : ℕ) (results : List (ℕ × Outcome))
    → 0 < n
    → length results ≤ n
    → let log = (finish_all n results (initial n)).log in
      (times_connected log ≡ (if agree results && length results == n then 1 else 0))
      × (times_failed log ≡ (if agree results then 0 else 1))
unfolding finish_all
finish_all-agree zero results some_socket le = absurd (omega arith)
finish_all-agree (suc k) [] some_socket le = ground arith
finish_all-agree (suc k) ((which, unreachable) ∷ results) some_socket le =
    let end =
      ap (λ h. (finish_all (suc k) results h).log)
        (finish_socket-unreachable (suc k) k which 0 [] (omega arith))
      ∙ finish_all-negative (suc k) (suc k - suc k) 0 results (connection_failed which ∷ []) in
    rw end (refl, refl)
finish_all-agree (suc k) ((which, header buffer) ∷ results) some_socket le =
    let step =
      ap (λ h. (finish_all (suc k) results h).log) (finish_socket-first k which 0 buffer []) in
    let (made, broken) =
      on k results (suc k) buffer which [] le
        (λ l more. finish_all-rest (suc k) k buffer results l more (omega arith) (omega arith)) in
    rw step (omega (arith, made), omega (arith, broken))
