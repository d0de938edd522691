-- ===== src/Network/StreamBuilder/Gather.antt =====
-- Each stream is built once, with exactly the sockets of its client
-- (libcore/src/network/ASIOStreamBuilder.cpp, ASIOSocketWrapper.cpp).
use sirikata.Base.{
  ℕ, ◌+◌, ◌<◌, ◌≡◌, refl, sym, ap, subst, ◌∙◌, inl, inr, true, false, Option, none, some, List, [],
  ◌∷◌, ◌++◌, ◌==◌, if◌then◌else◌, length, drop, take, append-nil, append_assoc, length-append,
  length-zero, arith, Bool-cases,
}
use sirikata.Network.StreamBuilder.{
  Bytes, bytes_eq, copy_header, string_prefix, IncompleteStream, Built, Builder, num_connections,
  find_or_add, add_socket, build_stream,
}

bytes_eq_refl : (bs : Bytes) → bytes_eq bs bs ≡ true
bytes_eq_refl [] = refl
bytes_eq_refl (b ∷ bs) = ground (arith, bytes_eq_refl bs)

num_connections-copy_header :
    (key : Bytes) (num : ℕ) → num < 100 → num_connections (copy_header key num) ≡ num
unfolding num_connections copy_header
num_connections-copy_header key num h = ground arith

-- A socket that brings a header, with its key and count.
pub record Arrival : Type 0 where
  pub key : Bytes
  pub num : ℕ
  pub socket : ℕ

abbrev pub arrive : Arrival → Builder → Builder
arrive a b = build_stream false (copy_header a.key a.num) a.socket b

abbrev pub arrive_all : List Arrival → Builder → Builder
arrive_all [] b = b
arrive_all (a ∷ more) b = arrive_all more (arrive a b)

-- The sockets that bring a key, in order.
abbrev pub sockets_of : Bytes → List Arrival → List ℕ
sockets_of key [] = []
sockets_of key (a ∷ more) =
    if bytes_eq key a.key then a.socket ∷ sockets_of key more else sockets_of key more

-- The streams that were built for a key.
abbrev pub built_for : Bytes → List Built → List (List ℕ)
built_for key [] = []
built_for key (x ∷ xs) =
    if bytes_eq key x.context then x.members ∷ built_for key xs else built_for key xs

-- The sockets that bring the key agree on the count; each count has two digits at most.
abbrev pub AllAgree : Bytes → ℕ → List Arrival → Type 0
AllAgree key n [] = Unit {0}
AllAgree key n (a ∷ more) =
    (a.num < 100) × (bytes_eq key a.key ≡ true → (a.key ≡ key) × (a.num ≡ n)) × AllAgree key n more

copy_header-take :
    (key : Bytes) (num : ℕ) → bytes_eq (take 6 (copy_header key num)) string_prefix ≡ true
unfolding copy_header
copy_header-take key num = refl

copy_header-drop : (key : Bytes) (num : ℕ) → drop 8 (copy_header key num) ≡ key
unfolding copy_header
copy_header-drop key num = refl

arrive_lem :
    (a : Arrival) (b : Builder)
    → a.num < 100
    → arrive a b ≡ add_socket a.key a.num a.socket (find_or_add a.key a.num b) b
unfolding build_stream
arrive_lem a b h =
    rw
      (
        num_connections-copy_header a.key a.num h,
        copy_header-take a.key a.num,
        copy_header-drop a.key a.num,
      )
      refl

built_for-append :
    (key : Bytes) (xs ys : List Built)
    → built_for key (xs ++ ys) ≡ built_for key xs ++ built_for key ys
built_for-append key [] ys = refl
built_for-append key (x ∷ xs) ys = ground (arith, built_for-append key xs ys)

add_socket_other :
    (key context : Bytes) (num socket : ℕ) (entry : IncompleteStream) (b : Builder)
    → bytes_eq key context ≡ false
    → (let after = add_socket context num socket entry b in
        (after.incomplete key ≡ b.incomplete key)
        × (built_for key after.built ≡ built_for key b.built))
unfolding add_socket
add_socket_other key context num socket entry b other =
    elim (Bool-cases (num == entry.num_sockets)) [
      | inr differ ↦ rw differ (rw other refl, refl)
      | inl agree ↦ elim (Bool-cases (num == length (entry.sockets ++ socket ∷ []))) [
        | inl full ↦
            rw (agree, full)
              (
                rw other refl,
                built_for-append key b.built
                      (record { context = context; members = entry.sockets ++ socket ∷ [] } ∷ [])
                    ∙ rw other (append-nil (built_for key b.built)),
              )
        | inr more ↦ rw (agree, more) (rw other refl, refl)
      ]
    ]

-- Another client's socket changes nothing for the key.
arrive_other :
    (key : Bytes) (a : Arrival) (b : Builder)
    → a.num < 100
    → bytes_eq key a.key ≡ false
    → ((arrive a b).incomplete key ≡ b.incomplete key)
      × (built_for key (arrive a b).built ≡ built_for key b.built)
arrive_other key a b h other =
    rw (arrive_lem a b h)
      (add_socket_other key a.key a.num a.socket (find_or_add a.key a.num b) b other)

-- What is kept for a key of which these sockets have come.
abbrev kept : ℕ → List ℕ → Option IncompleteStream
kept n [] = none
kept n (s ∷ ss) = some (record { num_sockets = n; sockets = s ∷ ss })

find_or_add-kept :
    (key : Bytes) (n : ℕ) (got : List ℕ) (b : Builder)
    → b.incomplete key ≡ kept n got
    → find_or_add key n b ≡ record { num_sockets = n; sockets = got }
unfolding find_or_add
find_or_add-kept key n [] b e = rw (find_or_add, e) refl
find_or_add-kept key n (s ∷ ss) b e = rw (find_or_add, e) refl

kept_more :
    (n : ℕ) (got : List ℕ) (s : ℕ)
    → some (record { num_sockets = n; sockets = got ++ s ∷ [] }) ≡ kept n (got ++ s ∷ [])
kept_more n [] s = refl
kept_more n (g ∷ got) s = refl

arrive_last :
    (key : Bytes) (n socket : ℕ) (got : List ℕ) (b : Builder)
    → n < 100
    → b.incomplete key ≡ kept n got
    → n ≡ length (got ++ socket ∷ [])
    → (let after = arrive (record { key = key; num = n; socket = socket }) b in
        (after.incomplete key ≡ none)
        × (built_for key after.built ≡ built_for key b.built ++ (got ++ socket ∷ []) ∷ []))
unfolding add_socket
arrive_last key n socket got b h e full =
    let same : (n == n) ≡ true = ground arith in
    let all : (n == length (got ++ socket ∷ [])) ≡ true = ground arith in
    rw
      (
        arrive_lem (record { key = key; num = n; socket = socket }) b h,
        find_or_add-kept key n got b e,
        same,
        all,
      )
      (
        rw (bytes_eq_refl key) refl,
        built_for-append key b.built (record { context = key; members = got ++ socket ∷ [] } ∷ [])
            ∙ rw (bytes_eq_refl key) refl,
      )

arrive_not_last :
    (key : Bytes) (n socket : ℕ) (got : List ℕ) (b : Builder)
    → n < 100
    → b.incomplete key ≡ kept n got
    → (n == length (got ++ socket ∷ [])) ≡ false
    → (let after = arrive (record { key = key; num = n; socket = socket }) b in
        (after.incomplete key ≡ kept n (got ++ socket ∷ []))
        × (built_for key after.built ≡ built_for key b.built))
unfolding add_socket
arrive_not_last key n socket got b h e more =
    let same : (n == n) ≡ true = ground arith in
    rw
      (
        arrive_lem (record { key = key; num = n; socket = socket }) b h,
        find_or_add-kept key n got b e,
        same,
        more,
      )
      (rw (bytes_eq_refl key) (kept_more n got socket), refl)

-- Sockets of other clients only.
others_arrive :
    (key : Bytes) (n : ℕ) (arrivals : List Arrival) (b : Builder)
    → AllAgree key n arrivals
    → sockets_of key arrivals ≡ []
    → ((arrive_all arrivals b).incomplete key ≡ b.incomplete key)
      × (built_for key (arrive_all arrivals b).built ≡ built_for key b.built)
others_arrive key n [] b h e = (refl, refl)
others_arrive key n (a ∷ more) b h e = elim (Bool-cases (bytes_eq key a.key)) [
  | inl own ↦ absurd (ground (arith, own))
  | inr other ↦
      let (same, built) = arrive_other key a b h.0 other in
      let (same', built') = others_arrive key n more (arrive a b) h.2 (ground (arith, other)) in
      (same' ∙ same, built' ∙ built)
]

Arrival-eq :
    (key : Bytes) (n : ℕ) (a : Arrival)
    → a.key ≡ key
    → a.num ≡ n
    → (let own : Arrival = record { key = key; num = n; socket = a.socket } in own ≡ a)
Arrival-eq key n a e f = λ i. record { key = sym e i; num = sym f i; socket = a.socket }

abbrev IsLast : Bytes → ℕ → List ℕ → ℕ → Builder → Arrival → Type 0
IsLast key n got socket b a =
    ((arrive a b).incomplete key ≡ none)
    × (built_for key (arrive a b).built ≡ built_for key b.built ++ (got ++ socket ∷ []) ∷ [])

abbrev IsNotLast : Bytes → ℕ → List ℕ → ℕ → Builder → Arrival → Type 0
IsNotLast key n got socket b a =
    ((arrive a b).incomplete key ≡ kept n (got ++ socket ∷ []))
    × (built_for key (arrive a b).built ≡ built_for key b.built)

gather :
    (key : Bytes) (n : ℕ) (got : List ℕ) (arrivals : List Arrival) (b : Builder)
    → AllAgree key n arrivals
    → b.incomplete key ≡ kept n got
    → n ≡ length got + length (sockets_of key arrivals)
    → 0 < length (sockets_of key arrivals)
    → (let after = arrive_all arrivals b in
        (after.incomplete key ≡ none)
        × (built_for key after.built
            ≡ built_for key b.built ++ (got ++ sockets_of key arrivals) ∷ []))
gather key n got [] b h e count some_left = absurd (omega arith)
gather key n got (a ∷ more) b h e count some_left = elim (Bool-cases (bytes_eq key a.key)) [
  | inr other ↦
      let (same, built) = arrive_other key a b h.0 other in
      let rest : sockets_of key (a ∷ more) ≡ sockets_of key more = rw other refl in
      let (gone, all) =
        gather key n got more (arrive a b) h.2 (same ∙ e) (omega (arith, count, ap length rest))
          (omega (arith, some_left, ap length rest)) in
      (gone, rw other (all ∙ ap (λ xs. xs ++ (got ++ sockets_of key more) ∷ []) built))
  | inl own ↦
      let (its, agrees) = h.1 own in
      let same_a = Arrival-eq key n a its agrees in
      let small : n < 100 = subst (λ k. k < 100) agrees h.0 in
      let rest : sockets_of key (a ∷ more) ≡ a.socket ∷ sockets_of key more = rw own refl in
      let sizes = length-append got (a.socket ∷ []) in
      elim (Bool-cases (n == length (got ++ a.socket ∷ []))) [
        | inl full ↦
            let (gone, built) =
              subst (IsLast key n got a.socket b) same_a
                (arrive_last key n a.socket got b small e (ground arith)) in
            let none_left : sockets_of key more ≡ [] =
              length-zero (sockets_of key more) (ground (arith, count, sizes, ap length rest)) in
            let (same, built') = others_arrive key n more (arrive a b) h.2 none_left in
            (same ∙ gone, rw (own, none_left) (built' ∙ built))
        | inr not_full ↦
            let (kept_now, built) =
              subst (IsNotLast key n got a.socket b) same_a
                (arrive_not_last key n a.socket got b small e not_full) in
            let (gone, all) =
              gather key n (got ++ a.socket ∷ []) more (arrive a b) h.2 kept_now
                (omega (arith, count, sizes, ap length rest))
                (ground (arith, count, sizes, ap length rest)) in
            (
              gone,
              rw own (
                  all ∙ (λ i.
                    built i ++ append_assoc got (a.socket ∷ []) (sockets_of key more) i ∷ [])),
            )
      ]
]

-- When the sockets of a client have all come, between sockets of other clients in any order,
-- exactly one more stream has been built for its key, with exactly these sockets in the order in
-- which they came, and nothing is kept for the key; if nothing was kept before, each header names
-- at most 99 connections, and those of the client name as many as there are.
pub arrive_all-built_for :
    (key : Bytes) (arrivals : List Arrival) (b : Builder)
    → AllAgree key (length (sockets_of key arrivals)) arrivals
    → b.incomplete key ≡ none
    → 0 < length (sockets_of key arrivals)
    → ((arrive_all arrivals b).incomplete key ≡ none)
      × (built_for key (arrive_all arrivals b).built
          ≡ built_for key b.built ++ sockets_of key arrivals ∷ [])
arrive_all-built_for key arrivals b h e some_come =
    gather key (length (sockets_of key arrivals)) [] arrivals b h e (omega arith) some_come
