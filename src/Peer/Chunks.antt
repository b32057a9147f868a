-- ===== src/Peer/Chunks.antt =====
-- The loop of CBTPeer::ProcessData of benliud_bt/src/BTPeer.cpp on bytes that come in parts.
use benliud.Common.{
  ℕ, zero, suc, ◌+◌, ◌-◌, ◌≤◌, ◌≡◌, ◌⊎◌, refl, sym, ap, ap₂, ◌∙◌, arith, List, [], ◌∷◌, ◌++◌,
  length, get_or, take, drop, ltb, leb, ◌==◌, Bool-cases, inl, inr, leb→le, le→leb, true,
  if◌then◌else◌, if_true, append_assoc, length-append,
}
use benliud.SingleRequest.{chunk_len}
use benliud.Peer.{ntohl}
use benliud.Peer.Packets.{
  Front, incomplete, too_long, keep_alive, command, front_of, front, Link, waiting, bad_data,
  Handlers, packet_round, process_data, resume, reads, recv_data,
}

-- What is left behind the front.
abbrev pub rest_of : Front → List ℕ
rest_of incomplete = []
rest_of too_long = []
rest_of (keep_alive rest) = rest
rest_of (command id body rest) = rest

-- The same front with more bytes behind it.
abbrev pub extend : Front → List ℕ → Front
extend incomplete more = incomplete
extend too_long more = too_long
extend (keep_alive rest) more = keep_alive (rest ++ more)
extend (command id body rest) more = command id body (rest ++ more)

abbrev pub IsWhole : Front → Type 0
IsWhole incomplete = ⊥
IsWhole _ = Unit

length-drop : (n : ℕ) (xs : List ℕ) → length (drop n xs) ≤ length xs
length-drop zero xs = omega arith
length-drop (suc n) [] = omega arith
length-drop (suc n) (x ∷ xs) = omega (arith, length-drop n xs)

front_of-shorter : (n : ℕ) (xs : List ℕ) → length (rest_of (front_of n xs)) ≤ length xs
unfolding front_of
front_of-shorter n xs = ground (arith, length-drop n xs)

pub front-shorter : (xs : List ℕ) (n : ℕ) → length xs ≤ suc n → length (rest_of (front xs)) ≤ n
unfolding front
front-shorter [] n h = omega arith
front-shorter (a ∷ []) n h = omega arith
front-shorter (a ∷ b ∷ []) n h = omega arith
front-shorter (a ∷ b ∷ c ∷ []) n h = omega arith
front-shorter (a ∷ b ∷ c ∷ d ∷ xs) n h = omega (arith, front_of-shorter (ntohl a b c d) xs)

take-prefix : (n : ℕ) (xs ys : List ℕ) → n ≤ length xs → take n (xs ++ ys) ≡ take n xs
take-prefix zero xs ys h = refl
take-prefix (suc n) [] ys h = absurd (omega arith)
take-prefix (suc n) (x ∷ xs) ys h = ap (◌∷◌ x) (take-prefix n xs ys (omega arith))

drop-prefix : (n : ℕ) (xs ys : List ℕ) → n ≤ length xs → drop n (xs ++ ys) ≡ drop n xs ++ ys
drop-prefix zero xs ys h = refl
drop-prefix (suc n) [] ys h = absurd (omega arith)
drop-prefix (suc n) (x ∷ xs) ys h = drop-prefix n xs ys (omega arith)

command_extend :
    (n : ℕ) (xs more : List ℕ)
    → 1 ≤ n
    → n ≤ length xs
    → command (get_or (xs ++ more) 0 0) (take (n - 1) (drop 1 (xs ++ more))) (drop n (xs ++ more))
      ≡ command (get_or xs 0 0) (take (n - 1) (drop 1 xs)) (drop n xs ++ more)
command_extend n [] more l m = absurd (omega arith)
command_extend n (x ∷ xs) more l m =
    ap₂ (command x) (take-prefix (n - 1) xs more (omega arith)) (drop-prefix n (x ∷ xs) more m)

-- With more bytes the front is the same, unless it was incomplete.
front_of-extend :
    (n : ℕ) (xs more : List ℕ)
    → (front_of n xs ≡ incomplete)
      ⊎ (IsWhole (front_of n xs) × (front_of n (xs ++ more) ≡ extend (front_of n xs) more))
unfolding front_of
front_of-extend n xs more = elim (Bool-cases (n == 0)) [
  | inl e ↦ rw e (inr (tt, refl))
  | inr e ↦ rw e (elim (Bool-cases (ltb (4 + 8 + chunk_len) n)) [
    | inl l ↦ rw l (inr (tt, refl))
    | inr l ↦ rw l (elim (Bool-cases (leb (n + 4) (length xs + 4))) [
      | inr f ↦ rw f (inl refl)
      | inl f ↦
          rw
            (
              f,
              le→leb (n + 4) (length (xs ++ more) + 4)
                  (omega (arith, leb→le (n + 4) (length xs + 4) f, length-append xs more)),
            )
            (inr (
              tt,
              command_extend n xs more (ground (arith, e))
                  (omega (arith, leb→le (n + 4) (length xs + 4) f)),
            ))
    ])
  ])
]

pub front-extend :
    (xs more : List ℕ)
    → (front xs ≡ incomplete) ⊎ (IsWhole (front xs) × (front (xs ++ more) ≡ extend (front xs) more))
unfolding front
front-extend [] more = inl refl
front-extend (a ∷ []) more = inl refl
front-extend (a ∷ b ∷ []) more = inl refl
front-extend (a ∷ b ∷ c ∷ []) more = inl refl
front-extend (a ∷ b ∷ c ∷ d ∷ xs) more = front_of-extend (ntohl a b c d) xs more

whole_some : (xs : List ℕ) → IsWhole (front xs) → 1 ≤ length xs
unfolding front
whole_some [] w = absurd w
whole_some (x ∷ xs) w = omega arith

module _ {ℓ} {P : Type ℓ} (h : Handlers P) where
  -- Rounds that go on alike behind the front.
  packet_round_alike :
      (f g : P → List ℕ → Link P) (p : P) (xs : List ℕ) (k : Front)
      → ((q : P) (ys : List ℕ) → length ys ≤ length (rest_of k) → f q ys ≡ g q ys)
      → packet_round h f p xs k ≡ packet_round h g p xs k
  unfolding packet_round
  packet_round_alike f g p xs incomplete s = refl
  packet_round_alike f g p xs too_long s = refl
  packet_round_alike f g p xs (keep_alive ys) s = s (h.active p) ys (omega arith)
  packet_round_alike f g p xs (command id body ys) s = s (h.on_cmd p id body) ys (omega arith)

  no_data : (f : ℕ) (p : P) → waiting p [] ≡ process_data h (suc f) p []
  unfolding process_data packet_round front
  no_data f p = refl

  closed_receive : (p : P) (more : List ℕ) → resume h (bad_data p) more ≡ bad_data p
  unfolding resume
  closed_receive p more = refl

  -- Fuel for every byte is enough.
  pub process_data_fuel :
      (f g : ℕ) (p : P) (xs : List ℕ)
      → length xs ≤ f
      → length xs ≤ g
      → process_data h f p xs ≡ process_data h g p xs
  unfolding process_data
  process_data_fuel zero zero p xs a b = refl
  process_data_fuel zero (suc g) p [] a b = no_data g p
  process_data_fuel zero (suc g) p (x ∷ xs) a b = absurd (omega arith)
  process_data_fuel (suc f) zero p [] a b = sym (no_data f p)
  process_data_fuel (suc f) zero p (x ∷ xs) a b = absurd (omega arith)
  process_data_fuel (suc f) (suc g) p xs a b =
      packet_round_alike (process_data h f) (process_data h g) p xs (front xs) (λ q ys l.
        process_data_fuel f g q ys (omega (arith, l, front-shorter xs f a))
          (omega (arith, l, front-shorter xs g b)))

  -- The rounds on what came first, and then on the rest, are the rounds on all of it.
  packet_round-extend :
      (f g : P → List ℕ → Link P) (p : P) (xs more : List ℕ) (k : Front)
      → IsWhole k
      → ((q : P) (ys : List ℕ)
          → length ys ≤ length (rest_of k)
          → resume h (f q ys) more ≡ g q (ys ++ more))
      → resume h (packet_round h f p xs k) more ≡ packet_round h g p (xs ++ more) (extend k more)
  unfolding packet_round
  packet_round-extend f g p xs more incomplete w s = absurd w
  packet_round-extend f g p xs more too_long w s = closed_receive (h.close p) more
  packet_round-extend f g p xs more (keep_alive ys) w s = s (h.active p) ys (omega arith)
  packet_round-extend f g p xs more (command id body ys) w s =
      s (h.on_cmd p id body) ys (omega arith)

  waiting_receive :
      (g : ℕ) (p : P) (xs more : List ℕ)
      → length (xs ++ more) ≤ g
      → resume h (waiting p xs) more ≡ process_data h g p (xs ++ more)
  unfolding resume
  waiting_receive g p xs more b =
      process_data_fuel (length (xs ++ more)) g p (xs ++ more) (omega arith) b

  resume-process_data :
      (f g : ℕ) (p : P) (xs more : List ℕ)
      → length xs ≤ f
      → length (xs ++ more) ≤ g
      → resume h (process_data h f p xs) more ≡ process_data h g p (xs ++ more)
  unfolding process_data packet_round
  resume-process_data zero g p xs more a b = waiting_receive g p xs more b
  resume-process_data (suc f) zero p [] more a b =
      ap (λ link. resume h link more) (sym (no_data f p)) ∙ waiting_receive zero p [] more b
  resume-process_data (suc f) zero p (x ∷ xs) more a b = absurd (omega arith)
  resume-process_data (suc f) (suc g) p xs more a b = elim (front-extend xs more) [
    | inl e ↦
        ap (λ k. resume h (packet_round h (process_data h f) p xs k) more) e
        ∙ waiting_receive (suc g) p xs more b
    | inr w ↦
        packet_round-extend (process_data h f) (process_data h g) p xs more (front xs) w.0
          (λ q ys l. resume-process_data f g q ys more (omega (arith, l, front-shorter xs f a)) (
            omega (
              arith,
              l,
              b,
              front-shorter xs (length xs - 1) (omega arith),
              whole_some xs w.0,
              length-append xs more,
              length-append ys more,
            )))
        ∙ ap (packet_round h (process_data h g) p (xs ++ more)) (sym w.1)
  ]

  pub resume_append :
      (link : Link P) (xs ys : List ℕ) → resume h (resume h link xs) ys ≡ resume h link (xs ++ ys)
  unfolding resume
  resume_append (waiting p buffer) xs ys =
      resume-process_data (length (buffer ++ xs)) (length ((buffer ++ xs) ++ ys)) p (buffer ++ xs)
        ys (omega arith) (omega arith)
      ∙ ap (λ b. process_data h (length b) p b) (append_assoc buffer xs ys)
  resume_append (bad_data p) xs ys = refl

  pub recv_data_open :
      (link : Link P) (bytes : List ℕ)
      → reads h link ≡ true
      → recv_data h link bytes ≡ resume h link bytes
  unfolding recv_data
  recv_data_open link bytes o = if_true (reads h link) _ _ o

  -- Bytes that come in two parts are received like the whole, unless a message in the first part closes
  -- the connection, or it was closed before; then the second part is not read.
  pub recv_data_append :
      (link : Link P) (xs ys : List ℕ)
      → recv_data h (recv_data h link xs) ys ≡ (
          if reads h (recv_data h link xs)
          then recv_data h link (xs ++ ys)
          else recv_data h link xs)
  unfolding recv_data
  recv_data_append link xs ys = elim (Bool-cases (reads h link)) [
    | inr c ↦ rw c (rw c refl)
    | inl o ↦
        let first = resume h link xs in
        rw o (ap (λ l. if reads h first then l else first) (resume_append link xs ys))
  ]
