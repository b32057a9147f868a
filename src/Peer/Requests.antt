-- ===== src/Peer/Requests.antt =====
-- The queue of the peer's requests in benliud_bt/src/BTPeer.cpp, and DoCmdRequest, which fills it.
use benliud.Common.{
  ℕ, ◌≤◌, ◌<◌, ◌≡◌, refl, sym, subst, ◌∙◌, arith, Bool, true, false, not, ◌&&◌, ◌||◌, List, [], ◌∷◌,
  ◌++◌, Option, none, some, length, All, All-append, leb, ◌==◌, if◌then◌else◌, Bool-cases, inl, inr,
  length-append,
}
use benliud.Common.Search.{find_first, remove_first, find_first-none, remove_first-All}
use benliud.Peer.{word_at}
use benliud.Peer.Uploads.{
  PeerBlockRequest, BtPeer, PieceStore, peer_request_size, on_close, asks, is_me_allow_fast_piece,
  queue_request, request_block, do_cmd_request,
}

-- No request asks for the block.
abbrev pub Unasked : PeerBlockRequest → List PeerBlockRequest → Type 0
Unasked r = All (λ q. asks r.index r.offset q ≡ false)

-- No block is asked for twice.
abbrev pub Distinct : List PeerBlockRequest → Type 0
Distinct [] = Unit
Distinct (r ∷ rs) = Unasked r rs × Distinct rs

-- The request is for a piece of the torrent that the storage has.
abbrev pub Serves : PieceStore → PeerBlockRequest → Type 0
Serves s r = (r.index < s.piece_count) × (s.is_finished_piece r.index ≡ true)

-- At most 24 requests, for different blocks of pieces the storage has; none while the peer is choked,
-- unless it has the fast extension.
pub record IsQueue (s : PieceStore) (p : BtPeer) : Type 0 where
  pub few : length p.peer_request_list ≤ peer_request_size
  pub distinct : Distinct p.peer_request_list
  pub serves : All (Serves s) p.peer_request_list
  pub choked : p.fast_extension ≡ false → p.me_choke_peer ≡ true → p.peer_request_list ≡ []

asks_sym :
    (i o : ℕ) (l : ℕ) (r : PeerBlockRequest)
    → asks i o r ≡ false
    → asks r.index r.offset (record { index = i; offset = o; len = l }) ≡ false
unfolding asks
asks_sym i o l r h = ground arith

Distinct-snoc :
    (rs : List PeerBlockRequest) (r : PeerBlockRequest)
    → Distinct rs
    → Unasked r rs
    → Distinct (rs ++ r ∷ [])
Distinct-snoc [] r d a = (tt, tt)
Distinct-snoc (q ∷ qs) r d a = (
  All-append (λ y. asks q.index q.offset y ≡ false) qs (r ∷ []) d.0
      (asks_sym r.index r.offset r.len q a.0, tt),
  Distinct-snoc qs r d.1 a.1,
)

pub remove_first-Distinct :
    (test : PeerBlockRequest → Bool) (rs : List PeerBlockRequest)
    → Distinct rs
    → Distinct (remove_first test rs)
unfolding remove_first
remove_first-Distinct test [] d = tt
remove_first-Distinct test (r ∷ rs) d = elim (Bool-cases (test r)) [
  | inl e ↦ rw e d.1
  | inr e ↦ rw e (
    remove_first-All (λ q. asks r.index r.offset q ≡ false) test rs d.0,
    remove_first-Distinct test rs d.1,
  )
]

pub length-remove_le :
    (test : PeerBlockRequest → Bool) (rs : List PeerBlockRequest)
    → length (remove_first test rs) ≤ length rs
unfolding remove_first
length-remove_le test [] = omega arith
length-remove_le test (r ∷ rs) = ground (arith, length-remove_le test rs)

-- A peer that may have a request is not choked, or has the fast extension.
abbrev MayAsk : BtPeer → Type 0
MayAsk p = p.fast_extension ≡ false → p.me_choke_peer ≡ true → ⊥

push-IsQueue :
    (s : PieceStore) (p : BtPeer) (r : PeerBlockRequest)
    → MayAsk p
    → Serves s r
    → Unasked r p.peer_request_list
    → length p.peer_request_list < peer_request_size
    → IsQueue s p
    → IsQueue s (record p { peer_request_list = p.peer_request_list ++ r ∷ [] })
push-IsQueue s p r m v a l q = record {
  few = omega (arith, l, length-append p.peer_request_list (r ∷ []));
  distinct = Distinct-snoc p.peer_request_list r q.distinct a;
  serves = All-append (Serves s) p.peer_request_list (r ∷ []) q.serves (v, tt);
  choked = λ f c. absurd (m f c);
}

-- A property of both branches of a test.
pub both :
    (s : PieceStore) (c : Bool) (x y : BtPeer × List ℕ)
    → (c ≡ true → IsQueue s x.0)
    → (c ≡ false → IsQueue s y.0)
    → IsQueue s (if c then x else y).0
both s true x y f g = f refl
both s false x y f g = g refl

pub both_states :
    (s : PieceStore) (c : Bool) (p q : BtPeer)
    → (c ≡ true → IsQueue s p)
    → (c ≡ false → IsQueue s q)
    → IsQueue s (if c then p else q)
both_states s true p q f g = f refl
both_states s false p q f g = g refl

unless_found :
    (s : PieceStore) (o : Option PeerBlockRequest) (x y : BtPeer × List ℕ)
    → IsQueue s x.0
    → (o ≡ none → IsQueue s y.0)
    → IsQueue s (elim o as (λ _. BtPeer × List ℕ) [ some r ↦ x | none ↦ y ]).0
unless_found s none x y f g = g refl
unless_found s (some r) x y f g = f

queue_request-IsQueue :
    (s : PieceStore) (p : BtPeer) (i o l : ℕ)
    → MayAsk p
    → i < s.piece_count
    → IsQueue s p
    → IsQueue s (queue_request s p i o l).0
unfolding queue_request
queue_request-IsQueue s p i o l m b q =
    unless_found s (find_first (asks i o) p.peer_request_list) _ _ q (λ n.
      both s (leb peer_request_size (length p.peer_request_list)) _ _ (λ _. q)
        (λ e.
          both s (not (s.is_finished_piece i)) _ _ (λ _. q)
            (λ f.
              push-IsQueue s p (record { index = i; offset = o; len = l }) m (b, ground (arith, f))
                (find_first-none (asks i o) p.peer_request_list n) (ground (arith, e)) q)))

pub same-IsQueue :
    (s : PieceStore) (p r : BtPeer)
    → p.peer_request_list ≡ r.peer_request_list
    → p.fast_extension ≡ r.fast_extension
    → p.me_choke_peer ≡ r.me_choke_peer
    → IsQueue s p
    → IsQueue s r
same-IsQueue s p r a b c q = record {
  few = subst (λ l. length l ≤ peer_request_size) a q.few;
  distinct = subst Distinct a q.distinct;
  serves = subst (All (Serves s)) a q.serves;
  choked = λ f d. sym a ∙ q.choked (b ∙ f) (c ∙ d);
}

pub on_close-IsQueue : (s : PieceStore) (p : BtPeer) → IsQueue s p → IsQueue s (on_close p)
unfolding on_close
on_close-IsQueue s p q = same-IsQueue s p _ refl refl refl q

in_range : (i n : ℕ) → (leb 2147483648 i || leb n i) ≡ false → i < n
in_range i n e = ground arith

request_block-IsQueue :
    (s : PieceStore) (p : BtPeer) (i o l : ℕ) → IsQueue s p → IsQueue s (request_block s p i o l).0
unfolding request_block
request_block-IsQueue s p i o l q =
    both s (leb 2147483648 i || leb s.piece_count i) _ _ (λ _. on_close-IsQueue s p q)
      (λ e.
        both s (p.fast_extension && is_me_allow_fast_piece p i) _ _ (λ _. q)
          (λ _.
            both s p.seed _ _ (λ _. q)
              (λ _.
                both s (not p.fast_extension && p.me_choke_peer) _ _ (λ _. q)
                  (λ c.
                    both s (p.fast_extension && p.me_choke_peer) _ _ (λ _. q)
                      (λ _.
                        queue_request-IsQueue s p i o l (λ f d. ground (arith, c, f, d))
                          (in_range i s.piece_count e) q)))))

pub do_cmd_request-IsQueue :
    (s : PieceStore) (p : BtPeer) (body : List ℕ)
    → IsQueue s p
    → IsQueue s (do_cmd_request s p body).0
unfolding do_cmd_request
do_cmd_request-IsQueue s p body q =
    both s (not p.shaked) _ _ (λ _. q)
      (λ _.
        both s (not (length body == 12)) _ _ (λ _. q)
          (λ _.
            both s (not p.send_bit_set) _ _ (λ _. q)
              (λ _.
                request_block-IsQueue s p (word_at 0 body) (word_at 4 body) (word_at 8 body) q)))
