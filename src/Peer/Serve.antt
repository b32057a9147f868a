-- ===== src/Peer/Serve.antt =====
-- CBTPeer::DoCmd of benliud_bt/src/BTPeer.cpp as the handler of the loop of ProcessData, and a request
-- on its way through both.
use benliud.Common.{ℕ, ◌<◌, ◌≡◌, true, false, List, [], ◌∷◌, ◌++◌, ◌==◌, if◌then◌else◌}
use benliud.Peer.Packets.{Handlers}
use benliud.Peer.Uploads.{
  BtPeer, PieceStore, on_close, is_me_allow_fast_piece, do_cmd_request, do_cmd_cancel,
  do_cmd_interested, do_cmd_not_interested,
}

-- The commands that `DoCmd` hands to other parts of the peer.
abbrev pub Others : Type 0
Others = BtPeer → ℕ → List ℕ → BtPeer × List ℕ

-- `DoCmd`
unfoldable pub do_cmd : Others → PieceStore → BtPeer → ℕ → List ℕ → BtPeer × List ℕ
do_cmd others s p id body =
    if id == 2
    then (do_cmd_interested p body, [])
    else if id == 3
    then (do_cmd_not_interested p body, [])
    else if id == 6
    then do_cmd_request s p body
    else if id == 8
    then (do_cmd_cancel p body, [])
    else others p id body

-- The calls of the loop of `ProcessData`, on a peer and the bytes it has sent.
abbrev pub handlers : Others → PieceStore → Handlers (BtPeer × List ℕ)
handlers others s = record {
  on_cmd = λ p id body. let r = do_cmd others s p.0 id body in (r.0, p.1 ++ r.1);
  active = λ p. p;
  close = λ p. (on_close p.0, p.1);
  is_open = λ p. p.0.linked;
}

-- The connection is open, and the peer may ask for the piece, which the storage has; nothing is queued.
pub record IsReady (s : PieceStore) (p : BtPeer) (index : ℕ) : Type 0 where
  pub linked : p.linked ≡ true
  pub shaked : p.shaked ≡ true
  pub send_bit_set : p.send_bit_set ≡ true
  pub un_choked : p.me_choke_peer ≡ false
  pub no_seed : p.seed ≡ false
  pub not_allow_fast : is_me_allow_fast_piece p index ≡ false
  pub nothing_queued : p.peer_request_list ≡ []
  pub in_range : index < s.piece_count
  pub not_negative : index < 2147483648
  pub finished : s.is_finished_piece index ≡ true

-- The peer with one request queued.
abbrev asked_one : BtPeer → ℕ → ℕ → ℕ → BtPeer
asked_one p index offset len = record p {
  peer_request_list = record { index = index; offset = offset; len = len } ∷ [];
}
