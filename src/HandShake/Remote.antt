-- ===== src/HandShake/Remote.antt =====
-- Connecting to another server: `_remote_connect_cb` (src/RtmpClient.cpp) and
-- `_node_remote_connect_cb` (src/addon.cpp), which it calls.

use bls.Base.{
  sym, ◌∙◌, ℕ, ◌≡◌, ap, Bool, true, false, Option, none, some, List, [], ◌∷◌, ◌++◌, map, Mem,
  length,
}
use bls.World.{World, M}
use bls.Protocol.{Conn, P, ◌>>◌}
use bls.Protocol.Client.{close_socket}
use bls.Protocol.Receive.{start}
use bls.Protocol.Receive.Delivery.Whole.{IsIdle}
use bls.Protocol.Lifecycle.{new_conn, no_player, hand_shake_finish}
use bls.Protocol.Lifecycle.Started.{CanSend, write_of, hand_shake_finish_lem}
use bls.HandShake.{HandShake, received, finished, new_handshake, step_all, hs_write_private_sig}
use bls.HandShake.Pieces.{AllSome, join}
use bls.HandShake.Private.{step_all-hs_write_private_sig}

-- What is left of an attempt: the bytes written to the peer as they are, and the connection.
abbrev pub with_client :
    List ℕ → Option (Unit {0} × Conn × World) → Option (List ℕ × Option Conn × World)
with_client bytes none = none
with_client bytes (some (u, c, w)) = some (bytes, some c, w)

abbrev pub without_client : Option (Unit {0} × World) → Option (List ℕ × Option Conn × World)
without_client none = none
without_client (some (u, w)) = some ([], none, w)

-- What JavaScript does with the new client, or without one; what follows the literal of the signature;
-- and the buffer that it is copied to.
module _ (on_client : P (Unit {0})) (on_failure : M (Unit {0})) (beyond : List ℕ)
    (private_handshake_data : Mem) where
  -- `_node_remote_connect_cb`: the client's protocol starts at once.
  unfoldable pub node_remote_connect_cb :
      List ℕ → Option Conn → World → Option (List ℕ × Option Conn × World)
  unfolding start
  node_remote_connect_cb bytes none w = without_client (on_failure w)
  node_remote_connect_cb bytes (some c) w =
      with_client bytes ((start >> on_client) c (no_player c.client w))

  -- `_remote_connect_cb`; is the status an error? The new client has no server.
  unfoldable pub remote_connect_cb :
      Bool → ℕ → ℕ → Mem → World → Option (List ℕ × Option Conn × World)
  unfolding hs_write_private_sig node_remote_connect_cb
  remote_connect_cb true client node_buf_len node_read_buf w =
      node_remote_connect_cb [] none (close_socket client w)
  remote_connect_cb false client node_buf_len node_read_buf w =
      node_remote_connect_cb (hs_write_private_sig beyond private_handshake_data)
        (some (new_conn client false node_buf_len node_read_buf)) w

  -- One server connects to another. If the pool has four buckets at hand, which hold five bytes, and
  -- the socket is open, then the client that connects is handed to JavaScript with three more
  -- messages pending, behind some bytes, and waits for the first byte of a chunk, without a channel.
  -- If these bytes come to the other server in any pieces, none of them empty, then its handshake is
  -- finished with the last one, and it has not written a response. The compared length is that of the
  -- signature's literal and five bytes behind it, which are the same on both sides.
  pub remote_connect_cb_lem :
      (s_hand_shake : ℕ → Mem → Option (Mem × Mem)) (client len : ℕ) (buf m n : Mem) (w : World)
      (xs : List ℕ) (ps : List (List ℕ))
      → CanSend 4 client w
      → length beyond ≡ 5
      → AllSome (xs ∷ ps)
      → join (xs ∷ ps) ≡ hs_write_private_sig beyond private_handshake_data
      → (c' : Conn) × (w' : World) × (remote_connect_cb false client len buf w
          ≡ with_client (join (xs ∷ ps)) (on_client c' w'))
        × IsIdle c' w'
        × (c'.channels ≡ [])
        × ((ids : ℕ × ℕ × ℕ) × ((w'.socket client).pending
              ≡ (w.socket client).pending ++ write_of ids.0 ∷ write_of ids.1 ∷ write_of ids.2 ∷ []))
        × (hs : HandShake) × (step_all s_hand_shake beyond
              (map received (xs ∷ ps))
              (new_handshake m n)
            ≡ some hs)
        × (hs.phase ≡ finished)
        × (hs.serverbuf ≡ n)
  unfolding remote_connect_cb node_remote_connect_cb hand_shake_finish
  remote_connect_cb_lem s_hand_shake client len buf m n w xs ps k five a e =
      let (c1, w1, f, idle, none_yet, window, size, ids, sends) =
        hand_shake_finish_lem on_client client false len buf w k in
      let (hs, accepted, done, silent) =
        step_all-hs_write_private_sig s_hand_shake beyond xs ps m n private_handshake_data five a
          e in
      (
        c1,
        w1,
        ap (with_client (hs_write_private_sig beyond private_handshake_data)) f
            ∙ ap (λ bytes. with_client bytes (on_client c1 w1)) (sym e),
        idle,
        none_yet,
        (ids, sends),
        hs,
        accepted,
        done,
        silent,
      )
