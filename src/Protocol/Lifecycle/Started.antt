-- ===== src/Protocol/Lifecycle/Started.antt =====
-- A connection that has just begun (src/RtmpProtocol.cpp, src/RtmpClient.cpp).
use mathlib.Core.List.{append_assoc}
use bls.Base.{
  ℕ, ◌+◌, ◌≤◌, ◌≡◌, refl, ap, ◌∙◌, inl, Bool, true, false, none, some, List, [], ◌∷◌, ◌++◌, Mem,
  arith, Returns, Returns-elim, length,
}
use bls.Bytes.{bytes_1, bytes_4}
use bls.Pool.Inv.{Inv}
use bls.World.{World, Write, both}
use bls.World.Encode.Made.{refill_full}
use bls.Protocol.{Conn, P, bind, ◌>>◌}
use bls.Protocol.Control.{send_control, set_window_ack_size, set_peer_bandwidth, set_chunk_size}
use bls.Protocol.Control.Sent.{Sent, send_control-Sent}
use bls.Protocol.Machine.{expect_chunk}
use bls.Protocol.Receive.{start}
use bls.Protocol.Receive.Delivery.{Quiet}
use bls.Protocol.Receive.Delivery.Whole.{IsIdle}
use bls.Protocol.Receive.Idle.{Begins, expect_chunk-IsIdle}
use bls.Protocol.Lifecycle.{hand_shake_finish, new_conn, no_player}

-- The pool has `n` buckets at hand, for small messages to an open socket.
pub record CanSend (n client : ℕ) (w : World) : Type 0 where
  pub inv : Inv w.pool
  pub has_buckets : n ≤ length w.pool.queue
  pub big_enough : 5 ≤ w.pool.payload_size
  pub is_open : (w.socket client).is_open ≡ true

-- What is sent on a bucket joins the pending writes.
abbrev pub Sends : ℕ → World → World → Type 0
Sends client w w' =
    (id : ℕ) × ((w'.socket client).pending
      ≡ (w.socket client).pending ++ record { bucket = id; part = both; custom = none } ∷ [])

send_one :
    (n type_id : ℕ) (payload : List ℕ) (c : Conn) (w : World)
    → length payload ≤ 5
    → CanSend (n + 1) c.client w
    → (w' : World) × (send_control type_id payload c w ≡ some (tt, c, w'))
      × CanSend n c.client w'
      × Sends c.client w w'
send_one n type_id payload c w l k =
    let full = refill_full w.pool (omega (arith, k.has_buckets)) in
    let (r, e, s) = Returns-elim (send_control type_id payload c w) (Sent c w type_id payload) (
      send_control-Sent c w type_id payload k.inv
        (inl (λ z. absurd (omega (arith, k.has_buckets, ap length z))))
        (omega (arith, l, k.big_enough)) k.is_open) in
    (
      r.2,
      e ∙ ap (λ d. some (tt, d, r.2)) s.conn_kept,
      record {
        inv = s.inv;
        has_buckets = omega (arith, k.has_buckets, s.queue_shorter, ap (λ p. length p.queue) full);
        big_enough = omega (arith, k.big_enough, s.payload_size_kept);
        is_open = s.still_open ∙ k.is_open;
      },
      (s.bucket, s.pending),
    )

-- A write of a whole bucket.
abbrev pub write_of : ℕ → Write
write_of id = record { bucket = id; part = both; custom = none }

-- The three messages of `start`, and then a connection that waits for the first byte of a chunk.
pub record HasStarted (c : Conn) (w : World) (r : Unit {0} × Conn × World) : Type 0 where
  pub ids : ℕ × ℕ × ℕ
  pub sends :
      (r.2.socket c.client).pending
      ≡ (w.socket c.client).pending ++ write_of ids.0 ∷ write_of ids.1 ∷ write_of ids.2 ∷ []
  pub is_idle : IsIdle r.1 r.2
  pub channels_kept : r.1.channels ≡ c.channels
  pub window_kept : r.1.window_size ≡ c.window_size
  pub chunk_size_kept : r.1.chunk_size ≡ c.chunk_size

start-HasStarted :
    (c : Conn) (w : World)
    → CanSend 4 c.client w
    → c.is_closed ≡ false
    → Quiet c 0
    → Begins c
    → Returns (start c w) (HasStarted c w)
unfolding start set_window_ack_size set_peer_bandwidth set_chunk_size
start-HasStarted c w k h q b =
    let ack = bytes_4 2500000 in
    let band = bytes_4 2500000 ++ bytes_1 2 in
    let size = bytes_4 8192 in
    let (w1, e1, k1, s1) = send_one 3 5 ack c w (omega arith) k in
    let (w2, e2, k2, s2) = send_one 2 6 band c w1 (omega arith) k1 in
    let (w3, e3, k3, s3) = send_one 1 1 size c w2 (omega arith) k2 in
    let (r, e, (idle, kept, window, chunks, socket)) = Returns-elim (expect_chunk c w3) _ (
      expect_chunk-IsIdle c w3 k3.inv
        (inl (λ z. absurd (omega (arith, k3.has_buckets, ap length z)))) h q b) in
    rw
      (bind (set_window_ack_size 2500000)
          (λ _. set_peer_bandwidth 2500000 2 >> (set_chunk_size >> expect_chunk)) e1
        ∙ bind (set_peer_bandwidth 2500000 2) (λ _. set_chunk_size >> expect_chunk) e2
        ∙ bind set_chunk_size (λ _. expect_chunk) e3
        ∙ e)
      (record {
        ids = (s1.0, s2.0, s3.0);
        sends =
            ap (λ f. (f c.client).pending) socket
            ∙ s3.1
            ∙ ap (λ x. x ++ write_of s3.0 ∷ []) (s2.1 ∙ ap (λ x. x ++ write_of s2.0 ∷ []) s1.1)
            ∙ ap (λ x. x ++ write_of s3.0 ∷ [])
                (append_assoc (w.socket c.client).pending (write_of s1.0 ∷ []) (write_of s2.0 ∷ []))
            ∙ append_assoc (w.socket c.client).pending (write_of s1.0 ∷ write_of s2.0 ∷ [])
                (write_of s3.0 ∷ []);
        is_idle = idle;
        channels_kept = kept;
        window_kept = window;
        chunk_size_kept = chunks;
      })

-- If the pool has four buckets at hand, which hold five bytes, and the socket is open, then a client
-- whose handshake has finished is handed to JavaScript with three more writes pending on its socket
-- and waits for the first byte of a chunk, on a connection that has no channel and no acknowledgement
-- window yet and whose peer's chunks have 128 bytes.
pub hand_shake_finish_lem :
    (g_connect_cb : P (Unit {0})) (client : ℕ) (has_server : Bool) (len : ℕ) (buf : Mem) (w : World)
    → CanSend 4 client w
    → (c' : Conn) × (w' : World) × (hand_shake_finish g_connect_cb client has_server len buf w
        ≡ g_connect_cb c' w')
      × IsIdle c' w'
      × (c'.channels ≡ [])
      × (c'.window_size ≡ 0)
      × (c'.chunk_size ≡ 128)
      × (ids : ℕ × ℕ × ℕ) × ((w'.socket client).pending
          ≡ (w.socket client).pending ++ write_of ids.0 ∷ write_of ids.1 ∷ write_of ids.2 ∷ [])
unfolding hand_shake_finish
hand_shake_finish_lem g client has_server len buf w k =
    let c = new_conn client has_server len buf in
    let w0 = no_player client w in
    let k0 : CanSend 4 client w0 = record {
      inv = k.inv;
      has_buckets = k.has_buckets;
      big_enough = k.big_enough;
      is_open = k.is_open;
    } in
    let (r, e, s) =
      Returns-elim (start c w0) (HasStarted c w0)
        (start-HasStarted c w0 k0 refl (inl refl) (inl refl)) in
    (
      r.1,
      r.2,
      bind start (λ _. g) e,
      s.is_idle,
      s.channels_kept,
      s.window_kept,
      s.chunk_size_kept,
      s.ids,
      s.sends,
    )
