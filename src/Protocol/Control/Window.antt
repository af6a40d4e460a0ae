-- ===== src/Protocol/Control/Window.antt =====
-- When a connection acknowledges what it has received (`process_window_ack` of src/RtmpProtocol.cpp).
use bls.Base.{ℕ, ◌+◌, ◌%◌, ◌^◌, ◌≤◌, ◌<◌, ◌≡◌, ◌≢◌, ◌⊎◌, arith, true, false, some, Returns}
use bls.Bytes.{bytes_4}
use bls.Pool.Inv.{Inv}
use bls.World.{World}
use bls.Protocol.{Conn}
use bls.Protocol.Control.{process_window_ack, counted, is_ack_due, response_window_ack}
use bls.Protocol.Control.Sent.{Sent, HasBucket, send_control-Sent}

-- What has come is added to both counters. If the acknowledgement window is set and what had come
-- since the last acknowledgement and comes now are together the window or more, that counter starts
-- again at 0 and one control message of type 3 goes out, with the new total in its four bytes;
-- if the window is not set or they are less, both counters grow and nothing else changes. For the
-- message, the pool must be able to give a bucket of at least four bytes and the socket must be
-- open; neither counter may pass 64 bits.
pub process_window_ack_lem :
    (c : Conn) (w : World) (recved : ℕ)
    → Inv w.pool
    → HasBucket w.pool
    → 4 ≤ w.pool.payload_size
    → (w.socket c.client).is_open ≡ true
    → c.acked_size + recved < 2 ^ 64
    → c.total_recved_size + recved < 2 ^ 64
    → (c.window_size ≢ 0
        → c.window_size ≤ c.acked_size + recved
        → Returns (process_window_ack recved c w) (
            Sent
              (record c { acked_size = 0; total_recved_size = c.total_recved_size + recved })
              w
              3
              (bytes_4 (c.total_recved_size + recved))))
      × ((c.window_size ≡ 0) ⊎ (c.acked_size + recved < c.window_size)
          → process_window_ack recved c w
            ≡ some (
              tt,
              record c {
                acked_size = c.acked_size + recved;
                total_recved_size = c.total_recved_size + recved;
              },
              w,
            ))
unfolding process_window_ack response_window_ack
process_window_ack_lem c w recved v room fits is_up low small =
    let same_acked : (c.acked_size + recved) % 2 ^ 64 ≡ c.acked_size + recved =
      omega (arith, low) in
    let same_total : (c.total_recved_size + recved) % 2 ^ 64 ≡ c.total_recved_size + recved =
      omega (arith, small) in
    (
      λ set reached.
          let due : is_ack_due (counted recved c) ≡ true = ground (arith, set, reached, low) in
          rw (due, same_total)
            (send_control-Sent
              (record c { acked_size = 0; total_recved_size = c.total_recved_size + recved }) w 3
              (bytes_4 (c.total_recved_size + recved)) v room fits is_up),
      λ early.
          let due : is_ack_due (counted recved c) ≡ false = ground (arith, early, low) in
          rw (due, same_acked, same_total),
    )
