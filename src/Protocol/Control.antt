-- ===== src/Protocol/Control.antt =====
-- The protocol control messages that the server sends (src/RtmpProtocol.cpp).
pub mod Sent
pub mod Window
use bls.Base.{
  ℕ, ◌+◌, ◌%◌, ◌^◌, Bool, true, false, not, ◌&&◌, none, List, [], ◌∷◌, ◌++◌, length, ltb, leb, ◌==◌,
  if◌then◌else◌,
}
use bls.Bytes.{bytes_1, bytes_2, bytes_4}
use bls.Chunk.{rtmp_cid_protocol_control, default_chunk_bucket_size}
use bls.World.Buckets.{alloc_bucket, wrap, fill_payload, free_bucket}
use bls.World.Writes.{rtmp_write_chunk}
use bls.Protocol.{Conn, P, ◌>>=◌, ◌>>◌, pure, conn, modify, lift}
use bls.Protocol.Client.{close}

-- What these messages have in common: one bucket with the payload, written and let go.
unfoldable pub send_control : ℕ → List ℕ → P (Unit {0})
unfolding rtmp_write_chunk
send_control type_id payload = do
  c ← conn
  b ← lift alloc_bucket
  lift (wrap b 0 rtmp_cid_protocol_control 0 (length payload) type_id 0)
  lift (fill_payload b payload)
  lift (rtmp_write_chunk c.client b none)
  lift (free_bucket b)

unfoldable pub set_window_ack_size : ℕ → P (Unit {0})
unfolding send_control
set_window_ack_size w = send_control 5 (bytes_4 w)

unfoldable pub set_peer_bandwidth : ℕ → ℕ → P (Unit {0})
unfolding send_control
set_peer_bandwidth w type = send_control 6 (bytes_4 w ++ bytes_1 type)

unfoldable pub set_chunk_size : P (Unit {0})
unfolding send_control
set_chunk_size = send_control 1 (bytes_4 default_chunk_bucket_size)

unfoldable pub send_stream_eof : P (Unit {0})
unfolding send_control
send_stream_eof = send_control 4 (bytes_2 1 ++ bytes_4 1)

unfoldable pub send_stream_begin : P (Unit {0})
unfolding send_control
send_stream_begin = send_control 4 (bytes_2 0 ++ bytes_4 1)

-- `time(NULL)` is an argument.
unfoldable pub send_ping_request : ℕ → P (Unit {0})
unfolding send_control
send_ping_request now = send_control 4 (bytes_2 6 ++ bytes_4 now)

unfoldable pub send_pong_response : ℕ → P (Unit {0})
unfolding send_control
send_pong_response t = send_control 4 (bytes_2 7 ++ bytes_4 t)

unfoldable pub response_window_ack : P (Unit {0})
unfolding send_control
response_window_ack = do c ← conn; send_control 3 (bytes_4 c.total_recved_size)

-- `ping_pong_cb`: no answer since the last request closes the client.
unfoldable pub ping_pong_cb : ℕ → P (Unit {0})
unfolding close send_ping_request
ping_pong_cb now = do
  c ← conn
  if not c.pong_get
      then close
      else (modify (λ c. record c { pong_get = false }) >> send_ping_request now)

-- The counters of `process_window_ack`, and whether an acknowledgement is due.
abbrev pub counted : ℕ → Conn → Conn
counted recved c = record c {
  acked_size = (c.acked_size + recved) % 2 ^ 64;
  total_recved_size = (c.total_recved_size + recved) % 2 ^ 64;
}

abbrev pub is_ack_due : Conn → Bool
is_ack_due c = leb c.window_size c.acked_size && not (c.window_size == 0)

unfoldable pub process_window_ack : ℕ → P (Unit {0})
unfolding response_window_ack
process_window_ack recved = do
  modify (counted recved)
  c ← conn
  if is_ack_due c
      then (modify (λ c. record c { acked_size = 0 }) >> response_window_ack)
      else pure tt
