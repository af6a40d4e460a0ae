-- ===== src/Examples/Connections.antt =====
-- The protocol at concrete connections.
use bls.Base.{
  ◌/◌, length, ℕ, ◌+◌, ◌%◌, ◌^◌, ◌<◌, ◌≤◌, ◌≡◌, refl, inr, true, false, some, none, [], ◌∷◌, ◌++◌,
  ◌≢◌, ◌⊎◌, arith, Returns, if◌then◌else◌, ◌==◌,
}
use bls.Bytes.{bytes_4}
use bls.Chunk.{ChunkHeader, Bucket, merge_header, new_chunk_header}
use bls.Chunk.Wrap.{wrap_chunk_header}
use bls.Chunk.Wrap.Layout.{basic_header}
use bls.Protocol.Header.RoundTrip.{ReadsAs, read_chunk_id, from, read-wrap_chunk_header}
use bls.Pool.{Pool, split_last}
use bls.World.{World, Channel, end}
use bls.Protocol.{Conn, Reading, in_payload, find_channel, ◌>>◌}
use bls.Protocol.Client.{close, read_n}
use bls.Protocol.Client.Closing.{close_final}
use bls.Protocol.Control.{send_control, process_window_ack}
use bls.Protocol.Control.Sent.{Sent, HasBucket, send_control-Sent}
use bls.Protocol.Control.Window.{process_window_ack_lem}
use bls.Protocol.Header.{expect_payload_len}
use bls.Protocol.Message.{is_chunk_size_ok}
use bls.Protocol.Receive.{read_cb, on_message_header}
use bls.Protocol.Receive.Fragments.{read_cb-append}
use bls.Protocol.Receive.Merge.{on_message_header_merges}
use bls.Base.{inl}
use bls.Protocol.{in_header}
use bls.Protocol.Message.{msg_decode}
use bls.Protocol.Machine.{expect_chunk}
use bls.Protocol.Receive.Delivery.{started}
use bls.Protocol.Receive.Delivery.Full.{full_bytes, message_of}
use bls.Protocol.Receive.Delivery.SetSize.{read_cb-msg_set_chunk_size_decode}
use bls.Protocol.Receive.Delivery.Last.{Holds}
use bls.Protocol.Receive.Delivery.Whole.{read_cb-msg_decode}
use bls.Examples.Data.{
  raw_bucket, raw_pool, busy_pool, empty_cache, world_of, conn_of, host_of_sums,
}
use bls.Examples.Buckets.{busy_pool-Inv}

abbrev idle : World
idle = world_of (busy_pool 1) [] empty_cache

abbrev open_conn : Conn
open_conn = conn_of [] 128 none

busy-HasBucket : HasBucket (busy_pool 1)
busy-HasBucket = inr (omega arith, omega arith)

send_control-Sent_example :
    Returns
      (send_control 5 (bytes_4 2500000) open_conn idle)
      (Sent open_conn idle 5 (bytes_4 2500000))
send_control-Sent_example =
    send_control-Sent open_conn idle 5 (bytes_4 2500000)
      (busy_pool-Inv 1 (omega arith) (omega arith)) busy-HasBucket (omega arith) refl

-- Of a window of twelve bytes, two have come before.
abbrev window_conn : Conn
window_conn = record open_conn { window_size = 12; acked_size = 2; total_recved_size = 2 }

process_window_ack_lem_example :
    (window_conn.window_size ≢ 0
      → window_conn.window_size ≤ window_conn.acked_size + 10
      → Returns (process_window_ack 10 window_conn idle) (
          Sent (record window_conn { acked_size = 0; total_recved_size = 12 }) idle 3 (bytes_4 12)))
    × ((window_conn.window_size ≡ 0) ⊎ (window_conn.acked_size + 10 < window_conn.window_size)
        → process_window_ack 10 window_conn idle
          ≡ some (tt, record window_conn { acked_size = 12; total_recved_size = 12 }, idle))
process_window_ack_lem_example =
    process_window_ack_lem window_conn idle 10 (busy_pool-Inv 1 (omega arith) (omega arith))
      busy-HasBucket (omega arith) refl (omega arith) (omega arith)

close_final_example : Returns (close open_conn idle) λ (r : Unit {0} × Conn × World).
    (r.1.is_closed ≡ true)
    × (r.1.reading ≡ none)
    × ((r.2.socket 4).is_open ≡ false)
    × (idle.play_consumer 4 ≡ some 5 → (r.2.consumer 5).state ≡ end)
    × (close r.1 r.2 ≡ some (tt, r.1, r.2))
    × (read_n 2 in_payload 0 9 r.1 r.2 ≡ some (tt, r.1, r.2))
close_final_example = close_final open_conn idle 5 2 in_payload 0 9 refl

-- A message of 20000 bytes, of which some have come.
abbrev header_with : ℕ → ChunkHeader
header_with n = record new_chunk_header { msg_len = 20000; msg_recv = n }

abbrev half_read : Reading
half_read = record { bucket = 2; area = in_payload; offset = 0; expect_len = 4; recved_len = 1 }

abbrev reading_conn : Conn
reading_conn = conn_of [] 128 (some half_read)

read_cb-append_example :
    read_cb host_of_sums ((7 ∷ []) ++ (8 ∷ 9 ∷ [])) reading_conn idle
    ≡ (read_cb host_of_sums (7 ∷ []) >> read_cb host_of_sums (8 ∷ 9 ∷ [])) reading_conn idle
read_cb-append_example =
    read_cb-append host_of_sums (7 ∷ []) (8 ∷ 9 ∷ []) half_read reading_conn idle refl (omega arith)

abbrev waiting : Bucket
waiting = record raw_bucket { state = merge_header; payload_recv_len = 128; ref_count = 1 }

-- Bucket 1 has just had the basic header of a continuation on chunk stream 6, where bucket 2 holds
-- 128 bytes and waits for more; the chunk size has grown to 8192 in between.
abbrev merging_pool : Pool
merging_pool = record raw_pool {
  bucket = λ i.
      if i == 2 then waiting else record raw_bucket { format = 3; chunk_id = 6; ref_count = 1 };
}

abbrev merging : World
merging = world_of merging_pool [] empty_cache

abbrev long_channel : Channel
long_channel = record { header = header_with 128; chain = 2 ∷ [] }

abbrev merging_conn : Conn
merging_conn = conn_of ((6, long_channel) ∷ []) 8192 none

on_message_header_merges_example :
    Returns (on_message_header (λ _. 0) 0 merging_conn merging) λ (r : Unit {0} × Conn × World).
      (r.1.current_chunk ≡ 2)
      × (r.1.reading
          ≡ some (record {
            bucket = 2;
            area = in_payload;
            offset = 128;
            expect_len = expect_payload_len (header_with 128) 8192;
            recved_len = 0;
          }))
      × (128 + 8192 ≤ 8192 → 128 + expect_payload_len (header_with 128) 8192 ≤ 8192)
      × (0 < 128
          → 8192 ≤ 8192
          → 128 + 8192 ≤ 20000
          → 20000 < 2 ^ 32
          → 8192 < 128 + expect_payload_len (header_with 128) 8192)
unfolding expect_payload_len find_channel split_last
on_message_header_merges_example =
    on_message_header_merges (λ _. 0) merging_conn merging long_channel [] 2 refl refl refl refl
      (omega arith) refl (ground arith)

read-wrap_chunk_header_example :
    Returns (wrap_chunk_header raw_bucket 0 400 0x1000000 300 9 1) λ (d : Bucket).
      ((d.header 0 / 64) % 4 ≡ 0)
      × (read_chunk_id d.header ≡ 400)
      × ReadsAs 0x1000000 300 9 1 new_chunk_header (from d.header (length (basic_header 0 400)))
read-wrap_chunk_header_example =
    read-wrap_chunk_header raw_bucket 400 0x1000000 300 9 1 new_chunk_header (omega arith)
      (omega arith) (omega arith) (omega arith) (omega arith) (omega arith)

-- A connection that waits for a chunk, without an acknowledgement window.
abbrev waiting_conn : Conn
waiting_conn = record (conn_of [] 128 (some (started 1 in_header 0 1))) { window_size = 0 }

read_cb-msg_decode_example :
    (c' : Conn) × (w' : World) × ((read_cb host_of_sums (3 ∷ [])
          >> read_cb host_of_sums (full_bytes 40 4 20 1)
          >> read_cb host_of_sums (2 ∷ 0 ∷ 3 ∷ 9 ∷ []))
        waiting_conn idle
      ≡ (msg_decode host_of_sums >> expect_chunk) c' w')
    × Holds 3 40 4 20 1 [] (2 ∷ 0 ∷ 3 ∷ 9 ∷ []) c' w'
unfolding find_channel
read_cb-msg_decode_example =
    read_cb-msg_decode host_of_sums 3 40 20 1 (2 ∷ 0 ∷ 3 ∷ 9 ∷ []) none waiting_conn idle
      (record {
        awaits_byte = refl;
        is_up = refl;
        at_begin = refl;
        no_payload = refl;
        no_name = refl;
        none_received = refl;
      })
      (inl refl) refl refl (omega arith) (omega arith)
      (record {
        time_fits = omega arith;
        len_fits = omega arith;
        type_fits = omega arith;
        stream_fits = omega arith;
      })
      (omega arith) (omega arith) (omega arith) (omega arith)

read_cb-msg_set_chunk_size_decode_example :
    (c' : Conn) × (w' : World) × ((read_cb host_of_sums (2 ∷ [])
          >> read_cb host_of_sums (full_bytes 0 4 1 0)
          >> read_cb host_of_sums (bytes_4 4096))
        waiting_conn idle
      ≡ expect_chunk c' w')
    × (c'.chunk_size ≡ 4096)
    × (find_channel 2 c'.channels ≡ some (record { header = message_of 0 4 1 0 0; chain = [] }))
unfolding find_channel is_chunk_size_ok
read_cb-msg_set_chunk_size_decode_example =
    read_cb-msg_set_chunk_size_decode host_of_sums 2 0 0 4096 none waiting_conn idle
      (record {
        awaits_byte = refl;
        is_up = refl;
        at_begin = refl;
        no_payload = refl;
        no_name = refl;
        none_received = refl;
      })
      (inl refl) refl refl refl (omega arith) (omega arith)
      (record {
        time_fits = omega arith;
        len_fits = omega arith;
        type_fits = omega arith;
        stream_fits = omega arith;
      })
      (omega arith) (omega arith) (omega arith) refl
