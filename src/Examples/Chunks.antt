-- ===== src/Examples/Chunks.antt =====
-- Messages of several chunks.
use bls.Base.{ℕ, ◌≡◌, refl, inl, none, some, List, [], ◌∷◌, arith, count, length, Returns}
use bls.Pool.{init_chunk_pool, add_pool_queue, add_buckets}
use bls.Pool.Inv.{init_chunk_pool-Inv}
use bls.World.{World}
use bls.World.Encode.{encode_buf_to_chunk_chain}
use bls.World.Encode.Payload.{wire_of}
use bls.Protocol.{Conn, in_header, find_channel, ◌>>◌}
use bls.Protocol.Message.{msg_decode}
use bls.Protocol.Machine.{expect_chunk}
use bls.Protocol.Receive.Delivery.{started}
use bls.Protocol.Receive.Chunks.Further.{feed}
use bls.Protocol.Receive.Chunks.Middle.{Delivered}
use bls.Protocol.Receive.Chunks.First.{IsReady}
use bls.Protocol.Receive.Chunks.Delivered.{message_reads, feed-msg_decode}
use bls.Protocol.Receive.Chunks.RoundTrip.{reads_of, feed-encode_buf_to_chunk_chain}
use bls.Examples.Data.{
  zeros, length-zeros, raw_pool, new_pool, busy_pool, empty_cache, world_of, conn_of, host_of_sums,
}
use bls.Examples.Buckets.{busy_pool-Inv}

-- A connection that waits in bucket 2 for chunks of some size, without an acknowledgement window.
abbrev chunk_conn : ℕ → Conn
chunk_conn size = record (conn_of [] size (some (started 2 in_header 0 1))) {
  window_size = 0;
  current_chunk = 2;
}

abbrev chunk_world : World
chunk_world = world_of (busy_pool 1) [] empty_cache

chunk-IsReady : (size : ℕ) → IsReady (chunk_conn size) chunk_world
unfolding count
chunk-IsReady size = record {
  idle = record {
    awaits_byte = refl;
    is_up = refl;
    at_begin = refl;
    no_payload = refl;
    no_name = refl;
    none_received = refl;
  };
  inv = busy_pool-Inv 1 (omega arith) (omega arith);
  current_held = ground arith;
}

feed-msg_decode_example :
    (c' : Conn) × (w' : World) × (feed host_of_sums
        (message_reads 3 40 9 1 (1 ∷ 2 ∷ 3 ∷ []) ((4 ∷ 5 ∷ []) ∷ []))
        (chunk_conn 3)
        chunk_world
      ≡ (msg_decode host_of_sums >> expect_chunk) c' w')
    × Delivered 3 40 5 9 1 [] (1 ∷ 2 ∷ 3 ∷ 4 ∷ 5 ∷ []) c' w'
unfolding find_channel
feed-msg_decode_example =
    feed-msg_decode host_of_sums 3 40 9 1 (1 ∷ 2 ∷ 3 ∷ []) (4 ∷ 5 ∷ []) [] none (chunk_conn 3)
      chunk_world (chunk-IsReady 3)
      (record { same_size = refl; buckets = omega arith; fits = omega arith; quiet = inl refl })
      (omega arith) (omega arith) (refl, (omega arith, omega arith)) refl refl (omega arith)
      (omega arith)
      (record {
        time_fits = omega arith;
        len_fits = omega arith;
        type_fits = omega arith;
        stream_fits = omega arith;
      })

new_pool-length : length new_pool.queue ≡ 3
unfolding init_chunk_pool add_pool_queue add_buckets
new_pool-length = refl

new_pool-size : new_pool.payload_size ≡ 8192
unfolding init_chunk_pool add_pool_queue add_buckets
new_pool-size = refl

abbrev sender : World
sender = world_of new_pool [] empty_cache

feed-encode_buf_to_chunk_chain_example :
    Returns (encode_buf_to_chunk_chain (zeros 9000) 1 40 9 3 sender) λ (r : List ℕ × World).
      (c' : Conn) × (w' : World) × (feed host_of_sums
          (reads_of (wire_of r.1 r.0))
          (chunk_conn 8192)
          chunk_world
        ≡ (msg_decode host_of_sums >> expect_chunk) c' w')
      × Delivered 3 40 (length (zeros 9000)) 9 1 [] (zeros 9000) c' w'
unfolding find_channel
feed-encode_buf_to_chunk_chain_example =
    feed-encode_buf_to_chunk_chain host_of_sums (zeros 9000) 1 40 9 3 sender none (chunk_conn 8192)
      chunk_world (init_chunk_pool-Inv raw_pool 8192 3 refl) (omega (arith, new_pool-size))
      (omega (arith, new_pool-length)) (omega (arith, new_pool-length, length-zeros 9000))
      (omega (arith, length-zeros 9000)) (chunk-IsReady 8192) refl (omega arith)
      (omega (arith, length-zeros 9000)) (inl refl) refl refl (omega arith) (omega arith)
      (record {
        time_fits = omega arith;
        len_fits = omega (arith, length-zeros 9000);
        type_fits = omega arith;
        stream_fits = omega arith;
      })
