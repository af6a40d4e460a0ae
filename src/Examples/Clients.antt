-- ===== src/Examples/Clients.antt =====
-- Handshakes, connections that begin and end, and what JavaScript does with a client.
use bls.HandShake.Private.{length-hs_write_private_sig}
use bls.HandShake.Remote.{with_client, remote_connect_cb, remote_connect_cb_lem}
use bls.HandShake.{hs_write_private_sig}
use mathlib.Core.List.{append-nil}
use bls.Base.{
  ℕ, zero, suc, ◌+◌, ◌≡◌, ◌≢◌, refl, inl, true, false, Option, none, some, List, [], ◌∷◌, ◌++◌, map,
  Mem, arith, Returns, count, ap, ◌==◌, ◌&&◌, peek, poke-below, put_byte, length, if◌then◌else◌,
  length-append,
}
use bls.Pool.{Pool}
use bls.World.{World, run}
use bls.Pool.Held.{HoldsAll}
use bls.Source.Streams.{find_stream, get_play_source}
use bls.Source.Streams.Distinct.{Distinct}
use bls.Protocol.{Conn, pure, ◌>>=◌}
use bls.Protocol.Receive.Delivery.Whole.{IsIdle}
use bls.Protocol.Lifecycle.{hand_shake_finish, free_protocol}
use bls.Protocol.Lifecycle.Started.{write_of, hand_shake_finish_lem}
use bls.Protocol.Lifecycle.Freed.{Left, held_by, free_protocol-Left}
use bls.Binding.{write_message_buf, publish_stream, unpublish_stream}
use bls.Binding.Streams.{unpublish_stream-publish_stream}
use bls.World.Encode.Payload.{encoded_wire}
use bls.Binding.Messages.{Queued, write_message_buf-Queued}
use bls.HandShake.{
  HandShake, received, written, finished, step, step_all, is_private, same_bytes, stored_sig,
  new_handshake,
}
use bls.HandShake.Pieces.{join, AllSome, step_all-join}
use bls.HandShake.Outcome.{step_all-finished}
use bls.Pool.Inv.{Inv}
use bls.Examples.Data.{
  raw_pool, raw_bucket, player, source_with, busy_pool, empty_cache, channel_of, world_of, conn_of,
}
use bls.Examples.Buckets.{busy_pool-Inv}

abbrev quiet_world : World
quiet_world = world_of (busy_pool 1) [] empty_cache

-- Client 4, which publishes nothing and plays nothing yet.
abbrev client_conn : Conn
client_conn = conn_of [] 128 none

abbrev closed_conn : Conn
closed_conn = record client_conn { is_closed = true }

quiet_world-Distinct : Distinct quiet_world
unfolding count
quiet_world-Distinct s = ground arith

unpublish_stream-publish_stream_example :
    Returns
      ((publish_stream 3 >>= λ _. unpublish_stream) client_conn quiet_world)
      λ (r : List ℕ × Conn × World).
        (r.1.publish_source ≡ none)
        × (r.2.source_pool ≡ 8 ∷ 9 ∷ [])
        × (get_play_source 3 r.2 ≡ none)
        × ((n : ℕ) → n ≢ 3 → get_play_source n r.2 ≡ get_play_source n quiet_world)
        × Distinct r.2
unfolding find_stream
unpublish_stream-publish_stream_example =
    unpublish_stream-publish_stream client_conn quiet_world 3 8 (9 ∷ []) refl quiet_world-Distinct
      refl refl

write_message_buf-Queued_example :
    Returns
      (write_message_buf (1 ∷ 2 ∷ 3 ∷ []) 1 0 20 none client_conn quiet_world)
      (Queued client_conn quiet_world (1 ∷ 2 ∷ 3 ∷ []) (encoded_wire (1 ∷ 2 ∷ 3 ∷ []) 1 0 20 3))
write_message_buf-Queued_example =
    write_message_buf-Queued client_conn quiet_world (1 ∷ 2 ∷ 3 ∷ []) 1 0 20 none refl refl
      (omega arith) (busy_pool-Inv 1 (omega arith) (omega arith)) (omega arith) (omega arith)
      (omega arith)

-- Player 5 of client 4 is alive and has the buckets 2 to 6; its connection holds a message of the
-- bucket 7, and the current chunk is the bucket 8. The bucket 1 is free.
abbrev playing_conn : Conn
playing_conn = record (conn_of ((3, channel_of (7 ∷ [])) ∷ []) 128 none) { current_chunk = 8 }

abbrev playing_pool : Pool
playing_pool = record raw_pool {
  bucket = λ i. if i == 1 then raw_bucket else record raw_bucket { ref_count = 1 };
  queue = 1 ∷ [];
  payload_size = 8192;
  pool_size = 8;
  valid_chunk_num = 1;
  add_pool_count = 1;
  next_bucket_id = 8;
}

abbrev playing_world : World
playing_world = record (world_of playing_pool [] empty_cache) {
  source = λ _. record (source_with empty_cache) { consumer_queue = 5 ∷ 6 ∷ [] };
  consumer = λ _. record (player run 0) {
    is_alive = true;
    first_audio_chunk_header = 2;
    first_video_chunk_header = 3;
    first_key_fram_chunk_header = 4;
    metadata_chunk_header = 5;
    first_audio2_chunk_header = 6;
  };
}

playing_pool-Inv : Inv playing_pool
unfolding count
playing_pool-Inv = record { owned = λ i. ground arith; counted = refl }

playing-HoldsAll : HoldsAll playing_pool (held_by playing_conn playing_world)
unfolding count
playing-HoldsAll i h = ground (arith, h)

free_protocol-Left_example :
    Returns (free_protocol (pure tt) playing_conn playing_world) (Left playing_conn playing_world)
free_protocol-Left_example =
    free_protocol-Left (pure tt) playing_conn playing_conn playing_world playing_world refl
      (λ k e. refl) refl playing_pool-Inv playing-HoldsAll

abbrev publishing_conn : Conn
publishing_conn = record client_conn { publish_source = some 0 }

abbrev publishing_world : World
publishing_world = record quiet_world { play_consumer = λ _. none }

-- A pool with five buckets that are free.
abbrev free_pool : Pool
free_pool = record raw_pool {
  queue = 1 ∷ 2 ∷ 3 ∷ 4 ∷ 5 ∷ [];
  payload_size = 8192;
  pool_size = 5;
  valid_chunk_num = 5;
  add_pool_count = 1;
  next_bucket_id = 5;
}

free_pool-Inv : Inv free_pool
unfolding count
free_pool-Inv = record { owned = λ i. ground arith; counted = refl }

abbrev new_world : World
new_world = world_of free_pool [] empty_cache

hand_shake_finish_lem_example :
    (c' : Conn) × (w' : World) × (hand_shake_finish (pure tt) 4 true 1000 (λ _. 0) new_world
      ≡ pure tt c' w')
    × IsIdle c' w'
    × (c'.channels ≡ [])
    × (c'.window_size ≡ 0)
    × (c'.chunk_size ≡ 128)
    × (ids : ℕ × ℕ × ℕ) × ((w'.socket 4).pending
        ≡ write_of ids.0 ∷ write_of ids.1 ∷ write_of ids.2 ∷ [])
hand_shake_finish_lem_example =
    hand_shake_finish_lem (pure tt) 4 true 1000 (λ _. 0) new_world
      (record {
        inv = free_pool-Inv;
        has_buckets = omega arith;
        big_enough = omega arith;
        is_open = refl;
      })

-- The same byte many times.
unfoldable repeated : ℕ → ℕ → List ℕ
repeated zero b = []
repeated (suc n) b = b ∷ repeated n b

length-repeated : (n b : ℕ) → length (repeated n b) ≡ n
unfolding repeated
length-repeated zero b = refl
length-repeated (suc n) b = omega (arith, length-repeated n b)

-- A response that is the bytes that came.
abbrev echo : ℕ → Mem → Option (Mem × Mem)
echo type sig = some (sig, sig)

abbrev zeros : Mem
zeros _ = 0

-- 1536 bytes in two pieces.
abbrev two_pieces : List (List ℕ)
two_pieces = repeated 1500 7 ∷ repeated 36 1 ∷ []

two_pieces-AllSome : AllSome two_pieces
two_pieces-AllSome =
    (omega (arith, length-repeated 1500 7), (omega (arith, length-repeated 36 1), tt))

length-join-two_pieces : length (join two_pieces) ≡ 1536
length-join-two_pieces = omega (
  arith,
  length-repeated 1500 7,
  length-repeated 36 1,
  length-append (repeated 1500 7) (repeated 36 1 ++ []),
  length-append (repeated 36 1) [],
)

step_all-join_example :
    step_all echo (0 ∷ []) (map received ((3 ∷ []) ∷ two_pieces)) (new_handshake zeros zeros)
    ≡ step echo (0 ∷ []) (received (join ((3 ∷ []) ∷ two_pieces))) (new_handshake zeros zeros)
unfolding new_handshake
step_all-join_example =
    step_all-join echo (0 ∷ []) (3 ∷ []) two_pieces (new_handshake zeros zeros)
      (inl refl, omega arith) (omega arith, two_pieces-AllSome)
      (omega (arith, length-join-two_pieces))

-- The memory that the client's bytes leave.
abbrev came : Mem
came = (stored_sig (join ((3 ∷ []) ∷ two_pieces)) (new_handshake zeros zeros)).clientsig

came_first : came 0 ≡ 3
unfolding new_handshake
came_first = poke-below (join two_pieces) (put_byte zeros 0 3) 1 0 (omega arith)

not_private :
    is_private echo (0 ∷ []) (stored_sig (join ((3 ∷ []) ∷ two_pieces)) (new_handshake zeros zeros))
    ≡ false
unfolding new_handshake same_bytes
not_private =
    ap
      (λ x.
        (x == 114)
        && same_bytes (peek came 1 15)
            (116 ∷ 109 ∷ 112 ∷ 45 ∷ 97 ∷ 100 ∷ 100 ∷ 111 ∷ 110 ∷ 0 ∷ 0 ∷ []))
      came_first

step_all-finished_example :
    Returns
      (step_all echo
        (0 ∷ [])
        (map received ((3 ∷ []) ∷ two_pieces)
          ++ written false ∷ map received (repeated 1500 7 ∷ repeated 36 1 ∷ []))
        (new_handshake zeros zeros))
      λ (r : HandShake). (r.phase ≡ finished) × (r.serverbuf ≡ λ i. came (i + 1))
unfolding new_handshake
step_all-finished_example =
    step_all-finished echo (0 ∷ []) (3 ∷ []) (repeated 1500 7) two_pieces (repeated 36 1 ∷ []) zeros
      zeros (λ i. came (i + 1)) (λ i. came (i + 1)) (omega arith, two_pieces-AllSome)
      two_pieces-AllSome (omega (arith, length-join-two_pieces)) length-join-two_pieces not_private
      refl

-- JavaScript does nothing.
abbrev no_client : World → Option (Unit {0} × World)
no_client w = some (tt, w)

-- Five bytes behind the literal of the signature.
abbrev five_zeros : List ℕ
five_zeros = 0 ∷ 0 ∷ 0 ∷ 0 ∷ 0 ∷ []

remote_connect_cb_lem_example :
    (c' : Conn) × (w' : World) × (remote_connect_cb
        (pure tt)
        no_client
        five_zeros
        zeros
        false
        4
        1000
        zeros
        new_world
      ≡ with_client (hs_write_private_sig five_zeros zeros ++ []) (pure tt c' w'))
    × IsIdle c' w'
    × (c'.channels ≡ [])
    × ((ids : ℕ × ℕ × ℕ) × ((w'.socket 4).pending
          ≡ write_of ids.0 ∷ write_of ids.1 ∷ write_of ids.2 ∷ []))
    × (hs : HandShake) × (step_all echo five_zeros
          (received (hs_write_private_sig five_zeros zeros) ∷ [])
          (new_handshake zeros zeros)
        ≡ some hs)
    × (hs.phase ≡ finished)
    × (hs.serverbuf ≡ zeros)
remote_connect_cb_lem_example =
    remote_connect_cb_lem (pure tt) no_client five_zeros zeros echo 4 1000 zeros zeros zeros
      new_world (hs_write_private_sig five_zeros zeros) []
      (record {
        inv = free_pool-Inv;
        has_buckets = omega arith;
        big_enough = omega arith;
        is_open = refl;
      })
      refl (omega (arith, length-hs_write_private_sig echo five_zeros zeros), tt)
      (append-nil (hs_write_private_sig five_zeros zeros))
