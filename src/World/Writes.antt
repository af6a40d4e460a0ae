-- ===== src/World/Writes.antt =====
-- `BlsSocket::write` (src/BlsSocket.cpp), the chunk writers and their callbacks
-- (src/RtmpChunkPool.cpp), and the writers of chains (src/RtmpProtocol.cpp).
use bls.Base.{ℕ, ◌+◌, ◌-◌, ◌%◌, ◌^◌, Bool, true, false, Option, none, some, List, [], ◌∷◌, ◌++◌}
use bls.Chunk.{Bucket}
use bls.Pool
use bls.World.{World, Write, Part, both, header_only, payload_only, M, ◌>>◌, pure, update}
use bls.World.Buckets.{free_bucket}

-- The bytes that `BlsSocket::write` counts.
abbrev pub write_size : Bucket → Part → ℕ
write_size b both = b.header_length + b.payload_length
write_size b header_only = b.header_length
write_size b payload_only = b.payload_length

-- `s->write`; a closed socket is a NULL handle for `uv_write`.
abbrev pub socket_write : ℕ → Write → M (Unit {0})
socket_write client wr w =
    let s = w.socket client in
    elim s.is_open [
      | false ↦ none
      | true ↦ some (
        tt,
        record w {
          socket = update w.socket client (record s {
            send_bytes = (s.send_bytes + write_size (w.pool.bucket wr.bucket) wr.part) % 2 ^ 64;
            pending = s.pending ++ wr ∷ [];
          });
        },
      )
    ]

abbrev pub reference : ℕ → M (Unit {0})
reference id w = some (tt, record w { pool = Pool.add_reference w.pool id })

-- `rtmp_write_chunk`, with the callback `consumer_write_chunk_cb` where a client is given.
unfoldable pub rtmp_write_chunk : ℕ → ℕ → Option ℕ → M (Unit {0})
unfolding Pool.add_reference
rtmp_write_chunk client id custom = do
  reference id
  socket_write client (record { bucket = id; part = both; custom = custom })

unfoldable pub rtmp_write_chunk_header : ℕ → ℕ → M (Unit {0})
unfolding Pool.add_reference
rtmp_write_chunk_header client id = do
  reference id
  socket_write client (record { bucket = id; part = header_only; custom = none })

unfoldable pub rtmp_write_chunk_payload : ℕ → ℕ → M (Unit {0})
unfolding Pool.add_reference
rtmp_write_chunk_payload client id = do
  reference id
  socket_write client (record { bucket = id; part = payload_only; custom = none })

-- `consumer_write_chunk_cb` of src/BlsConsumer.cpp: the counter of whatever consumer the client has
-- now goes down, as `uint32_t`.
unfoldable pub consumer_write_chunk_cb : ℕ → World → World
consumer_write_chunk_cb client w = elim (w.play_consumer client) [
  | none ↦ w
  | some k ↦
      let c = w.consumer k in
      record w {
        consumer =
            update w.consumer k
              (record c { chunk_in_buffer_num = (c.chunk_in_buffer_num + (2 ^ 32 - 1)) % 2 ^ 32 });
      }
]

-- `_bucket_write_cb` and `_custom_bucket_write_cb`.
unfoldable pub write_cb : Write → World → World
unfolding consumer_write_chunk_cb
write_cb wr w =
    let freed : World = record w { pool = Pool.free_chunk_bucket w.pool wr.bucket } in
    elim wr.custom [ none ↦ freed | some client ↦ consumer_write_chunk_cb client freed ]

-- libuv finishes the oldest write of a socket.
unfoldable pub complete : ℕ → World → World
unfolding write_cb
complete client w =
    let s = w.socket client in
    elim s.pending [
      | [] ↦ w
      | wr ∷ rest ↦
          write_cb wr (record w { socket = update w.socket client (record s { pending = rest }) })
    ]

-- The loops of `write_chunk_chain` and `write_chunk_chain_payload`.
unfoldable pub write_chunks : ℕ → List ℕ → M (Unit {0})
unfolding rtmp_write_chunk
write_chunks client [] = pure tt
write_chunks client (id ∷ ids) = do rtmp_write_chunk client id none; write_chunks client ids

-- The freeing with `auto_free`: each round frees the `b` of the round before, and the last `b` goes
-- behind the loop. The first round's `b` is still the one that the loop of writes left, the last
-- bucket of the chain.
unfoldable pub auto_free_from : Option ℕ → List ℕ → M (Unit {0})
auto_free_from none [] = pure tt
auto_free_from (some b) [] = free_bucket b
auto_free_from none (q ∷ qs) = auto_free_from (some q) qs
auto_free_from (some b) (q ∷ qs) = do free_bucket b; auto_free_from (some q) qs

-- `b` behind a loop over a chain that begins with it at `b`.
abbrev pub last_of : Option ℕ → List ℕ → Option ℕ
last_of b [] = b
last_of b (q ∷ qs) = last_of (some q) qs

-- Both give back the chain that is left.
unfoldable pub write_chunk_chain : ℕ → List ℕ → Bool → M (List ℕ)
unfolding write_chunks
write_chunk_chain client chain false = do write_chunks client chain; pure chain
write_chunk_chain client chain true = do
  write_chunks client chain
  auto_free_from (last_of none chain) chain
  pure []

abbrev pub write_payloads : ℕ → List ℕ → M (Unit {0})
write_payloads client [] = pure tt
write_payloads client (id ∷ ids) = do rtmp_write_chunk_payload client id; write_chunks client ids

unfoldable pub write_chunk_chain_payload : ℕ → List ℕ → Bool → M (List ℕ)
unfolding write_chunks rtmp_write_chunk_payload
write_chunk_chain_payload client chain false = do write_payloads client chain; pure chain
write_chunk_chain_payload client chain true = do
  write_payloads client chain
  auto_free_from (last_of none chain) chain
  pure []
