-- ===== src/Protocol/Receive.antt =====
-- The header states of `chunk_state_machine`, its dispatch, `RtmpProtocol::start`
-- (src/RtmpProtocol.cpp), and the read callback that drives it (src/RtmpClient.cpp).
pub mod Fragments
pub mod Merge
pub mod Delivery
pub mod Idle
pub mod Chunks
use bls.Base.{
  ℕ, zero, suc, ◌+◌, ◌-◌, ◌*◌, ◌/◌, ◌%◌, ◌^◌, Bool, true, false, not, ◌&&◌, ◌||◌, Option, none,
  some, List, [], ◌∷◌, ◌++◌, Mem, ltb, leb, ◌==◌, if◌then◌else◌, length,
}
use bls.Bytes.{read_4bytes}
use bls.Chunk.{
  Bucket, ChunkHeader, ChunkState, begin, size_basic_header, read_ext_basic_header,
  read_message_header, read_ext_time, read_payload, merge_header, end, new_chunk_header,
  rtmp_chunk_extended_timestamp,
}
use bls.Pool.{put_bucket, split_last}
use bls.World.{World, Channel}
use bls.World.Buckets.{free_bucket}
use bls.Protocol.{
  Conn, Reading, Area, in_header, in_payload, P, ◌>>=◌, ◌>>◌, pure, fault, check, conn, world,
  modify, lift, find_channel, put_channel, the_channel,
}
use bls.Protocol.Client.{close, read_n, area_size, store}
use bls.Protocol.Control.{
  process_window_ack, set_window_ack_size, set_peer_bandwidth, set_chunk_size,
}
use bls.Protocol.Header.{format_message_header_len, read_fields, add_delta, expect_payload_len}
use bls.Protocol.Message.{Host}
use bls.Protocol.Machine.{
  chunk, modify_chunk, read_header, read_payload_at, on_begin, on_payload, expect_chunk,
}

-- Read the payload of the current chunk from an offset on.
abbrev pub read_rest : ℕ → ChunkHeader → P (Unit {0})
read_rest offset h = do
  c ← conn
  modify_chunk (λ b. record b { state = read_payload })
  read_payload_at offset (expect_payload_len h c.chunk_size)

-- The header's fields, once the channel is known to accept this chunk.
unfoldable pub parse_header : Mem → ℕ → Channel → P (Unit {0})
unfolding close read_n read_fields expect_payload_len
parse_header buf k channel = do
  b ← chunk
  let h = read_fields b.format buf channel.header
  put_channel k (record channel { header = h })
  if h.msg_len == 0
      then close
      else if h.delta_timestamp == rtmp_chunk_extended_timestamp
      then (modify_chunk (λ b. record b { state = read_ext_time })
          >> read_header b.header_recv_len 4)
      else (put_channel k (record channel { header = add_delta h }) >> read_rest 0 (add_delta h))

-- "merge chunk with recv len": the channel's last bucket goes on being filled.
abbrev pub merge_into : ℕ → Channel → List ℕ → ℕ → P (Unit {0})
merge_into k channel before last = do
  put_channel k (record channel { chain = before })
  c ← conn
  lift (free_bucket c.current_chunk)
  modify (λ c. record c { current_chunk = last })
  b ← chunk
  read_rest b.payload_recv_len channel.header

abbrev pub is_merging : ChunkState → Bool
is_merging merge_header = true
is_merging _ = false

-- A chunk that is neither a first chunk of a message nor a continuation is an error.
abbrev pub accept_chunk : Mem → ℕ → Channel → P (Unit {0})
accept_chunk buf k channel = do
  b ← chunk
  if not (channel.header.msg_recv == 0) && not (b.format == 3)
      then close
      else parse_header buf k channel

abbrev pub merge_or_accept : Mem → ℕ → Channel → Option (List ℕ × ℕ) → P (Unit {0})
merge_or_accept buf k channel none = accept_chunk buf k channel
merge_or_accept buf k channel (some (before, last)) = do
  w ← world
  if is_merging (w.pool.bucket last).state
      then merge_into k channel before last
      else accept_chunk buf k channel

abbrev pub last_if_continuation : Bucket → Channel → Option (List ℕ × ℕ)
last_if_continuation b channel = if b.format == 3 then split_last channel.chain else none

abbrev pub known_channel : Mem → ℕ → Channel → P (Unit {0})
known_channel buf k channel = do
  modify (λ c. record c { current_channel = some k })
  b ← chunk
  merge_or_accept buf k channel (last_if_continuation b channel)

abbrev pub open_channel : Mem → ℕ → Option Channel → P (Unit {0})
open_channel buf k (some channel) = known_channel buf k channel
open_channel buf k none = do
  b ← chunk
  let channel : Channel = record { header = new_chunk_header; chain = [] }
  if ltb 1 b.format then close else (put_channel k channel >> known_channel buf k channel)

-- `CHUNK_STATE_READ_MESSAGE_HEADER`
unfoldable pub on_message_header : Mem → ℕ → P (Unit {0})
unfolding parse_header
on_message_header buf recved = do
  modify_chunk (λ b. record b { header_recv_len = b.header_recv_len + recved })
  b ← chunk
  c ← conn
  open_channel buf b.chunk_id (find_channel b.chunk_id c.channels)

-- On to the message header, which a continuation does not have.
abbrev pub to_message_header : ℕ → P (Unit {0})
to_message_header offset = do
  modify_chunk (λ b. record b { state = read_message_header })
  b ← chunk
  if not (b.format == 3)
      then read_header offset (format_message_header_len b.format)
      else (process_window_ack 0 >> on_message_header (λ _. 0) 0)

-- `CHUNK_STATE_SIZE_BASIC_HEADER`
unfoldable pub on_basic_header : Mem → ℕ → P (Unit {0})
unfolding process_window_ack on_message_header read_n
on_basic_header buf recved = do
  modify_chunk
      (λ b. record b { format = (buf 0 / 64) % 4; chunk_id = buf 0 % 64; header_recv_len = 1 })
  b ← chunk
  if ltb 1 b.chunk_id
      then to_message_header recved
      else (modify_chunk (λ b. record b { state = read_ext_basic_header })
          >> read_header recved (if b.chunk_id == 0 then 1 else 2))

-- `CHUNK_STATE_READ_EXT_BASIC_HEADER`
abbrev pub ext_chunk_id : Mem → ℕ → ℕ
ext_chunk_id buf recved =
    if recved == 1 then 64 + buf 0 else if recved == 2 then 64 + buf 0 + buf 1 * 256 else 64

unfoldable pub on_ext_basic_header : Mem → ℕ → P (Unit {0})
unfolding process_window_ack on_message_header read_n
on_ext_basic_header buf recved = do
  modify_chunk (λ b. record b {
    header_recv_len = b.header_recv_len + recved;
    chunk_id = ext_chunk_id buf recved;
  })
  b ← chunk
  to_message_header b.header_recv_len

-- `CHUNK_STATE_READ_EXT_TIME`
unfoldable pub on_ext_time : Mem → ℕ → P (Unit {0})
unfolding read_4bytes read_n expect_payload_len
on_ext_time buf recved = do
  modify_chunk (λ b. record b { header_recv_len = b.header_recv_len + recved })
  (k, channel) ← the_channel
  let h = add_delta (record channel.header { delta_timestamp = read_4bytes buf 0 })
  put_channel k (record channel { header = h })
  read_rest 0 h

-- The memory that a read fills, from its start.
abbrev pub read_area : Bucket → Area → ℕ → Mem
read_area b in_header offset i = b.header (offset + i)
read_area b in_payload offset i = b.payload (offset + i)

-- The bytes of a read, stored behind those that have come before, and counted.
abbrev pub stored : Reading → List ℕ → World → World
stored r bytes w = record w {
  pool =
      put_bucket w.pool r.bucket
        (store r.area (r.offset + r.recved_len) bytes (w.pool.bucket r.bucket));
}

abbrev pub advance : Reading → List ℕ → Reading
advance r bytes = record r { recved_len = r.recved_len + length bytes }

module _ (host : Host) where
  abbrev pub machine_in : ChunkState → Mem → ℕ → P (Unit {0})
  machine_in begin buf recved = on_begin
  machine_in size_basic_header buf recved = on_basic_header buf recved
  machine_in read_ext_basic_header buf recved = on_ext_basic_header buf recved
  machine_in read_message_header buf recved = on_message_header buf recved
  machine_in read_ext_time buf recved = on_ext_time buf recved
  machine_in read_payload buf recved = on_payload host recved
  machine_in merge_header buf recved = pure tt
  machine_in end buf recved = pure tt

  -- `chunk_state_machine` on `recved` bytes at `buf`.
  unfoldable pub chunk_state_machine : Mem → ℕ → P (Unit {0})
  unfolding process_window_ack on_begin on_basic_header on_ext_basic_header on_message_header
      on_ext_time on_payload
  chunk_state_machine buf recved = do
    process_window_ack recved
    b ← chunk
    machine_in b.state buf recved

  -- The machine, once a read is complete.
  abbrev pub complete_read : Reading → P (Unit {0})
  complete_read r = do
    modify (λ c. record c { reading = none })
    w ← world
    chunk_state_machine (read_area (w.pool.bucket r.bucket) r.area r.offset) r.expect_len

  abbrev pub after_bytes : Reading → P (Unit {0})
  after_bytes r =
      if r.recved_len == r.expect_len
      then complete_read r
      else modify (λ c. record c { reading = some r })

  -- `__bls_read_n_read_cb`, when some bytes have come: libuv has stored them at the place that
  -- `__bls_read_n_alloc_cb` gave it, which has room for what is missing.
  abbrev pub received : Reading → List ℕ → P (Unit {0})
  received r bytes = do
    w ← world
    check (leb (r.offset + r.expect_len) (area_size w r.area))
    check (leb (r.recved_len + length bytes) r.expect_len)
    lift (λ w. some (tt, stored r bytes w))
    after_bytes (advance r bytes)

  abbrev pub read_into : List ℕ → Option Reading → P (Unit {0})
  read_into bytes none = fault
  read_into bytes (some r) = received r bytes

  unfoldable pub read_cb : List ℕ → P (Unit {0})
  read_cb bytes c w = read_into bytes c.reading c w

  -- The same callback on an error: the machine is called with -1, and closes the client.
  unfoldable pub read_error : P (Unit {0})
  unfolding close
  read_error = close

-- `RtmpProtocol::start`
unfoldable pub start : P (Unit {0})
unfolding set_window_ack_size set_peer_bandwidth set_chunk_size expect_chunk
start = do set_window_ack_size 2500000; set_peer_bandwidth 2500000 2; set_chunk_size; expect_chunk
