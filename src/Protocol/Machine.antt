-- ===== src/Protocol/Machine.antt =====
-- `chunk_state_machine`, `on_new_chunk` and `expect_chunk` (src/RtmpProtocol.cpp), and the reads that
-- drive them (src/RtmpClient.cpp). Where the machine calls itself, the state is known, and the model
-- calls that state's case behind `process_window_ack`, which every call goes through.
use bls.Base.{
  ℕ, ◌+◌, ◌-◌, ◌%◌, ◌^◌, Bool, true, false, not, ◌&&◌, ◌||◌, Option, none, some, List, [], ◌∷◌,
  ◌++◌, ltb, ◌==◌, if◌then◌else◌,
}
use bls.Chunk.{
  Bucket, ChunkHeader, ChunkState, begin, size_basic_header, read_payload, merge_header, end,
  default_chunk_bucket_size,
}
use bls.Pool.{put_bucket, split_last}
use bls.World.{Channel}
use bls.World.Buckets.{alloc_bucket, wrap}
use bls.Protocol.{
  Conn, in_header, in_payload, P, ◌>>=◌, ◌>>◌, pure, fault, conn, world, modify, lift, put_channel,
  the_channel,
}
use bls.Protocol.Client.{read_n}
use bls.Protocol.Control.{process_window_ack}
use bls.Protocol.Header.{expect_payload_len}
use bls.Protocol.Message.{Host, msg_decode}

-- `*current_chunk`
abbrev pub chunk : P Bucket
chunk c w = some (w.pool.bucket c.current_chunk, c, w)

abbrev pub modify_chunk : (Bucket → Bucket) → P (Unit {0})
modify_chunk f c w = some (
  tt,
  c,
  record w { pool = put_bucket w.pool c.current_chunk (f (w.pool.bucket c.current_chunk)) },
)

-- A read into the current chunk.
abbrev pub read_header : ℕ → ℕ → P (Unit {0})
read_header offset n = do c ← conn; read_n c.current_chunk in_header offset n

abbrev pub read_payload_at : ℕ → ℕ → P (Unit {0})
read_payload_at offset n = do c ← conn; read_n c.current_chunk in_payload offset n

-- `CHUNK_STATE_BEGIN`
unfoldable pub on_begin : P (Unit {0})
unfolding read_n
on_begin = do
  modify_chunk
      (λ b. record b { state = size_basic_header; header_recv_len = 0; payload_recv_len = 0 })
  read_header 0 1

-- `expect_chunk`
abbrev pub wants_rest : Conn → ChunkHeader → Bool
wants_rest c h = not (h.msg_recv % c.chunk_size == 0) && ltb h.msg_recv h.msg_len

abbrev pub last_bucket : List ℕ → P (List ℕ × ℕ)
last_bucket chain c w = elim (split_last chain) [ none ↦ none | some r ↦ some (r, c, w) ]

-- The rest of a chunk that is larger than a bucket, which comes with no header of its own.
abbrev pub expect_rest : Channel → P (Unit {0})
expect_rest channel = do
  c ← conn
  r ← last_bucket channel.chain
  w ← world
  lift (wrap c.current_chunk 3 (w.pool.bucket r.1).chunk_id 0 0 0 0)
  modify_chunk (λ b. record b { state = read_payload })
  read_payload_at 0 (expect_payload_len channel.header c.chunk_size)

abbrev pub begin_chunk : P (Unit {0})
begin_chunk = do process_window_ack 0; on_begin

abbrev pub current : Option ℕ → P (Option Channel)
current none = pure none
current (some k) = do (j, channel) ← the_channel; pure (some channel)

abbrev pub rest_or_begin : Option Channel → P (Unit {0})
rest_or_begin none = begin_chunk
rest_or_begin (some channel) = do
  c ← conn
  if ltb default_chunk_bucket_size c.chunk_size && wants_rest c channel.header
      then expect_rest channel
      else begin_chunk

unfoldable pub expect_chunk : P (Unit {0})
unfolding process_window_ack on_begin read_n
expect_chunk = do
  id ← lift alloc_bucket
  modify (λ c. record c { current_chunk = id })
  modify_chunk (λ b. record b { payload_recv_len = 0; header_recv_len = 0; state = begin })
  c ← conn
  channel ← current c.current_channel
  rest_or_begin channel

-- "if (NULL != p->publish_source)", with its `assert`.
abbrev pub name_chunk : Option ℕ → P (Unit {0})
name_chunk none = pure tt
name_chunk (some s) = do
  b ← chunk
  w ← world
  elim b.source_stream_name [
    | some n ↦ fault
    | none ↦ modify_chunk (λ b. record b { source_stream_name = some (w.source s).stream_name })
  ]

abbrev pub is_end : ChunkState → Bool
is_end end = true
is_end _ = false

module _ (host : Host) where
  abbrev pub finish_channel : ℕ → Channel → P (Unit {0})
  finish_channel k channel =
      if channel.header.msg_len == channel.header.msg_recv
      then (put_channel k (record channel { header = record channel.header { msg_recv = 0 } })
          >> msg_decode host)
      else pure tt

  abbrev pub finish_message : P (Unit {0})
  finish_message = the_channel >>= λ x. finish_channel x.0 x.1

  abbrev pub whole_chunk : P (Unit {0})
  whole_chunk = do c ← conn; name_chunk c.publish_source; finish_message; expect_chunk

  abbrev pub link_chunk : ℕ → Channel → P (Unit {0})
  link_chunk k channel = do
    c ← conn
    put_channel k (record channel { chain = channel.chain ++ c.current_chunk ∷ [] })
    b ← chunk
    if is_end b.state then whole_chunk else expect_chunk

  -- `on_new_chunk`
  unfoldable pub on_new_chunk : P (Unit {0})
  unfolding expect_chunk msg_decode
  on_new_chunk = the_channel >>= λ x. link_chunk x.0 x.1

  -- `CHUNK_STATE_READ_PAYLOAD`
  abbrev pub payload_state : Channel → Bucket → Conn → ChunkState
  payload_state channel b c =
      if (channel.header.msg_recv == channel.header.msg_len)
        || ltb ((default_chunk_bucket_size + (2 ^ 64 - b.payload_recv_len)) % 2 ^ 64) c.chunk_size
      then end
      else merge_header

  abbrev pub take_payload : ℕ → ℕ → Channel → P (Unit {0})
  take_payload recved k channel = do
    modify_chunk (λ b. record b {
      payload_recv_len = b.payload_recv_len + recved;
      payload_length = b.payload_length + recved;
      header_length = b.header_recv_len;
    })
    let received = record channel {
      header = record channel.header { msg_recv = (channel.header.msg_recv + recved) % 2 ^ 32 };
    }
    put_channel k received
    c ← conn
    b ← chunk
    modify_chunk (λ b. record b { state = payload_state received b c })
    on_new_chunk

  unfoldable pub on_payload : ℕ → P (Unit {0})
  unfolding on_new_chunk
  on_payload recved = the_channel >>= λ x. take_payload recved x.0 x.1
