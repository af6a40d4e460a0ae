-- ===== src/Protocol/Receive/Merge.antt =====
-- The chunk that continues a bucket which is not yet full (src/RtmpProtocol.cpp).
use bls.Base.{◌^◌, ℕ, ◌+◌, ◌<◌, ◌≤◌, ◌≡◌, ◌≢◌, false, some, List, arith, Mem, Returns}
use bls.Chunk.{merge_header}
use bls.Pool.{split_last}
use bls.World.{World, Channel}
use bls.Protocol.{Conn, in_payload, find_channel}
use bls.Protocol.Client.{read_n}
use bls.Protocol.Header.{expect_payload_len}
use bls.Protocol.Receive.{on_message_header}
use bls.Pool

-- A continuation that finds its channel's last bucket waiting for more makes that bucket the
-- current one, and asks for what `expect_payload_len` says behind the payload that it holds. That
-- stays inside the 8192 bytes of the bucket if a chunk of the size now agreed fits behind the
-- payload; it passes their end if the chunk size is 8192 or more, the bucket holds some payload,
-- and the message lacks 8192 bytes or more.
pub on_message_header_merges :
    (buf : Mem) (c : Conn) (w : World) (channel : Channel) (before : List ℕ) (last : ℕ)
    → c.is_closed ≡ false
    → (w.pool.bucket c.current_chunk).format ≡ 3
    → find_channel (w.pool.bucket c.current_chunk).chunk_id c.channels ≡ some channel
    → split_last channel.chain ≡ some (before, last)
    → last ≢ c.current_chunk
    → (w.pool.bucket last).state ≡ merge_header
    → expect_payload_len channel.header c.chunk_size ≢ 0
    → Returns (on_message_header buf 0 c w) λ (r : Unit {0} × Conn × World).
      (r.1.current_chunk ≡ last)
      × (r.1.reading
          ≡ some (record {
            bucket = last;
            area = in_payload;
            offset = (w.pool.bucket last).payload_recv_len;
            expect_len = expect_payload_len channel.header c.chunk_size;
            recved_len = 0;
          }))
      × ((w.pool.bucket last).payload_recv_len + c.chunk_size ≤ 8192
          → (w.pool.bucket last).payload_recv_len + expect_payload_len channel.header c.chunk_size
            ≤ 8192)
      × (0 < (w.pool.bucket last).payload_recv_len
          → 8192 ≤ c.chunk_size
          → channel.header.msg_recv + 8192 ≤ channel.header.msg_len
          → channel.header.msg_len < 2 ^ 32
          → 8192
            < (w.pool.bucket last).payload_recv_len
              + expect_payload_len channel.header c.chunk_size)
unfolding on_message_header expect_payload_len read_n Pool.free_chunk_bucket
on_message_header_merges buf c w channel before last h f e s ne m x = ground arith
