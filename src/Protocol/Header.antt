-- ===== src/Protocol/Header.antt =====
-- The fields of a chunk's message header, and how much payload to read (src/RtmpProtocol.cpp).
pub mod Bounds
pub mod RoundTrip
use bls.Base.{ℕ, zero, suc, ◌+◌, ◌-◌, ◌*◌, ◌%◌, ◌^◌, Mem, ltb, leb, ◌==◌, if◌then◌else◌}
use bls.Bytes.{read_3bytes, read_4bytes}
use bls.Chunk.{ChunkHeader, default_chunk_bucket_size}

-- `FORMAT_MESSAGE_HEADER_LEN`
abbrev pub format_message_header_len : ℕ → ℕ
format_message_header_len zero = 11
format_message_header_len (suc zero) = 7
format_message_header_len (suc (suc zero)) = 3
format_message_header_len _ = 0

-- `*(uint32_t *) p`
abbrev pub host_word : Mem → ℕ → ℕ
host_word m p = m p + m (p + 1) * 256 + m (p + 2) * 2 ^ 16 + m (p + 3) * 2 ^ 24

-- The `switch` on the format, which falls through from each case to the next. `buf` is the memory at
-- the message header.
unfoldable pub read_fields : ℕ → Mem → ChunkHeader → ChunkHeader
unfolding read_3bytes
read_fields zero buf h = record h {
  stream_id = host_word buf 7;
  timestamp = 0;
  type = buf 6;
  msg_len = read_3bytes buf 3;
  delta_timestamp = read_3bytes buf 0;
}
read_fields (suc zero) buf h = record h {
  type = buf 6;
  msg_len = read_3bytes buf 3;
  delta_timestamp = read_3bytes buf 0;
}
read_fields (suc (suc zero)) buf h = record h { delta_timestamp = read_3bytes buf 0 }
read_fields _ buf h = record h { delta_timestamp = 0 }

-- `timestamp += delta_timestamp`
abbrev pub add_delta : ChunkHeader → ChunkHeader
add_delta h = record h { timestamp = (h.timestamp + h.delta_timestamp) % 2 ^ 32 }

-- `expect_payload_len`
unfoldable pub expect_payload_len : ChunkHeader → ℕ → ℕ
expect_payload_len h chunk_size =
    let expect_payload = (h.msg_len + (2 ^ 32 - h.msg_recv)) % 2 ^ 32 in
    let temp_size = if ltb chunk_size expect_payload then chunk_size else expect_payload in
    if ltb default_chunk_bucket_size temp_size then default_chunk_bucket_size else temp_size
