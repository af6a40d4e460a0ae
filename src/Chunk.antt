-- ===== src/Chunk.antt =====
-- The data of include/RtmpChunkPool.h: buckets, message headers, and the tests on the first bytes
-- of a frame (src/RtmpChunkPool.cpp).
pub mod Wrap
use bls.Base.{ℕ, ◌+◌, ◌/◌, ◌%◌, Bool, true, false, ◌&&◌, Option, List, Mem, if◌then◌else◌, ◌==◌}

abbrev pub default_chunk_bucket_size : ℕ
default_chunk_bucket_size = 8192

abbrev pub default_chunk_size : ℕ
default_chunk_size = 128

abbrev pub rtmp_chunk_header_max : ℕ
rtmp_chunk_header_max = 18

abbrev pub rtmp_chunk_extended_timestamp : ℕ
rtmp_chunk_extended_timestamp = 0xFFFFFF

abbrev pub rtmp_cid_protocol_control : ℕ
rtmp_cid_protocol_control = 2

-- `chunk_state_e`
pub data ChunkState : Type 0 where
  begin size_basic_header read_ext_basic_header read_message_header : ChunkState
  read_ext_time read_payload merge_header end : ChunkState

-- `chunk_header_s`, the header of the message that a channel is receiving.
pub record ChunkHeader : Type 0 where
  pub stream_id : ℕ
  pub timestamp : ℕ
  pub delta_timestamp : ℕ
  pub type : ℕ
  pub msg_len : ℕ
  pub msg_recv : ℕ

-- The constructor of `chunk_header_s`.
abbrev pub new_chunk_header : ChunkHeader
new_chunk_header = record {
  stream_id = 0;
  timestamp = 0;
  delta_timestamp = 0;
  type = 0;
  msg_len = 0;
  msg_recv = 0;
}

-- `chunk_bucket_s`. `header` is the memory at `header_start_p`, 18 bytes, and `payload` that at
-- `payload_start_p`, as many bytes as the pool's payload size. A bucket is referred to by its
-- `bucket_id`. A stream name is a number here: the code only compares and copies it.
pub record Bucket : Type 0 where
  pub header : Mem
  pub header_length : ℕ
  pub payload : Mem
  pub payload_length : ℕ
  pub source_stream_name : Option ℕ
  pub ref_count : ℕ
  pub chunk_id : ℕ
  pub state : ChunkState
  pub format : ℕ
  pub header_recv_len : ℕ
  pub payload_recv_len : ℕ

-- The high four bits of the first payload byte are 1, on a chunk that begins a message.
unfoldable pub chunk_is_keyframe : Bucket → Bool
chunk_is_keyframe b = if b.format == 3 then false else (b.payload 0 / 16) % 16 == 1

unfoldable pub chunk_is_video_sh : Bucket → Bool
chunk_is_video_sh b =
    if b.format == 3
    then false
    else (b.payload 0 % 16 == 7) && ((b.payload 0 / 16) % 16 == 1) && (b.payload 1 == 0)

unfoldable pub chunk_is_audio_sh : Bucket → Bool
chunk_is_audio_sh b =
    if b.format == 3 then false else ((b.payload 0 / 16) % 16 == 10) && (b.payload 1 == 0)
