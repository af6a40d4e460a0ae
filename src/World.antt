-- ===== src/World.antt =====
-- The objects that the handlers share: the chunk pool, the sockets with the writes that libuv still
-- holds, the sources, and the consumers. A pointer is a number: a client's, a source's, a consumer's.
-- (include/BlsSource.h, include/BlsConsumer.h, include/BlsSocket.h, include/RtmpChunkPool.h)
pub mod Buckets
pub mod Writes
pub mod Encode
pub mod Rewrites
use bls.Base.{
  ◌≡◌, ap, ◌+◌, ◌%◌, ◌^◌, ℕ, Bool, true, false, Option, none, some, List, [], Mem, ◌==◌,
  if◌then◌else◌,
}
use bls.Chunk.{ChunkHeader}
use bls.Pool.{Pool}

-- `rtmp_channel_s`: a message header and the ids of the buckets in its chain.
pub record Channel : Type 0 where
  pub header : ChunkHeader
  pub chain : List ℕ

-- `av_buffer_s`. `none` is NULL.
pub record AvBuffer : Type 0 where
  pub metadata : Option Channel
  pub key_frame : Option Channel
  pub video_sh : Option Channel
  pub audio_sh : Option Channel
  pub gop : Option Channel
  pub gop_counter : ℕ

-- `BlsSource`. The double `abs_record_time` is its 64-bit pattern.
pub record Source : Type 0 where
  pub stream_name : ℕ
  pub is_publishing : Bool
  pub video_chunkid : ℕ
  pub audio_chunkid : ℕ
  pub metadata_buf : Mem
  pub metadata_len : ℕ
  pub abs_record_time : ℕ
  pub time_index : ℕ
  pub key_cache : AvBuffer
  pub video_time : ℕ
  pub audio_time : ℕ
  pub consumer_queue : List ℕ

-- `consumer_state_e`
pub data ConsumerState : Type 0 where
  wait_metadata wait_av_sh wait_audio_sh wait_video_sh wait_keyframe run : ConsumerState
  wait_video_slow_speed wait_audio_slow_speed end : ConsumerState

-- `bls_consumer_s`
pub record Consumer : Type 0 where
  pub client : ℕ
  pub stream_id : ℕ
  pub video_chunk_id : ℕ
  pub audio_chunk_id : ℕ
  pub state : ConsumerState
  pub stream_name : ℕ
  pub is_alive : Bool
  pub first_audio_chunk_header : ℕ
  pub first_video_chunk_header : ℕ
  pub first_key_fram_chunk_header : ℕ
  pub first_audio2_chunk_header : ℕ
  pub metadata_chunk_header : ℕ
  pub chunk_in_buffer_num : ℕ

-- Which of the two buffers of a bucket a write sends.
pub data Part : Type 0 where
  both header_only payload_only : Part

-- A write that libuv holds: the bucket, and `custom_write_data_s` with the client whose protocol the
-- callback is given.
pub record Write : Type 0 where
  pub bucket : ℕ
  pub part : Part
  pub custom : Option ℕ

-- `BlsSocket`. `socket` is NULL once it is closed.
pub record Socket : Type 0 where
  pub is_open : Bool
  pub send_bytes : ℕ
  pub pending : List Write

pub record World : Type 0 where
  pub pool : Pool
  pub socket : ℕ → Socket
  pub source : ℕ → Source
  pub consumer : ℕ → Consumer
  pub play_consumer : ℕ → Option ℕ
  -- `RtmpServer::client_count`, an `int`, as its 32-bit pattern.
  pub client_count : ℕ
  -- `g_source_pool` from head to last, and `g_source_map` from stream names to sources.
  pub source_pool : List ℕ
  pub source_map : List (ℕ × ℕ)

-- A handler: `none` is a fault, such as a NULL or dangling pointer, a store out of bounds or a
-- failed `assert`.
abbrev pub M : Type 0 → Type 0
M A = World → Option (A × World)

abbrev pub pure : {A : Type 0} → A → M A
pure a w = some (a, w)

infixl 5 ◌>>=◌ ◌>>◌
abbrev pub ◌>>=◌ : {A B : Type 0} → M A → (A → M B) → M B
◌>>=◌ m f w = elim (m w) [ none ↦ none | some (a, w') ↦ f a w' ]

abbrev pub ◌>>◌ : {B : Type 0} → M (Unit {0}) → M B → M B
m >> k = m >>= λ _. k

abbrev pub fault : {A : Type 0} → M A
fault w = none

abbrev pub check : Bool → M (Unit {0})
check true w = some (tt, w)
check false w = none

abbrev pub update {ℓ} : {A : Type ℓ} → (ℕ → A) → ℕ → A → ℕ → A
update f k v i = if i == k then v else f i

abbrev pub get : M World
get w = some (w, w)

abbrev pub put_consumer : ℕ → Consumer → M (Unit {0})
put_consumer k c w = some (tt, record w { consumer = update w.consumer k c })

abbrev pub put_source : ℕ → Source → M (Unit {0})
put_source s v w = some (tt, record w { source = update w.source s v })

-- `RtmpServer::update_client_count`, with the pattern of its argument.
abbrev pub update_client_count : ℕ → World → World
update_client_count num w = record w { client_count = (w.client_count + num) % 2 ^ 32 }

-- One step of a handler whose result is known.
pub bind :
    {A B : Type 0} (m : M A) (f : A → M B) {w w' : World} {a : A}
    → m w ≡ some (a, w')
    → (m >>= f) w ≡ f a w'
bind m f e = ap (λ o. elim o [ none ↦ none | some (a, v) ↦ f a v ]) e
