-- ===== src/Consumer/Send.antt =====
-- `consumer_send_video` and `consumer_send_audio` of src/BlsConsumer.cpp, with everything that they
-- write, and `BlsSource::update_abs_record_time` of src/BlsSource.cpp.
use bls.Base.{ℕ, ◌+◌, false, Option, none, some, List, [], ◌∷◌, leb, ◌==◌, if◌then◌else◌, peek}
use bls.Bytes.{write_8bytes}
use bls.Chunk.{ChunkHeader}
use bls.World.{Channel, Consumer, M, ◌>>=◌, ◌>>◌, pure, fault, check, get, put_consumer, put_source}
use bls.World.Buckets.{wrap, free_buckets}
use bls.World.Writes.{
  rtmp_write_chunk, rtmp_write_chunk_header, rtmp_write_chunk_payload, write_chunk_chain_payload,
}
use bls.World.Encode.{encode_buf_to_chunk_chain}
use bls.Consumer.{
  Action, forward, begin_video, begin_audio, join_video, join_audio, video_action, audio_action,
  after,
}

abbrev pub max_metadata_buf_len : ℕ
max_metadata_buf_len = 3000

abbrev pub rtmp_msg_audio_message : ℕ
rtmp_msg_audio_message = 8

abbrev pub rtmp_msg_video_message : ℕ
rtmp_msg_video_message = 9

abbrev pub rtmp_msg_amf0_data_message : ℕ
rtmp_msg_amf0_data_message = 18

-- A dereference of a pointer that may be NULL.
abbrev pub deref : {A : Type 0} → Option A → M A
deref none = fault
deref (some a) = pure a

-- `ngx_queue_head`; of an empty chain it is no bucket.
abbrev pub chain_head : List ℕ → M ℕ
chain_head [] = fault
chain_head (id ∷ ids) = pure id

-- A header wrapped into one of the consumer's own buckets, and sent.
unfoldable pub send_header : ℕ → ℕ → ℕ → ℕ → ℕ → ℕ → ℕ → M (Unit {0})
unfolding rtmp_write_chunk_header
send_header client bucket fmt chunk_id msg_len type_id stream_id = do
  wrap bucket fmt chunk_id 0 msg_len type_id stream_id
  rtmp_write_chunk_header client bucket

-- A sequence header: the wrapped header, then the payload of the cached chain.
unfoldable pub send_cached : ℕ → ℕ → ℕ → ℕ → ℕ → Option Channel → M (Unit {0})
unfolding send_header write_chunk_chain_payload
send_cached client bucket chunk_id type_id stream_id cached = do
  sh ← deref cached
  send_header client bucket 0 chunk_id sh.header.msg_len type_id stream_id
  left ← write_chunk_chain_payload client sh.chain false
  pure tt

-- The first chunk of a frame: a header of the consumer's own, then the chunk's payload.
unfoldable pub send_first : ℕ → ℕ → ℕ → ℕ → ℕ → ℕ → ℕ → ℕ → M (Unit {0})
unfolding send_header rtmp_write_chunk_payload
send_first client bucket fmt chunk_id msg_len type_id stream_id chunk = do
  send_header client bucket fmt chunk_id msg_len type_id stream_id
  rtmp_write_chunk_payload client chunk

-- "if (NULL != buffer->audio_sh)"
abbrev pub send_audio_sh_if : Consumer → Option Channel → M (Unit {0})
send_audio_sh_if c none = pure tt
send_audio_sh_if c (some sh) =
    send_cached c.client c.first_audio_chunk_header c.audio_chunk_id rtmp_msg_audio_message
      c.stream_id (some sh)

-- "assert(*consumer->stream_name == *chunk->source_stream_name)"
abbrev pub assert_stream : Consumer → Option ℕ → M (Unit {0})
assert_stream c none = fault
assert_stream c (some name) = check (c.stream_name == name)

abbrev pub settle : ℕ → Action → M (Unit {0})
settle k a = do w ← get; put_consumer k (after a (w.consumer k))

-- The sum of the time and of `abs_record_time`, as the pattern of a double: floating point is the
-- host's.
module _ (add_time : ℕ → ℕ → ℕ) where
  -- `BlsSource::update_abs_record_time`
  unfoldable pub update_abs_record_time : ℕ → ℕ → M (Unit {0})
  update_abs_record_time source time_add = do
    w ← get
    let s = w.source source
    if s.time_index == 0 then pure tt else do
      check (leb (s.time_index + 8) max_metadata_buf_len)
      put_source source (record s {
        metadata_buf =
            write_8bytes s.metadata_buf s.time_index (add_time time_add s.abs_record_time);
      })

  -- The metadata, with its time moved. What comes back is the local chain, which is destroyed where
  -- its block ends.
  unfoldable pub send_metadata : ℕ → ℕ → ℕ → M (List ℕ)
  unfolding update_abs_record_time send_header encode_buf_to_chunk_chain write_chunk_chain_payload
  send_metadata k source time = do
    w ← get
    let c = w.consumer k
    metadata ← deref (w.source source).key_cache.metadata
    meta_chunk ← chain_head metadata.chain
    let chunk_id = (w.pool.bucket meta_chunk).chunk_id
    send_header c.client c.metadata_chunk_header 0 chunk_id metadata.header.msg_len
        rtmp_msg_amf0_data_message c.stream_id
    update_abs_record_time source time
    w' ← get
    let s = w'.source source
    check (leb s.metadata_len max_metadata_buf_len)
    ids ← encode_buf_to_chunk_chain (peek s.metadata_buf 0 s.metadata_len) c.stream_id 0 0 chunk_id
    write_chunk_chain_payload c.client ids false

  -- The writes of an action on a video chunk.
  unfoldable pub perform_video : Action → ℕ → ℕ → ChunkHeader → ℕ → M (Unit {0})
  unfolding send_metadata send_cached send_first rtmp_write_chunk
  perform_video (forward s) k chunk header source = do
    w ← get
    rtmp_write_chunk (w.consumer k).client chunk (some (w.consumer k).client)
  perform_video begin_video k chunk header source = do
    w ← get
    let c = w.consumer k
    meta_data_chain ← send_metadata k source header.timestamp
    send_cached c.client c.first_video_chunk_header c.video_chunk_id rtmp_msg_video_message
        c.stream_id (w.source source).key_cache.video_sh
    send_first c.client c.first_key_fram_chunk_header 1 c.video_chunk_id header.msg_len
        rtmp_msg_video_message c.stream_id chunk
    free_buckets meta_data_chain
  perform_video join_video k chunk header source = do
    w ← get
    let c = w.consumer k
    send_cached c.client c.first_video_chunk_header c.video_chunk_id rtmp_msg_video_message
        c.stream_id (w.source source).key_cache.video_sh
    send_first c.client c.first_key_fram_chunk_header 1 c.video_chunk_id header.msg_len
        rtmp_msg_video_message c.stream_id chunk
  perform_video _ k chunk header source = pure tt

  -- The writes of an action on an audio chunk.
  unfoldable pub perform_audio : Action → ℕ → ℕ → ChunkHeader → ℕ → M (Unit {0})
  unfolding send_metadata send_cached send_first rtmp_write_chunk
  perform_audio (forward s) k chunk header source = do
    w ← get
    rtmp_write_chunk (w.consumer k).client chunk (some (w.consumer k).client)
  perform_audio begin_audio k chunk header source = do
    w ← get
    let c = w.consumer k
    meta_data_chain ← send_metadata k source header.timestamp
    send_audio_sh_if c (w.source source).key_cache.audio_sh
    send_first c.client c.first_audio2_chunk_header 0 c.audio_chunk_id header.msg_len
        rtmp_msg_audio_message c.stream_id chunk
    free_buckets meta_data_chain
  perform_audio join_audio k chunk header source = do
    w ← get
    let c = w.consumer k
    send_cached c.client c.first_audio_chunk_header c.audio_chunk_id rtmp_msg_audio_message
        c.stream_id (w.source source).key_cache.audio_sh
    send_first c.client c.first_audio2_chunk_header 1 c.audio_chunk_id header.msg_len
        rtmp_msg_audio_message c.stream_id chunk
  perform_audio _ k chunk header source = pure tt

  -- `consumer_send_video`, with the source whose `key_cache` is `buffer`.
  unfoldable pub consumer_send_video : ℕ → ℕ → ChunkHeader → ℕ → M (Unit {0})
  unfolding video_action perform_video after
  consumer_send_video k chunk header source = do
    w ← get
    assert_stream (w.consumer k) (w.pool.bucket chunk).source_stream_name
    let a = video_action (w.consumer k) (w.pool.bucket chunk) (w.source source).key_cache
    perform_video a k chunk header source
    settle k a

  -- `consumer_send_audio`
  unfoldable pub consumer_send_audio : ℕ → ℕ → ChunkHeader → ℕ → M (Unit {0})
  unfolding audio_action perform_audio after
  consumer_send_audio k chunk header source = do
    w ← get
    assert_stream (w.consumer k) (w.pool.bucket chunk).source_stream_name
    let a = audio_action (w.consumer k) (w.pool.bucket chunk) (w.source source).key_cache
    perform_audio a k chunk header source
    settle k a
