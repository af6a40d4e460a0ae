-- ===== src/Protocol/Message.antt =====
-- `msg_decode` and the decoders of src/BlsMessage.cpp. The JavaScript side, which the decoders call,
-- is a parameter: it may change the connection and the world.
use bls.Base.{
  ℕ, ◌+◌, ◌%◌, ◌^◌, Bool, true, false, not, ◌&&◌, ◌||◌, Option, none, some, List, [], ◌∷◌, ◌++◌,
  ltb, leb, ◌==◌, if◌then◌else◌, length, peek, poke,
}
use bls.Bytes.{read_2bytes, read_4bytes}
use bls.Chunk.{
  ChunkHeader, default_chunk_bucket_size, chunk_is_keyframe, chunk_is_video_sh, chunk_is_audio_sh,
}
use bls.World.{World}
use bls.World.Buckets.{free_buckets}
use bls.Consumer.Send.{rtmp_msg_audio_message, rtmp_msg_video_message, rtmp_msg_amf0_data_message}
use bls.Source.{on_av_chunks, on_video_msg, on_audio_msg}
use bls.Source.Metadata.{on_metadata}
use bls.Protocol.{
  P, ◌>>=◌, ◌>>◌, pure, fault, check, conn, world, modify, lift, the_channel, put_channel,
}
use bls.Protocol.Client.{close}
use bls.Protocol.Control.{send_pong_response}

abbrev pub max_chunk_type : ℕ
max_chunk_type = 50

-- What the handlers call and this development does not define: the sum of a time and a double, the
-- size of the buffer that JavaScript gives for audio and video, and the callbacks into JavaScript.
pub record Host : Type 0 where
  pub add_time : ℕ → ℕ → ℕ
  pub av_buf_len : ℕ
  pub on_msg : ℕ → List ℕ → P (Unit {0})
  pub on_pong : ℕ → P (Unit {0})
  pub on_av : Bool → Bool → Bool → ChunkHeader → List ℕ → P (Unit {0})

abbrev pub head_bucket : List ℕ → P ℕ
head_bucket [] = fault
head_bucket (id ∷ ids) = pure id

-- The payload bytes of a chain, in order.
unfoldable pub chain_bytes : World → List ℕ → List ℕ
chain_bytes w [] = []
chain_bytes w (id ∷ ids) =
    peek (w.pool.bucket id).payload 0 (w.pool.bucket id).payload_recv_len ++ chain_bytes w ids

-- A size that is a multiple of the bucket size, or divides it.
unfoldable pub is_chunk_size_ok : ℕ → Bool
is_chunk_size_ok n = not (
    (n == 0)
    || (ltb default_chunk_bucket_size n && not (n % default_chunk_bucket_size == 0))
    || (ltb n default_chunk_bucket_size && not (default_chunk_bucket_size % n == 0)))

-- `msg_set_chunk_size_decode`
unfoldable pub msg_set_chunk_size_decode : List ℕ → P (Unit {0})
unfolding is_chunk_size_ok close read_4bytes
msg_set_chunk_size_decode chain = do
  id ← head_bucket chain
  w ← world
  let new_size = read_4bytes (w.pool.bucket id).payload 0
  if is_chunk_size_ok new_size then modify (λ c. record c { chunk_size = new_size }) else close

-- `msg_window_acknowledgement_size_decode`
unfoldable pub msg_window_acknowledgement_size_decode : List ℕ → P (Unit {0})
unfolding read_4bytes
msg_window_acknowledgement_size_decode chain = do
  id ← head_bucket chain
  w ← world
  modify (λ c. record c { window_size = read_4bytes (w.pool.bucket id).payload 0 })

module _ (host : Host) where
  -- `msg_user_control_message_decode`
  unfoldable pub msg_user_control_message_decode : List ℕ → P (Unit {0})
  unfolding read_2bytes read_4bytes send_pong_response
  msg_user_control_message_decode chain = do
    id ← head_bucket chain
    w ← world
    c ← conn
    let payload = (w.pool.bucket id).payload
    let event_type = read_2bytes payload 0
    if event_type == 6
        then send_pong_response (read_4bytes payload 2)
        else if event_type == 7
        then (modify (λ c. record c { pong_get = true }) >> host.on_pong c.total_recved_size)
        else pure tt

  abbrev copy_and_call : List ℕ → ChunkHeader → P (Unit {0})
  copy_and_call bytes header = do
    c ← conn
    check (leb (length bytes) c.node_buf_len)
    modify (λ c. record c { node_read_buf = poke c.node_read_buf 0 bytes })
    host.on_msg header.stream_id bytes

  -- `msg_command_message_amf0_decode`. The bytes are copied to `node_read_buf`, whose size is
  -- `node_buf_len`, and handed to JavaScript.
  unfoldable pub msg_command_message_amf0_decode : ChunkHeader → List ℕ → P (Unit {0})
  unfolding close chain_bytes
  msg_command_message_amf0_decode header chain = do
    c ← conn
    w ← world
    let bytes = chain_bytes w chain
    if ltb c.node_buf_len header.msg_len then close else copy_and_call bytes header

  -- `throwup_av_info`
  unfoldable pub throwup_av_info : ChunkHeader → List ℕ → P (Unit {0})
  unfolding chain_bytes
  throwup_av_info header chain = do
    id ← head_bucket chain
    w ← world
    let b = w.pool.bucket id
    let bytes = chain_bytes w chain
    check (leb (length bytes) host.av_buf_len)
    if header.type == rtmp_msg_audio_message
        then host.on_av true false (chunk_is_audio_sh b) header bytes
        else if header.type == rtmp_msg_video_message
        then host.on_av false (chunk_is_keyframe b) (chunk_is_video_sh b) header bytes
        else pure tt

  -- What `msg_video_decode` and `msg_audio_decode` do for a publisher. Each gives back the chain
  -- that is left in the message.
  abbrev pub throwup_if : Bool → ChunkHeader → List ℕ → P (Unit {0})
  throwup_if true header chain = throwup_av_info header chain
  throwup_if false header chain = pure tt

  -- `publish_source` is read again behind the callback: NULL, if JavaScript has ended the stream.
  abbrev dispatch_video : Option ℕ → ChunkHeader → List ℕ → P (List ℕ)
  dispatch_video none header chain = λ _ _. none
  dispatch_video (some s) header chain = do
    lift (on_av_chunks host.add_time s header chain)
    lift (on_video_msg s (record { header = header; chain = chain }))

  abbrev publish_video : Option ℕ → ChunkHeader → List ℕ → P (List ℕ)
  publish_video none header chain = pure chain
  publish_video (some s) header chain = do
    c ← conn
    throwup_if c.enable_video_up header chain
    c ← conn
    dispatch_video c.publish_source header chain

  abbrev dispatch_audio : Option ℕ → ChunkHeader → List ℕ → P (List ℕ)
  dispatch_audio none header chain = λ _ _. none
  dispatch_audio (some s) header chain = do
    lift (on_av_chunks host.add_time s header chain)
    lift (on_audio_msg s (record { header = header; chain = chain }))

  abbrev publish_audio : Option ℕ → ChunkHeader → List ℕ → P (List ℕ)
  publish_audio none header chain = pure chain
  publish_audio (some s) header chain = do
    c ← conn
    throwup_if c.enable_video_up header chain
    c ← conn
    dispatch_audio c.publish_source header chain

  -- `msg_video_decode`
  unfoldable pub msg_video_decode : ChunkHeader → List ℕ → P (List ℕ)
  unfolding throwup_av_info on_av_chunks on_video_msg
  msg_video_decode header chain = do
    id ← head_bucket chain
    modify (λ c. record c { total_recved_video_msg = (c.total_recved_video_msg + 1) % 2 ^ 64 })
    c ← conn
    publish_video c.publish_source header chain

  -- `msg_audio_decode`
  unfoldable pub msg_audio_decode : ChunkHeader → List ℕ → P (List ℕ)
  unfolding throwup_av_info on_av_chunks on_audio_msg
  msg_audio_decode header chain = do
    id ← head_bucket chain
    modify (λ c. record c { total_recved_audio_msg = (c.total_recved_audio_msg + 1) % 2 ^ 64 })
    c ← conn
    publish_audio c.publish_source header chain

  abbrev cache_metadata : Option ℕ → ChunkHeader → List ℕ → P (List ℕ)
  cache_metadata none header chain = pure chain
  cache_metadata (some s) header chain = do
    c ← conn
    if ltb header.msg_len c.node_buf_len
        then (check (leb 16 c.node_buf_len)
            >> lift (on_metadata s (record { header = header; chain = chain }) c.node_read_buf))
        else pure chain

  -- `msg_msg_data_message_amf0_decode`
  unfoldable pub msg_data_message_amf0_decode : ChunkHeader → List ℕ → P (List ℕ)
  unfolding msg_command_message_amf0_decode on_metadata
  msg_data_message_amf0_decode header chain = do
    msg_command_message_amf0_decode header chain
    c ← conn
    cache_metadata c.publish_source header chain

  abbrev keep : List ℕ → P (Unit {0}) → P (List ℕ)
  keep chain m = do m; pure chain

  -- `TYPE_MESSAGE_WORKER_MAP`; a type with no decoder is ignored. What comes back is the chain that
  -- is left in the message.
  unfoldable pub worker : ChunkHeader → List ℕ → P (List ℕ)
  unfolding msg_set_chunk_size_decode msg_window_acknowledgement_size_decode
      msg_user_control_message_decode msg_command_message_amf0_decode msg_data_message_amf0_decode
      msg_audio_decode msg_video_decode
  worker header chain =
      if header.type == 1
      then keep chain (msg_set_chunk_size_decode chain)
      else if header.type == 5
      then keep chain (msg_window_acknowledgement_size_decode chain)
      else if header.type == 4
      then keep chain (msg_user_control_message_decode chain)
      else if header.type == 20
      then keep chain (msg_command_message_amf0_decode header chain)
      else if header.type == rtmp_msg_amf0_data_message
      then msg_data_message_amf0_decode header chain
      else if header.type == rtmp_msg_audio_message
      then msg_audio_decode header chain
      else if header.type == rtmp_msg_video_message
      then msg_video_decode header chain
      else pure chain

  -- `msg_decode`: the message takes the channel's chain, and its destructor gives back what the
  -- decoder leaves of it.
  unfoldable pub msg_decode : P (Unit {0})
  unfolding worker
  msg_decode = do
    (k, channel) ← the_channel
    put_channel k (record channel { chain = [] })
    left ←
        (if leb max_chunk_type channel.header.type
          then pure channel.chain
          else worker channel.header channel.chain)
    lift (free_buckets left)
