-- ===== src/Source.antt =====
-- `BlsSource` (src/BlsSource.cpp): the caches of a live stream, and the dispatch of its chunks.
pub mod Gop
pub mod Metadata
pub mod Lifecycle
pub mod Streams
pub mod Startup
pub mod Joining
use bls.Base.{
  ℕ, zero, suc, ◌+◌, ◌-◌, ◌%◌, ◌^◌, Bool, true, false, not, ◌&&◌, Option, none, some, List, [], ◌∷◌,
  ◌++◌, ltb, leb, ◌==◌, if◌then◌else◌, Mem, peek, poke, elem,
}
use bls.Bytes.{read_8bytes}
use bls.Chunk.{ChunkHeader, chunk_is_keyframe, chunk_is_video_sh, chunk_is_audio_sh}
use bls.Pool.{Pool, free_chain}
use bls.World.{
  World, Source, Channel, AvBuffer, Consumer, wait_metadata, M, ◌>>=◌, ◌>>◌, pure, fault, check,
  get, update, put_source, put_consumer,
}
use bls.World.Buckets.{wrap, alloc_bucket, free_bucket, free_buckets}
use bls.Consumer.Send.{
  chain_head, consumer_send_video, consumer_send_audio, rtmp_msg_audio_message,
  max_metadata_buf_len,
}

abbrev pub max_gop_len : ℕ
max_gop_len = 1000

-- A change of a source in place.
abbrev pub modify_source : ℕ → (Source → Source) → M (Unit {0})
modify_source s f w = some (tt, record w { source = update w.source s (f (w.source s)) })

-- `bls_delete` of a cached channel: its destructor gives the chain's buckets back.
abbrev pub freed : Option Channel → Pool → Pool
freed none p = p
freed (some c) p = free_chain p c.chain

abbrev pub delete_channel : Option Channel → M (Unit {0})
delete_channel cached w = some (tt, record w { pool = freed cached w.pool })

-- The time since the last chunk of the kind, 0 if the clock went back, and the id and time to use.
abbrev pub elapsed : ℕ → ℕ → ℕ
elapsed now last = if ltb last now then now - last else 0

module _ (add_time : ℕ → ℕ → ℕ) where
  -- The loop over `consumer_queue`.
  unfoldable pub dispatch : List ℕ → ℕ → ChunkHeader → ℕ → M (Unit {0})
  dispatch [] chunk header s = pure tt
  dispatch (k ∷ ks) chunk header s = do
    if header.type == rtmp_msg_audio_message
        then consumer_send_audio add_time k chunk header s
        else consumer_send_video add_time k chunk header s
    dispatch ks chunk header s

  -- `BlsSource::on_av_chunk`
  unfoldable pub on_av_chunk : ℕ → ChunkHeader → ℕ → M (Unit {0})
  unfolding dispatch
  on_av_chunk s header chunk = do
    w ← get
    let src = w.source s
    let is_audio = header.type == rtmp_msg_audio_message
    let chunk_id = if is_audio then src.audio_chunkid else src.video_chunkid
    let timestamp = elapsed header.timestamp (if is_audio then src.audio_time else src.video_time)
    modify_source s (λ v.
        if is_audio
        then record v { audio_time = header.timestamp }
        else record v { video_time = header.timestamp })
    if not ((w.pool.bucket chunk).format == 3)
        then wrap chunk 1 chunk_id timestamp header.msg_len header.type 0
        else wrap chunk 3 chunk_id 0 0 0 0
    dispatch src.consumer_queue chunk header s

  -- The loop of `msg_video_decode` and `msg_audio_decode` over the chain.
  unfoldable pub on_av_chunks : ℕ → ChunkHeader → List ℕ → M (Unit {0})
  unfolding on_av_chunk
  on_av_chunks s header [] = pure tt
  on_av_chunks s header (id ∷ ids) = do on_av_chunk s header id; on_av_chunks s header ids

abbrev set_gop : Option Channel → ℕ → Source → Source
set_gop gop n v = record v { key_cache = record v.key_cache { gop = gop; gop_counter = n } }

-- `BlsSource::clear_gop`
unfoldable pub clear_gop : ℕ → M (Unit {0})
clear_gop s = do
  w ← get
  delete_channel (w.source s).key_cache.gop
  modify_source s (set_gop none 0)

-- The part of `add_msg_to_gop` for a message that begins a group.
abbrev start_gop : ℕ → Channel → M (List ℕ)
start_gop s channel = do
  clear_gop s
  w ← get
  modify_source s (set_gop (some channel) (w.source s).key_cache.gop_counter)
  pure []

-- The part of `add_msg_to_gop` for a message that does not begin a group.
abbrev append_to_gop : ℕ → List ℕ → Option Channel → M (List ℕ)
append_to_gop s chain none = pure chain
append_to_gop s chain (some g) = do
  w ← get
  let n = ((w.source s).key_cache.gop_counter + 1) % 2 ^ 32
  modify_source s (set_gop (some (record g { chain = g.chain ++ chain })) n)
  if ltb max_gop_len n then clear_gop s else pure tt
  pure []

-- `BlsSource::add_msg_to_gop`. What comes back is the chain that is left in the message's channel.
-- `ngx_queue_head` of a chain that has been moved away is no bucket.
unfoldable pub add_msg_to_gop : ℕ → Channel → M (List ℕ)
unfolding clear_gop
add_msg_to_gop s channel = do
  id ← chain_head channel.chain
  w ← get
  let chunk = w.pool.bucket id
  if chunk_is_keyframe chunk && not (chunk_is_video_sh chunk)
      then start_gop s channel
      else append_to_gop s channel.chain (w.source s).key_cache.gop

abbrev set_video_sh : Option Channel → Source → Source
set_video_sh c v = record v { key_cache = record v.key_cache { video_sh = c } }

abbrev set_audio_sh : Option Channel → Source → Source
set_audio_sh c v = record v { key_cache = record v.key_cache { audio_sh = c } }

abbrev pub set_metadata : Option Channel → Source → Source
set_metadata c v = record v { key_cache = record v.key_cache { metadata = c } }

abbrev cache_video_sh : ℕ → Channel → M (List ℕ)
cache_video_sh s channel = do
  w ← get
  delete_channel (w.source s).key_cache.video_sh
  modify_source s (set_video_sh (some channel))
  add_msg_to_gop s (record channel { chain = [] })

-- `BlsSource::on_video_msg`
unfoldable pub on_video_msg : ℕ → Channel → M (List ℕ)
unfolding add_msg_to_gop
on_video_msg s channel = do
  id ← chain_head channel.chain
  w ← get
  if chunk_is_video_sh (w.pool.bucket id)
      then cache_video_sh s channel
      else add_msg_to_gop s channel

abbrev cache_audio_sh : ℕ → Channel → M (List ℕ)
cache_audio_sh s channel = do
  w ← get
  delete_channel (w.source s).key_cache.audio_sh
  modify_source s (set_audio_sh (some channel))
  add_msg_to_gop s (record channel { chain = [] })

-- `BlsSource::on_audio_msg`
unfoldable pub on_audio_msg : ℕ → Channel → M (List ℕ)
unfolding add_msg_to_gop
on_audio_msg s channel = do
  id ← chain_head channel.chain
  w ← get
  if chunk_is_audio_sh (w.pool.bucket id)
      then cache_audio_sh s channel
      else add_msg_to_gop s channel
