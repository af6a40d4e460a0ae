-- ===== src/Source/Joining.antt =====
-- `BlsSource::add_consumer` (src/BlsSource.cpp): a player joins a stream.
use bls.Base.{ℕ, Bool, true, false, not, ◌&&◌, [], ◌∷◌, ◌++◌, if◌then◌else◌}
use bls.World.{
  AvBuffer, Consumer, ConsumerState, wait_audio_sh, run, M, ◌>>=◌, ◌>>◌, pure, get, put_consumer,
}
use bls.World.Buckets.{free_buckets}
use bls.World.Writes.{write_chunk_chain_payload}
use bls.Consumer.{is_null}
use bls.Consumer.Send.{
  deref, send_header, send_cached, send_audio_sh_if, send_metadata, rtmp_msg_video_message,
}
use bls.Source.{modify_source}

abbrev pub set_state : ℕ → ConsumerState → M (Unit {0})
set_state k s = do w ← get; put_consumer k (record (w.consumer k) { state = s })

-- The source caches what a player needs to begin at once.
abbrev pub can_begin : AvBuffer → Bool
can_begin b = not (is_null b.gop) && not (is_null b.metadata) && not (is_null b.video_sh)

-- The group, behind a header of the player's own.
abbrev send_gop : Consumer → AvBuffer → M (Unit {0})
send_gop c b = do
  gop ← deref b.gop
  send_header c.client c.first_key_fram_chunk_header 1 c.video_chunk_id gop.header.msg_len
      rtmp_msg_video_message c.stream_id
  left ← write_chunk_chain_payload c.client gop.chain false
  pure tt

abbrev pub joined_state : AvBuffer → ConsumerState
joined_state b = if is_null b.audio_sh then wait_audio_sh else run

module _ (add_time : ℕ → ℕ → ℕ) where
  abbrev pub send_caches : ℕ → ℕ → M (Unit {0})
  send_caches k s = do
    w ← get
    let c = w.consumer k
    let b = (w.source s).key_cache
    gop ← deref b.gop
    meta_data_chain ← send_metadata add_time k s gop.header.timestamp
    send_cached c.client c.first_video_chunk_header c.video_chunk_id rtmp_msg_video_message
        c.stream_id b.video_sh
    set_state k (joined_state b)
    send_audio_sh_if c b.audio_sh
    send_gop c b
    free_buckets meta_data_chain

  unfoldable pub add_consumer : ℕ → ℕ → M (Unit {0})
  unfolding send_metadata send_cached send_header write_chunk_chain_payload
  add_consumer s k = do
    w ← get
    put_consumer k (record (w.consumer k) { is_alive = true })
    modify_source s (λ v. record v { consumer_queue = v.consumer_queue ++ k ∷ [] })
    if can_begin (w.source s).key_cache
        then (set_state k wait_audio_sh >> send_caches k s)
        else pure tt
