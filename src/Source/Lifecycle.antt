-- ===== src/Source/Lifecycle.antt =====
-- The end of a stream: `BlsSource::clear_consumer` (src/BlsSource.cpp), and the copies of the cached
-- sequence headers.
pub mod Cleared
use bls.Base.{
  ◌==◌, if◌then◌else◌, ℕ, Bool, true, false, Option, none, some, List, [], ◌∷◌, ◌++◌, peek,
}
use bls.Bytes.{byte}
use bls.Chunk.{ChunkHeader}
use bls.World.{World, Source, Channel, AvBuffer, M, ◌>>=◌, ◌>>◌, pure, get, update}
use bls.World.Buckets.{wrap}
use bls.Source.{modify_source, delete_channel, clear_gop}

-- The loop over `consumer_queue`.
abbrev pub stop_consumer : ℕ → World → World
stop_consumer k w = record w {
  consumer = update w.consumer k (record (w.consumer k) { is_alive = false });
}

unfoldable pub stop_consumers : List ℕ → World → World
stop_consumers [] w = w
stop_consumers (k ∷ ks) w = stop_consumers ks (stop_consumer k w)

-- The clients whose callback gets `play_stop_event`, in turn.
abbrev pub clients_of : World → List ℕ → List ℕ
clients_of w [] = []
clients_of w (k ∷ ks) = (w.consumer k).client ∷ clients_of w ks

abbrev pub no_cache : AvBuffer → AvBuffer
no_cache b = record b { metadata = none; video_sh = none; audio_sh = none; key_frame = none }

-- The caches other than the group, in the order of their `bls_delete`.
abbrev pub delete_caches : ℕ → M (Unit {0})
delete_caches s = do
  w ← get
  let b = (w.source s).key_cache
  delete_channel b.metadata
  delete_channel b.video_sh
  delete_channel b.audio_sh
  delete_channel b.key_frame
  modify_source s (λ v. record v { key_cache = no_cache v.key_cache })

abbrev pub reset_times : Source → Source
reset_times v = record v {
  abs_record_time = 0;
  video_time = 0;
  audio_time = 0;
  is_publishing = false;
}

-- `BlsSource::clear_consumer`, with the clients that are notified.
unfoldable pub clear_consumer : ℕ → M (List ℕ)
unfolding stop_consumers clear_gop
clear_consumer s = do
  w ← get
  let queue = (w.source s).consumer_queue
  λ v. some (tt, stop_consumers queue v)
  modify_source s (λ v. record v { consumer_queue = [] })
  delete_caches s
  clear_gop s
  modify_source s reset_times
  pure (clients_of w queue)

-- `BlsSource::consumer_is_empty`
unfoldable pub consumer_is_empty : Source → Bool
consumer_is_empty v = elim v.consumer_queue [ [] ↦ true | _ ∷ _ ↦ false ]

-- The bytes that the loops of `copy_aac_sh_data` and `copy_avc_sh_data` copy.
unfoldable pub sh_bytes : World → List ℕ → List ℕ
sh_bytes w [] = []
sh_bytes w (id ∷ ids) =
    let b = w.pool.bucket id in peek b.payload 0 b.payload_recv_len ++ sh_bytes w ids

-- `none` is the result -1.
unfoldable pub copy_aac_sh_data : World → ℕ → Option (List ℕ)
unfolding sh_bytes
copy_aac_sh_data w s = elim (w.source s).key_cache.audio_sh [
  | none ↦ none
  | some sh ↦ some (sh_bytes w sh.chain)
]

unfoldable pub copy_avc_sh_data : World → ℕ → Option (List ℕ)
unfolding sh_bytes
copy_avc_sh_data w s = elim (w.source s).key_cache.video_sh [
  | none ↦ none
  | some sh ↦ some (sh_bytes w sh.chain)
]

-- The time of a chunk of the channel, by its format.
abbrev time_value : World → ℕ → ChunkHeader → ℕ
time_value w id h = if (w.pool.bucket id).format == 0 then h.timestamp else h.delta_timestamp

-- `change_channel_chunkid`, over the chain.
unfoldable pub change_channel_chunkid : ChunkHeader → List ℕ → ℕ → M (Unit {0})
change_channel_chunkid h [] new_id = pure tt
change_channel_chunkid h (id ∷ ids) new_id = do
  w ← get
  wrap id (w.pool.bucket id).format new_id (time_value w id h) h.msg_len h.type h.stream_id
  change_channel_chunkid h ids new_id
