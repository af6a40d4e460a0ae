-- ===== src/Consumer/Lifecycle.antt =====
-- `init_consumer` and `free_consumer` (src/BlsConsumer.cpp).
pub mod Removed
use bls.Base.{some, ℕ, Bool, true, false, List, [], ◌∷◌, ◌==◌, if◌then◌else◌}
use bls.World.{World, Source, Consumer, wait_metadata, M, ◌>>=◌, ◌>>◌, pure, get, put_consumer}
use bls.World.Buckets.{alloc_bucket, free_bucket}

-- `k` is the address that `new` gives, and the stream's name a number.
unfoldable pub init_consumer : ℕ → ℕ → ℕ → ℕ → ℕ → ℕ → M (Unit {0})
init_consumer k client stream_name stream_id video_chunk_id audio_chunk_id = do
  first_video ← alloc_bucket
  first_audio ← alloc_bucket
  first_key_fram ← alloc_bucket
  metadata ← alloc_bucket
  first_audio2 ← alloc_bucket
  put_consumer k (record {
    client = client;
    stream_id = stream_id;
    video_chunk_id = video_chunk_id;
    audio_chunk_id = audio_chunk_id;
    state = wait_metadata;
    stream_name = stream_name;
    is_alive = false;
    first_audio_chunk_header = first_audio;
    first_video_chunk_header = first_video;
    first_key_fram_chunk_header = first_key_fram;
    first_audio2_chunk_header = first_audio2;
    metadata_chunk_header = metadata;
    chunk_in_buffer_num = 0;
  })

unfoldable pub remove_consumer : ℕ → List ℕ → List ℕ
remove_consumer k [] = []
remove_consumer k (j ∷ js) = if j == k then remove_consumer k js else j ∷ remove_consumer k js

-- `ngx_queue_remove` takes the player out of whatever queue it stands in.
abbrev pub leave_queues : ℕ → Bool → World → World
leave_queues k false w = w
leave_queues k true w = record w {
  source =
      λ s. record (w.source s) { consumer_queue = remove_consumer k (w.source s).consumer_queue };
}

unfoldable pub free_consumer : ℕ → M (Unit {0})
unfolding remove_consumer
free_consumer k = do
  w ← get
  let c = w.consumer k
  free_bucket c.first_audio_chunk_header
  free_bucket c.first_video_chunk_header
  free_bucket c.first_key_fram_chunk_header
  free_bucket c.metadata_chunk_header
  free_bucket c.first_audio2_chunk_header
  λ v. some (tt, leave_queues k c.is_alive v)
