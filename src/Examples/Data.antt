-- ===== src/Examples/Data.antt =====
-- Buckets, pools, players, sources and connections to run the model on.
use bls.Base.{
  ℕ, zero, suc, ◌+◌, true, false, Option, none, some, List, [], ◌∷◌, Mem, if◌then◌else◌, ◌==◌,
  length, ◌≡◌, refl, arith,
}
use bls.Chunk.{Bucket, size_basic_header, new_chunk_header}
use bls.Pool.{Pool, init_chunk_pool}
use bls.World.{World, Source, Channel, AvBuffer, Consumer, ConsumerState, Write, run}
use bls.Protocol.{pure, Conn, Reading}
use bls.Protocol.Message.{Host}

-- A memory of zeros behind the given bytes.
unfoldable pub memory : List ℕ → Mem
memory [] i = 0
memory (x ∷ xs) zero = x
memory (x ∷ xs) (suc i) = memory xs i

-- So many bytes of zero.
unfoldable pub zeros : ℕ → List ℕ
zeros zero = []
zeros (suc n) = 0 ∷ zeros n

pub length-zeros : (n : ℕ) → length (zeros n) ≡ n
unfolding zeros
length-zeros zero = refl
length-zeros (suc n) = omega (arith, length-zeros n)

abbrev pub raw_bucket : Bucket
raw_bucket = record {
  header_length = 0;
  payload_length = 0;
  header_recv_len = 0;
  payload_recv_len = 0;
  ref_count = 0;
  chunk_id = 0;
  format = 0;
  state = size_basic_header;
  header = λ _. 0;
  payload = λ _. 0;
  source_stream_name = none;
}

abbrev pub raw_pool : Pool
raw_pool = record {
  bucket = λ _. raw_bucket;
  queue = [];
  payload_size = 0;
  pool_size = 0;
  valid_chunk_num = 0;
  add_pool_count = 0;
  next_bucket_id = 0;
}

-- A pool as the server makes it, of three buckets.
abbrev pub new_pool : Pool
new_pool = init_chunk_pool raw_pool 8192 3

abbrev pub full_pool : Pool
full_pool = record raw_pool { pool_size = 3; add_pool_count = 100 }

-- Bucket 2 has some references, bucket 1 is in the queue.
abbrev pub busy_pool : ℕ → Pool
busy_pool n = record {
  bucket = λ i. if i == 2 then record raw_bucket { ref_count = n } else raw_bucket;
  queue = 1 ∷ [];
  payload_size = 8192;
  pool_size = 2;
  valid_chunk_num = 1;
  add_pool_count = 1;
  next_bucket_id = 2;
}

-- The first chunk of a key frame, one of another frame, a continuation, and sequence headers.
abbrev pub key_chunk : Bucket
key_chunk = record raw_bucket { payload = memory (0x17 ∷ 1 ∷ []); payload_length = 2 }

abbrev pub inter_chunk : Bucket
inter_chunk = record raw_bucket { payload = memory (0x27 ∷ 1 ∷ []); payload_length = 2 }

abbrev pub next_chunk : Bucket
next_chunk = record raw_bucket { format = 3; payload_length = 2 }

abbrev pub sh_chunk : Bucket
sh_chunk = record raw_bucket { payload = memory (0x17 ∷ 0 ∷ []); payload_length = 2 }

abbrev pub channel_of : List ℕ → Channel
channel_of chain = record { header = new_chunk_header; chain = chain }

abbrev pub empty_cache : AvBuffer
empty_cache = record {
  metadata = none;
  key_frame = none;
  video_sh = none;
  audio_sh = none;
  gop = none;
  gop_counter = 0;
}

-- A cache with metadata and sequence headers.
abbrev pub ready_cache : AvBuffer
ready_cache = record empty_cache {
  metadata = some (channel_of []);
  video_sh = some (channel_of []);
  audio_sh = some (channel_of []);
}

abbrev pub source_with : AvBuffer → Source
source_with cache = record {
  stream_name = 7;
  is_publishing = true;
  video_chunkid = 70;
  audio_chunkid = 71;
  metadata_buf = λ _. 0;
  metadata_len = 0;
  abs_record_time = 0;
  time_index = 0;
  key_cache = cache;
  video_time = 0;
  audio_time = 0;
  consumer_queue = [];
}

abbrev pub player : ConsumerState → ℕ → Consumer
player state buffered = record {
  client = 4;
  stream_id = 1;
  video_chunk_id = 70;
  audio_chunk_id = 71;
  state = state;
  stream_name = 7;
  is_alive = true;
  first_audio_chunk_header = 0;
  first_video_chunk_header = 0;
  first_key_fram_chunk_header = 0;
  first_audio2_chunk_header = 0;
  metadata_chunk_header = 0;
  chunk_in_buffer_num = buffered;
}

abbrev pub world_of : Pool → List Write → AvBuffer → World
world_of pool pending cache = record {
  pool = pool;
  socket = λ _. record { is_open = true; send_bytes = 0; pending = pending };
  source = λ _. source_with cache;
  consumer = λ _. player run 0;
  play_consumer = λ _. some 5;
  client_count = 1;
  source_pool = 8 ∷ 9 ∷ [];
  source_map = (7, 0) ∷ [];
}

abbrev pub conn_of : List (ℕ × Channel) → ℕ → Option Reading → Conn
conn_of channels chunk_size reading = record {
  client = 4;
  channels = channels;
  current_chunk = 1;
  current_channel = none;
  window_size = 10;
  acked_size = 0;
  total_recved_size = 0;
  total_recved_video_msg = 0;
  total_recved_audio_msg = 0;
  pong_get = true;
  publish_source = none;
  chunk_size = chunk_size;
  node_buf_len = 0;
  node_read_buf = λ _. 0;
  enable_video_up = true;
  is_closed = false;
  has_server = true;
  reading = reading;
}

abbrev pub host_of_sums : Host
host_of_sums = record {
  add_time = λ t base. t + base;
  av_buf_len = 2048;
  on_msg = λ _ _. pure tt;
  on_pong = λ _. pure tt;
  on_av = λ _ _ _ _ _. pure tt;
}
