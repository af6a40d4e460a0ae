-- ===== src/Pool.antt =====
-- The chunk pool of src/RtmpChunkPool.cpp. The file's globals are one record; a bucket's address is
-- its id, counted up from 1 as `g_bucket_id` does. The queue lists ids from head to last.
pub mod Inv
pub mod Alloc
pub mod Free
pub mod Held
pub mod Chains
pub mod Spec
pub mod Refines
use bls.Base.{
  ℕ, zero, suc, ◌+◌, ◌-◌, ◌%◌, ◌^◌, Option, none, some, List, [], ◌∷◌, ◌++◌, if◌then◌else◌, ◌==◌,
  ltb, leb, ◌>>=◌,
}
use bls.Chunk.{Bucket, rtmp_chunk_header_max}

abbrev pub max_add_pool_size_count : ℕ
max_add_pool_size_count = 100

-- What `bucket` gives at an id that was never made is whatever `malloc` would return there.
pub record Pool : Type 0 where
  pub bucket : ℕ → Bucket
  pub queue : List ℕ
  pub payload_size : ℕ
  pub pool_size : ℕ
  pub valid_chunk_num : ℕ
  pub add_pool_count : ℕ
  pub next_bucket_id : ℕ

-- A write through a bucket pointer.
abbrev pub put_bucket : Pool → ℕ → Bucket → Pool
put_bucket p id b = record p { bucket = λ i. if i == id then b else p.bucket i }

-- `size_t` and `uint16_t` counters.
abbrev pub inc64 : ℕ → ℕ
inc64 n = (n + 1) % 2 ^ 64

abbrev pub dec64 : ℕ → ℕ
dec64 n = (n + (2 ^ 64 - 1)) % 2 ^ 64

abbrev pub inc16 : ℕ → ℕ
inc16 n = (n + 1) % 2 ^ 16

abbrev pub dec16 : ℕ → ℕ
dec16 n = (n + (2 ^ 16 - 1)) % 2 ^ 16

-- "initialize a bucket"
abbrev pub init_bucket : ℕ → Bucket → Bucket
init_bucket payload_size b = record b {
  header_length = rtmp_chunk_header_max;
  payload_length = payload_size;
  ref_count = 0;
  source_stream_name = none;
}

-- One round of the loop of `add_pool_queue`: the new bucket, under the next id.
abbrev pub make_bucket : ℕ → Pool → Pool
make_bucket size p =
    let id = p.next_bucket_id + 1 in
    record (put_bucket p id (init_bucket size (p.bucket id))) { next_bucket_id = id }

-- The loop, with `n_queue`.
unfoldable pub add_buckets : ℕ → ℕ → Pool → List ℕ → Pool × List ℕ
add_buckets zero size p n_queue = (p, n_queue)
add_buckets (suc n) size p n_queue =
    add_buckets n size (make_bucket size p) (n_queue ++ (p.next_bucket_id + 1) ∷ [])

unfoldable pub add_pool_queue : Pool → ℕ → ℕ → Pool
add_pool_queue p payload_size add_size =
    if leb max_add_pool_size_count p.add_pool_count
    then p
    else let r = add_buckets add_size payload_size p [] in
      record r.0 {
        queue = r.0.queue ++ r.1;
        add_pool_count = p.add_pool_count + 1;
        valid_chunk_num = (p.valid_chunk_num + add_size) % 2 ^ 64;
      }

unfoldable pub init_chunk_pool : Pool → ℕ → ℕ → Pool
init_chunk_pool p payload_size pool_size =
    add_pool_queue
      (record p {
        payload_size = payload_size;
        pool_size = pool_size;
        add_pool_count = 0;
        valid_chunk_num = 0;
        queue = [];
      })
      payload_size pool_size

-- `ngx_queue_last` with the queue without it; `none` is the queue's own head taken for a bucket.
unfoldable pub split_last : List ℕ → Option (List ℕ × ℕ)
split_last [] = none
split_last (x ∷ []) = some ([], x)
split_last (x ∷ y ∷ ys) = split_last (y ∷ ys) >>= λ r. some (x ∷ r.0, r.1)

abbrev pub claim : Bucket → Bucket
claim b = record b {
  ref_count = inc16 b.ref_count;
  header_recv_len = 0;
  payload_recv_len = 0;
  payload_length = 0;
}

-- Grow an empty queue.
abbrev pub refill : Pool → Pool
refill p = elim p.queue [ [] ↦ add_pool_queue p p.payload_size p.pool_size | _ ∷ _ ↦ p ]

abbrev pub take_last : Pool → Option (ℕ × Pool)
take_last p = split_last p.queue >>= λ r. some (
  r.1,
  record (put_bucket p r.1 (claim (p.bucket r.1))) {
    queue = r.0;
    valid_chunk_num = dec64 p.valid_chunk_num;
  },
)

unfoldable pub alloc_chunk_bucket : Pool → Option (ℕ × Pool)
alloc_chunk_bucket p = take_last (refill p)

-- `memset` over header and payload, and `bls_delete(bucket->source_stream_name)`.
abbrev pub wipe : Bucket → Bucket
wipe b = record b { header = λ _. 0; payload = λ _. 0; source_stream_name = none }

unfoldable pub free_chunk_bucket : Pool → ℕ → Pool
free_chunk_bucket p id =
    let b : Bucket = record (p.bucket id) { ref_count = dec16 (p.bucket id).ref_count } in
    if ltb 0 b.ref_count then put_bucket p id b else record (put_bucket p id (wipe b)) {
      queue = id ∷ p.queue;
      valid_chunk_num = inc64 p.valid_chunk_num;
    }

-- `++(b->ref_count)`
unfoldable pub add_reference : Pool → ℕ → Pool
add_reference p id =
    put_bucket p id (record (p.bucket id) { ref_count = inc16 (p.bucket id).ref_count })

-- The destructor of `chunk_chain_s`.
unfoldable pub free_chain : Pool → List ℕ → Pool
unfolding free_chunk_bucket
free_chain p [] = p
free_chain p (id ∷ ids) = free_chain (free_chunk_bucket p id) ids

-- `free_chunk_bucket_queue`: the buckets go back as they are.
unfoldable pub free_chunk_bucket_queue : Pool → List ℕ → Pool
free_chunk_bucket_queue p q = record p { queue = p.queue ++ q }
