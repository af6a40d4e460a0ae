-- ===== src/World/Buckets.antt =====
-- The pool's operations as steps of the world.
use bls.Base.{ℕ, none, some, List, leb, poke, length}
use bls.Chunk.{Bucket}
use bls.Chunk.Wrap.{wrap_chunk_header}
use bls.Pool
use bls.Pool.{Pool, put_bucket}
use bls.World.{M, ◌>>=◌, ◌>>◌, check, get}

abbrev pub alloc_bucket : M ℕ
alloc_bucket w = elim (Pool.alloc_chunk_bucket w.pool) [
  | none ↦ none
  | some (id, p) ↦ some (id, record w { pool = p })
]

abbrev pub free_bucket : ℕ → M (Unit {0})
free_bucket id w = some (tt, record w { pool = Pool.free_chunk_bucket w.pool id })

abbrev pub free_buckets : List ℕ → M (Unit {0})
free_buckets ids w = some (tt, record w { pool = Pool.free_chain w.pool ids })

abbrev pub bucket_at : ℕ → M Bucket
bucket_at id w = some (w.pool.bucket id, w)

abbrev pub set_bucket : ℕ → Bucket → M (Unit {0})
set_bucket id b w = some (tt, record w { pool = put_bucket w.pool id b })

-- `wrap_chunk_header` on the bucket at an address.
abbrev pub wrap : ℕ → ℕ → ℕ → ℕ → ℕ → ℕ → ℕ → M (Unit {0})
wrap id fmt chunk_id timestamp msg_len type_id msg_id w =
    elim (wrap_chunk_header (w.pool.bucket id) fmt chunk_id timestamp msg_len type_id msg_id) [
      | none ↦ none
      | some b ↦ some (tt, record w { pool = put_bucket w.pool id b })
    ]

-- `memcpy` to the payload from its start, which has the pool's payload size.
abbrev pub fill_payload : ℕ → List ℕ → M (Unit {0})
fill_payload id bytes = do
  w ← get
  check (leb (length bytes) w.pool.payload_size)
  b ← bucket_at id
  set_bucket id (record b { payload = poke b.payload 0 bytes; payload_length = length bytes })
