-- ===== src/Examples/Buckets.antt =====
-- The byte codes, the chunk headers and the pool at concrete buckets.
use bls.Base.{[], List, ℕ, ◌^◌, ◌<◌, ◌≡◌, refl, inr, ◌∷◌, ◌++◌, arith, Returns, count}
use bls.Bytes.{
  read_2bytes, read_3bytes, read_4bytes, read_8bytes, write_2bytes, write_3bytes, write_4bytes,
  write_8bytes,
}
use bls.Bytes.RoundTrip.{read-write}
use bls.Chunk.Wrap.{wrap_chunk_header}
use bls.Chunk.Wrap.Layout.{IsWrapped, basic_header, message_header, wrap_chunk_header-IsWrapped}
use bls.Pool.{Pool, alloc_chunk_bucket, free_chunk_bucket, free_chain}
use bls.Pool.Inv.{Inv, init_chunk_pool-Inv}
use bls.Pool.Alloc.Grown.{Allocated, alloc_chunk_bucket-Allocated}
use bls.Pool.Free.{Released, times, free_chain-times}
use bls.Pool.Spec.{Op, alloc, share, release, History, ledger}
use bls.Pool.Refines.{AllAllowed, apply_all, apply_all-History}
use bls.Pool.{add_reference}
use bls.World.Encode.{encode_buf_to_chunk_chain}
use bls.World.Encode.Payload.{Encoded, encoded_wire, encode_buf_to_chunk_chain-Encoded}
use bls.Examples.Data.{world_of, empty_cache, raw_bucket, raw_pool, new_pool, busy_pool}

read-write_example :
    (513 < 2 ^ 16 → read_2bytes (write_2bytes (λ _. 9) 4 513) 4 ≡ 513)
    × (513 < 2 ^ 24 → read_3bytes (write_3bytes (λ _. 9) 4 513) 4 ≡ 513)
    × (513 < 2 ^ 32 → read_4bytes (write_4bytes (λ _. 9) 4 513) 4 ≡ 513)
    × (513 < 2 ^ 64 → read_8bytes (write_8bytes (λ _. 9) 4 513) 4 ≡ 513)
read-write_example = read-write (λ _. 9) 4 513

wrap_chunk_header-IsWrapped_example :
    Returns
      (wrap_chunk_header raw_bucket 1 400 0x1000000 6 8 1)
      (IsWrapped raw_bucket 1 400 (basic_header 1 400 ++ message_header 1 0x1000000 6 8 1))
wrap_chunk_header-IsWrapped_example =
    wrap_chunk_header-IsWrapped raw_bucket 1 400 0x1000000 6 8 1 (omega arith) (omega arith)

pub new_pool-Inv : Inv new_pool
new_pool-Inv = init_chunk_pool-Inv raw_pool 8192 3 refl

pub busy_pool-Inv : (n : ℕ) → 0 < n → n < 2 ^ 16 → Inv (busy_pool n)
unfolding count
busy_pool-Inv n h k = record { owned = λ i. ground arith; counted = refl }

-- Both buckets of a pool are in use.
abbrev full_pool : Pool
full_pool = record (busy_pool 1) {
  bucket = λ _. record raw_bucket { ref_count = 1 };
  queue = [];
  valid_chunk_num = 0;
}

empty_queue-Inv : Inv full_pool
unfolding count
empty_queue-Inv = record { owned = λ i. ground arith; counted = refl }

alloc_chunk_bucket-Allocated_example : Returns (alloc_chunk_bucket full_pool) (Allocated full_pool)
alloc_chunk_bucket-Allocated_example =
    alloc_chunk_bucket-Allocated full_pool empty_queue-Inv (inr (omega arith, omega arith))

-- Three of three references go.
free_chain-times_example : Released 3 2 (busy_pool 3) (free_chain (busy_pool 3) (times 3 2))
free_chain-times_example =
    free_chain-times 3 (busy_pool 3) 2 (busy_pool-Inv 3 (omega arith) (omega arith)) (ground arith)
      (omega arith)

encode_buf_to_chunk_chain-Encoded_example :
    Returns
      (encode_buf_to_chunk_chain (1 ∷ 2 ∷ 3 ∷ []) 1 0 18 5 (world_of (busy_pool 1) [] empty_cache))
      (Encoded
        (world_of (busy_pool 1) [] empty_cache)
        (1 ∷ 2 ∷ 3 ∷ [])
        (encoded_wire (1 ∷ 2 ∷ 3 ∷ []) 1 0 18 5))
encode_buf_to_chunk_chain-Encoded_example =
    encode_buf_to_chunk_chain-Encoded (1 ∷ 2 ∷ 3 ∷ []) 1 0 18 5
      (world_of (busy_pool 1) [] empty_cache) (omega arith)
      (busy_pool-Inv 1 (omega arith) (omega arith)) (omega arith) (omega arith) (omega arith)

-- A reference to bucket 2 is added and dropped, and a bucket allocated.
abbrev three_ops : List Op
three_ops = share 2 ∷ release 2 ∷ alloc ∷ []

three_ops-AllAllowed : AllAllowed three_ops (busy_pool 1)
unfolding add_reference free_chunk_bucket
three_ops-AllAllowed =
    (ground arith, λ p e. (ground (arith, e), λ q f. (ground (arith, e, f), λ r g. tt)))

apply_all-History_example :
    Returns
      (apply_all three_ops (busy_pool 1))
      λ (q : Pool). History three_ops (ledger (busy_pool 1)) (ledger q) × Inv q
apply_all-History_example =
    apply_all-History three_ops (busy_pool 1) (busy_pool-Inv 1 (omega arith) (omega arith))
      three_ops-AllAllowed
