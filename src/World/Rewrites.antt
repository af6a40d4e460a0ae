-- ===== src/World/Rewrites.antt =====
-- A step that writes into one bucket of src/RtmpChunkPool.cpp, and leaves the rest of the pool alone.
use bls.Base.{ℕ, ◌≡◌, ◌≢◌, refl, ◌∙◌, arith, count}
use bls.Chunk.{Bucket}
use bls.Pool.{put_bucket}
use bls.Pool.Inv.{Inv}
use bls.World.{World}

-- The bucket keeps its references; every other bucket, and the queue, are as they were.
pub record Rewrites (id : ℕ) (w w' : World) : Type 0 where
  pub others : (i : ℕ) → i ≢ id → w'.pool.bucket i ≡ w.pool.bucket i
  pub ref_kept : (w'.pool.bucket id).ref_count ≡ (w.pool.bucket id).ref_count
  pub queue_kept : w'.pool.queue ≡ w.pool.queue
  pub valid_kept : w'.pool.valid_chunk_num ≡ w.pool.valid_chunk_num
  pub next_kept : w'.pool.next_bucket_id ≡ w.pool.next_bucket_id
  pub size_kept : w'.pool.payload_size ≡ w.pool.payload_size

pub Rewrites-refl : (id : ℕ) (w : World) → Rewrites id w w
Rewrites-refl id w = record {
  others = λ i n. refl;
  ref_kept = refl;
  queue_kept = refl;
  valid_kept = refl;
  next_kept = refl;
  size_kept = refl;
}

pub Rewrites-trans : (id : ℕ) (u v w : World) → Rewrites id u v → Rewrites id v w → Rewrites id u w
Rewrites-trans id u v w a b = record {
  others = λ i n. b.others i n ∙ a.others i n;
  ref_kept = b.ref_kept ∙ a.ref_kept;
  queue_kept = b.queue_kept ∙ a.queue_kept;
  valid_kept = b.valid_kept ∙ a.valid_kept;
  next_kept = b.next_kept ∙ a.next_kept;
  size_kept = b.size_kept ∙ a.size_kept;
}

pub put_bucket-Rewrites :
    (id : ℕ) (b : Bucket) (w : World)
    → b.ref_count ≡ (w.pool.bucket id).ref_count
    → Rewrites id w (record w { pool = put_bucket w.pool id b })
put_bucket-Rewrites id b w e = record {
  others = λ i n. ground (arith, n);
  ref_kept = ground (arith, e);
  queue_kept = refl;
  valid_kept = refl;
  next_kept = refl;
  size_kept = refl;
}

-- A bucket that is not in the queue may be written: the ownership is kept.
pub Rewrites-Inv :
    (id : ℕ) (w w' : World)
    → Rewrites id w w'
    → count id w.pool.queue ≡ 0
    → Inv w.pool
    → Inv w'.pool
Rewrites-Inv id w w' k out v = record {
  owned = λ i. ground (arith, v.owned i, k.others i, k.ref_kept, k.queue_kept, k.next_kept, out);
  counted = ground (arith, v.counted, k.valid_kept, k.queue_kept);
}
