-- ===== src/Pool/Alloc.antt =====
-- `alloc_chunk_bucket`: what it returns and when it fails.
pub mod Grown
use bls.Base.{
  ℕ, suc, ◌+◌, ◌≤◌, ◌<◌, ◌≡◌, ◌≢◌, refl, ap, none, some, List, [], ◌∷◌, ◌++◌, ◌⊎◌, inl, inr, arith,
  length, count, length-append, List-cases, Returns,
}
use bls.Pool.{Pool, split_last, refill, take_last, alloc_chunk_bucket, add_pool_queue}
use bls.Pool.Inv.{Inv, count-snoc, add_pool_queue-Inv, add_buckets-Grows}

-- The last entry of a queue that is not empty.
split_last-snoc :
    (x : ℕ) (xs : List ℕ)
    → (ys : List ℕ) × (y : ℕ) × (split_last (x ∷ xs) ≡ some (ys, y)) × (x ∷ xs ≡ ys ++ y ∷ [])
unfolding split_last
split_last-snoc x [] = ([], x, refl, refl)
split_last-snoc x (z ∷ zs) =
    let (ys, y, e, f) = split_last-snoc z zs in (x ∷ ys, y, rw e, ap (◌∷◌ x) f)

-- What an allocation promises its caller.
pub record IsFresh (p : Pool) (r : ℕ × Pool) : Type 0 where
  pub inv : Inv r.1
  pub in_range : (0 < r.0) × (r.0 ≤ r.1.next_bucket_id)
  pub one_reference : (r.1.bucket r.0).ref_count ≡ 1
  pub nameless : (r.1.bucket r.0).source_stream_name ≡ none
  pub empty : ((r.1.bucket r.0).payload_length ≡ 0) × ((r.1.bucket r.0).payload_recv_len ≡ 0)
  pub was_free : count r.0 p.queue ≡ 1
  pub left_queue : count r.0 r.1.queue ≡ 0
  pub others_queued : (i : ℕ) → i ≢ r.0 → count i r.1.queue ≡ count i p.queue
  pub others_kept : (i : ℕ) → i ≢ r.0 → r.1.bucket i ≡ p.bucket i
  pub queue_shorter : length p.queue ≡ length r.1.queue + 1
  pub payload_size_kept : r.1.payload_size ≡ p.payload_size
  pub next_kept : r.1.next_bucket_id ≡ p.next_bucket_id

take_last-IsFresh :
    (p : Pool) (x : ℕ) (xs : List ℕ) → Inv p → p.queue ≡ x ∷ xs → Returns (take_last p) (IsFresh p)
take_last-IsFresh p x xs v q =
    let (ys, y, e, f) = split_last-snoc x xs in
    let longer : suc (length xs) ≡ length ys + 1 =
      omega (arith, ap length f, length-append ys (y ∷ [])) in
    rw (q, e)
      (record {
        inv = record {
          owned = λ i. ground (arith, v.owned i, q, f, count-snoc i y ys);
          counted = omega (arith, v.counted, ap length q, longer);
        };
        in_range = ground (arith, v.owned y, q, f, count-snoc y y ys);
        one_reference = ground (arith, v.owned y, q, f, count-snoc y y ys);
        nameless = ground (arith, v.owned y, q, f, count-snoc y y ys);
        empty = ground arith;
        was_free = ground (arith, v.owned y, q, f, count-snoc y y ys);
        left_queue = ground (arith, v.owned y, q, f, count-snoc y y ys);
        others_queued = λ i ne. ground (arith, q, f, count-snoc i y ys);
        others_kept = λ i h. ground arith;
        queue_shorter = longer;
        payload_size_kept = refl;
        next_kept = refl;
      })

pub payload_size-refill : (p : Pool) → (refill p).payload_size ≡ p.payload_size
unfolding add_pool_queue
payload_size-refill p = elim (List-cases p.queue) [
  | inl e ↦ rw (e, refill) (ground (arith, add_buckets-Grows p.pool_size p.payload_size p []))
  | inr (x, xs, e) ↦ rw (e, refill)
]

refill-cons :
    (p : Pool)
    → (p.queue ≢ []) ⊎ ((0 < p.pool_size) × (p.add_pool_count < 100))
    → (x : ℕ) × (xs : List ℕ) × ((refill p).queue ≡ x ∷ xs)
unfolding add_pool_queue
refill-cons p h = elim (List-cases p.queue) [
  | inr (x, xs, e) ↦ (x, xs, rw (e, refill) e)
  | inl e ↦
      let g = add_buckets-Grows p.pool_size p.payload_size p [] in
      elim (List-cases (refill p).queue) [
        | inr c ↦ c
        | inl none_made ↦ absurd (ground (arith, g, e, none_made))
      ]
]

refill-Inv : (p : Pool) → Inv p → Inv (refill p)
refill-Inv p v = elim (List-cases p.queue) [
  | inl e ↦ rw (e, refill) (add_pool_queue-Inv p p.payload_size p.pool_size v)
  | inr (x, xs, e) ↦ rw (e, refill) v
]

-- If the queue has a bucket, or the pool may still grow by a pool of at least one, the allocation
-- returns a bucket that the queue held and no longer holds, with one reference, no name and no
-- payload; every other bucket is as it was, and the ownership is kept.
pub alloc_chunk_bucket-IsFresh :
    (p : Pool)
    → Inv p
    → (p.queue ≢ []) ⊎ ((0 < p.pool_size) × (p.add_pool_count < 100))
    → Returns (alloc_chunk_bucket p) (IsFresh (refill p))
unfolding alloc_chunk_bucket
alloc_chunk_bucket-IsFresh p v h =
    let (x, xs, e) = refill-cons p h in take_last-IsFresh (refill p) x xs (refill-Inv p v) e

-- Once the pool has grown a hundred times and its queue is empty, the next allocation takes the
-- queue's own head for a bucket.
pub alloc_chunk_bucket_exhausted :
    (p : Pool) → p.queue ≡ [] → 100 ≤ p.add_pool_count → alloc_chunk_bucket p ≡ none
unfolding alloc_chunk_bucket add_pool_queue split_last
alloc_chunk_bucket_exhausted p q h = ground arith
