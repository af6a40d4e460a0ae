-- ===== src/Pool/Inv.antt =====
-- Who owns a bucket: the pool's queue, or its references.
use bls.Base.{
  ℕ, zero, suc, ◌+◌, ◌%◌, ◌^◌, ◌≤◌, ◌<◌, ◌≡◌, refl, none, List, [], ◌∷◌, ◌++◌, ◌⊎◌, inl, inr, arith,
  length, count, count-append, length-append, ◌==◌, leb, if◌then◌else◌, Bool-cases,
}
use mathlib.Core.List.{append-nil, append_assoc}
use bls.Chunk.{Bucket}
use bls.Pool.{
  Pool, put_bucket, init_bucket, make_bucket, add_buckets, add_pool_queue, init_chunk_pool,
}

-- A bucket stands once in the queue, without references and without a stream name, or not at all,
-- and has references that their 16-bit counter can count. An id that was never given out is not in
-- the queue.
abbrev pub Owned : (ℕ → Bucket) → ℕ → List ℕ → ℕ → Type 0
Owned bucket next queue i =
    ((count i queue ≡ 1)
      × (0 < i)
      × (i ≤ next)
      × ((bucket i).ref_count ≡ 0)
      × ((bucket i).source_stream_name ≡ none))
    ⊎ ((count i queue ≡ 0)
        × (0 < i)
        × (i ≤ next)
        × (0 < (bucket i).ref_count)
        × ((bucket i).ref_count < 2 ^ 16))
    ⊎ ((count i queue ≡ 0) × ((i ≡ 0) ⊎ (next < i)))

pub record Inv (p : Pool) : Type 0 where
  pub owned : (i : ℕ) → Owned p.bucket p.next_bucket_id p.queue i
  pub counted : p.valid_chunk_num ≡ length p.queue % 2 ^ 64

pub count-nil : (i : ℕ) → count i [] ≡ 0
unfolding count
count-nil i = refl

pub count-snoc :
    (i x : ℕ) (xs : List ℕ) → count i (xs ++ x ∷ []) ≡ count i xs + (if x == i then 1 else 0)
unfolding count
count-snoc i x xs = omega (arith, count-append i xs (x ∷ []))

-- One round of the loop keeps the ownership, over the old queue and the new one together.
add_bucket-Owned :
    (p : Pool) (size : ℕ) (q : List ℕ) (i : ℕ)
    → Owned p.bucket p.next_bucket_id q i
    → let id = p.next_bucket_id + 1 in
      Owned (put_bucket p id (init_bucket size (p.bucket id))).bucket id (q ++ id ∷ []) i
add_bucket-Owned p size q i h = ground (arith, count-snoc i (p.next_bucket_id + 1) q)

add_buckets-Owned :
    (n size : ℕ) (p : Pool) (old q : List ℕ)
    → ((i : ℕ) → Owned p.bucket p.next_bucket_id (old ++ q) i)
    → (i : ℕ) → let r = add_buckets n size p q in Owned r.0.bucket r.0.next_bucket_id (old ++ r.1) i
unfolding add_buckets
add_buckets-Owned zero size p old q h i = h i
add_buckets-Owned (suc n) size p old q h i =
    let id = p.next_bucket_id + 1 in
    add_buckets-Owned n size (make_bucket size p) old (q ++ id ∷ [])
      (λ i. rw (← append_assoc old q (id ∷ [])) (add_bucket-Owned p size (old ++ q) i (h i))) i

-- The loop touches only the buckets, and makes as many as it is asked for.
pub record Grows (p : Pool) (q : List ℕ) (n : ℕ) (r : Pool × List ℕ) : Type 0 where
  pub made : length r.1 ≡ length q + n
  pub queue_kept : r.0.queue ≡ p.queue
  pub valid_kept : r.0.valid_chunk_num ≡ p.valid_chunk_num
  pub payload_size_kept : r.0.payload_size ≡ p.payload_size
  pub pool_size_kept : r.0.pool_size ≡ p.pool_size
  pub count_kept : r.0.add_pool_count ≡ p.add_pool_count

pub add_buckets-Grows : (n size : ℕ) (p : Pool) (q : List ℕ) → Grows p q n (add_buckets n size p q)
unfolding add_buckets
add_buckets-Grows zero size p q = ground arith
add_buckets-Grows (suc n) size p q = ground (
  arith,
  add_buckets-Grows n size (make_bucket size p) (q ++ (p.next_bucket_id + 1) ∷ []),
  length-append q ((p.next_bucket_id + 1) ∷ []),
)

-- Growing the pool keeps the ownership and the count, also when growing is refused.
pub add_pool_queue-Inv : (p : Pool) (size n : ℕ) → Inv p → Inv (add_pool_queue p size n)
unfolding add_pool_queue
add_pool_queue-Inv p size n v = elim (Bool-cases (leb 100 p.add_pool_count)) [
  | inl full ↦ rw full v
  | inr room ↦
      let g = add_buckets-Grows n size p [] in
      let start : (i : ℕ) → Owned p.bucket p.next_bucket_id (p.queue ++ []) i =
        λ i. rw (append-nil p.queue) (v.owned i) in
      rw room (record {
        owned = λ i. rw g.queue_kept (add_buckets-Owned n size p p.queue [] start i);
        counted =
            rw (g.queue_kept, length-append p.queue (add_buckets n size p []).1, g.made)
              (omega (arith, v.counted));
      })
]

-- A pool that has just been made keeps ownership, whatever memory `malloc` gives it.
pub init_chunk_pool-Inv :
    (p : Pool) (size n : ℕ) → p.next_bucket_id ≡ 0 → Inv (init_chunk_pool p size n)
unfolding init_chunk_pool
init_chunk_pool-Inv p size n h =
    add_pool_queue-Inv _ size n
      (record { owned = λ i. ground (arith, count-nil i); counted = refl })
