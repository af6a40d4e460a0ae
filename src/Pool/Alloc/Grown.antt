-- ===== src/Pool/Alloc/Grown.antt =====
-- `alloc_chunk_bucket` when the pool grows (src/RtmpChunkPool.cpp): the buckets that exist already.
use bls.Base.{
  ℕ, zero, suc, ◌+◌, ◌≤◌, ◌<◌, ◌≡◌, ◌≢◌, refl, ◌∙◌, none, List, [], ◌∷◌, ◌++◌, ◌⊎◌, inl, inr, arith,
  ap, subst, sym, count-append, leb, Bool-cases, count, List-cases, Returns, Returns-elim,
}
use bls.Pool.{Pool, refill, make_bucket, add_buckets, add_pool_queue, alloc_chunk_bucket}
use bls.Pool.Inv.{Inv, count-nil, count-snoc, add_buckets-Grows}
use bls.Pool.Alloc.{IsFresh, alloc_chunk_bucket-IsFresh}

-- The loop makes only buckets with new ids.
add_buckets_new :
    (n size : ℕ) (p : Pool) (q : List ℕ) (i : ℕ)
    → i ≤ p.next_bucket_id
    → let r = add_buckets n size p q in (r.0.bucket i ≡ p.bucket i) × (count i r.1 ≡ count i q)
unfolding add_buckets
add_buckets_new zero size p q i h = (refl, refl)
add_buckets_new (suc n) size p q i h = ground (
  arith,
  add_buckets_new n size (make_bucket size p) (q ++ (p.next_bucket_id + 1) ∷ []) i,
  count-snoc i (p.next_bucket_id + 1) q,
)

add_pool_queue_new :
    (p : Pool) (size n i : ℕ)
    → i ≤ p.next_bucket_id
    → let q = add_pool_queue p size n in
      (q.bucket i ≡ p.bucket i) × (count i q.queue ≡ count i p.queue)
unfolding add_pool_queue
add_pool_queue_new p size n i h =
    let r = add_buckets n size p [] in
    let made = add_buckets_new n size p [] i h in
    let old = ap (count i) (add_buckets-Grows n size p []).queue_kept in
    elim (Bool-cases (leb 100 p.add_pool_count)) [
      | inl full ↦ rw full (refl, refl)
      | inr room ↦
          rw room (made.0, omega (arith, made.1, old, count-nil i, count-append i r.0.queue r.1))
    ]

refill_none : (p : Pool) → p.queue ≡ [] → refill p ≡ add_pool_queue p p.payload_size p.pool_size
refill_none p e =
    ap (λ q. elim q [ [] ↦ add_pool_queue p p.payload_size p.pool_size | _ ∷ _ ↦ p ]) e

refill_some : (p : Pool) (x : ℕ) (xs : List ℕ) → p.queue ≡ x ∷ xs → refill p ≡ p
refill_some p x xs e =
    ap (λ q. elim q [ [] ↦ add_pool_queue p p.payload_size p.pool_size | _ ∷ _ ↦ p ]) e

abbrev HasOld : Pool → ℕ → Pool → Type 0
HasOld p i q = (q.bucket i ≡ p.bucket i) × (count i q.queue ≡ count i p.queue)

-- The pool with its queue refilled has the buckets it had, as they were.
refill_new : (p : Pool) (i : ℕ) → i ≤ p.next_bucket_id → HasOld p i (refill p)
refill_new p i h = elim (List-cases p.queue) [
  | inl e ↦
      subst (HasOld p i) (sym (refill_none p e))
        (add_pool_queue_new p p.payload_size p.pool_size i h)
  | inr (x, xs, e) ↦ subst (HasOld p i) (sym (refill_some p x xs e)) (refl, refl)
]

-- What an allocation makes of the pool it is asked of.
pub record Allocated (p : Pool) (r : ℕ × Pool) : Type 0 where
  pub inv : Inv r.1
  pub one_reference : (r.1.bucket r.0).ref_count ≡ 1
  pub nameless : (r.1.bucket r.0).source_stream_name ≡ none
  pub empty : ((r.1.bucket r.0).payload_length ≡ 0) × ((r.1.bucket r.0).payload_recv_len ≡ 0)
  pub was_free : (count r.0 p.queue ≡ 1) ⊎ ((p.queue ≡ []) × (p.next_bucket_id < r.0))
  pub left_queue : count r.0 r.1.queue ≡ 0
  pub others_queued : (i : ℕ) → i ≤ p.next_bucket_id → i ≢ r.0 → count i r.1.queue ≡ count i p.queue
  pub others_kept : (i : ℕ) → i ≤ p.next_bucket_id → i ≢ r.0 → r.1.bucket i ≡ p.bucket i

origin :
    (p : Pool) (r : ℕ × Pool)
    → IsFresh (refill p) r
    → (count r.0 p.queue ≡ 1) ⊎ ((p.queue ≡ []) × (p.next_bucket_id < r.0))
origin p r fresh = elim (List-cases p.queue) [
  | inl e ↦
      let new = refill_new p r.0 in
      let none_left : count r.0 p.queue ≡ 0 = ap (count r.0) e ∙ count-nil r.0 in
      inr (e, ground (arith, fresh.was_free, none_left, new))
  | inr (x, xs, e) ↦ inl (subst (λ q. count r.0 q.queue ≡ 1) (refill_some p x xs e) fresh.was_free)
]

-- If the queue has a bucket, or the pool may still grow by a pool of at least one, the allocation
-- returns a bucket that was in the queue, or a new one where the queue was empty. It has one
-- reference, no name and no payload, and is not in the queue. Every other bucket that there was is
-- as it was and in the queue or not as before, also where the pool grew, and the ownership is kept.
pub alloc_chunk_bucket-Allocated :
    (p : Pool)
    → Inv p
    → (p.queue ≢ []) ⊎ ((0 < p.pool_size) × (p.add_pool_count < 100))
    → Returns (alloc_chunk_bucket p) (Allocated p)
alloc_chunk_bucket-Allocated p v h =
    let (r, e, fresh) =
      Returns-elim (alloc_chunk_bucket p) (IsFresh (refill p)) (alloc_chunk_bucket-IsFresh p v h) in
    rw e (record {
      inv = fresh.inv;
      one_reference = fresh.one_reference;
      nameless = fresh.nameless;
      empty = fresh.empty;
      was_free = origin p r fresh;
      left_queue = fresh.left_queue;
      others_queued = λ i k ne. fresh.others_queued i ne ∙ (refill_new p i k).1;
      others_kept = λ i k ne. fresh.others_kept i ne ∙ (refill_new p i k).0;
    })
