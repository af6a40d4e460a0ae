-- ===== src/Pool/Free.antt =====
-- `free_chunk_bucket` and the reference counts.
use bls.Base.{
  ℕ, zero, suc, ◌+◌, ◌-◌, ◌^◌, ◌≤◌, ◌<◌, ◌≡◌, ◌≢◌, refl, none, List, [], ◌∷◌, arith, count,
  if◌then◌else◌, ◌==◌, ap, subst, sym, ◌∙◌, Bool-cases, ltb, inl, inr,
}
use bls.Chunk.{Bucket}
use bls.Pool.{Pool, free_chain, free_chunk_bucket, add_reference}
use bls.Pool.Inv.{Inv}

pub count-cons : (i x : ℕ) (xs : List ℕ) → count i (x ∷ xs) ≡ (if x == i then 1 else 0) + count i xs
unfolding count
count-cons i x xs = refl

-- A bucket that somebody holds.
abbrev pub Held : Pool → ℕ → Type 0
Held p id =
    (0 < id)
    × (id ≤ p.next_bucket_id)
    × (0 < (p.bucket id).ref_count)
    × ((p.bucket id).ref_count < 2 ^ 16)

-- Dropping a reference that is held keeps the ownership.
pub free_chunk_bucket-Inv : (p : Pool) (id : ℕ) → Inv p → Held p id → Inv (free_chunk_bucket p id)
unfolding free_chunk_bucket
free_chunk_bucket-Inv p id v h = record {
  owned = λ i. ground (arith, v.owned i, v.owned id, count-cons i id p.queue);
  counted = ground (arith, v.counted);
}

-- Taking a further reference on a bucket keeps the ownership while the counter has room.
pub add_reference-Inv :
    (p : Pool) (id : ℕ)
    → Inv p
    → Held p id
    → (p.bucket id).ref_count + 1 < 2 ^ 16
    → Inv (add_reference p id)
unfolding add_reference
add_reference-Inv p id v h k = record {
  owned = λ i. ground (arith, v.owned i, v.owned id);
  counted = v.counted;
}

-- A reference that was taken and dropped again leaves the pool's queue and the bucket's counter,
-- contents and name as they were.
pub free-add_reference :
    (p : Pool) (id : ℕ)
    → Held p id
    → (p.bucket id).ref_count + 1 < 2 ^ 16
    → let q = free_chunk_bucket (add_reference p id) id in
      (q.queue ≡ p.queue) × (q.bucket id ≡ p.bucket id) × (q.valid_chunk_num ≡ p.valid_chunk_num)
unfolding free_chunk_bucket add_reference
free-add_reference p id h k = ground arith

abbrev pub times : ℕ → ℕ → List ℕ
times zero id = []
times (suc m) id = id ∷ times m id

-- What is left after `m` of a bucket's references have gone.
abbrev pub Released : ℕ → ℕ → Pool → Pool → Type 0
Released m id p q =
    Inv q
    × (m < (p.bucket id).ref_count
        → (q.queue ≡ p.queue)
          × (q.bucket id ≡ record (p.bucket id) { ref_count = (p.bucket id).ref_count - m }))
    × (m ≡ (p.bucket id).ref_count
        → (q.queue ≡ id ∷ p.queue)
          × ((q.bucket id).ref_count ≡ 0)
          × ((q.bucket id).source_stream_name ≡ none)
          × ((k : ℕ) → ((q.bucket id).header k ≡ 0) × ((q.bucket id).payload k ≡ 0)))
    × ((i : ℕ) → i ≢ id → q.bucket i ≡ p.bucket i)

-- The first of the releases, of several references.
release_one :
    (p : Pool) (id : ℕ)
    → Held p id
    → 1 < (p.bucket id).ref_count
    → let q = free_chunk_bucket p id in
      (q.queue ≡ p.queue)
      × (q.bucket id ≡ record (p.bucket id) { ref_count = (p.bucket id).ref_count - 1 })
      × (q.next_bucket_id ≡ p.next_bucket_id)
      × ((i : ℕ) → i ≢ id → q.bucket i ≡ p.bucket i)
unfolding free_chunk_bucket
release_one p id h k = ground arith

-- The last of them.
release_last :
    (p : Pool) (id : ℕ)
    → Inv p
    → Held p id
    → (p.bucket id).ref_count ≡ 1
    → Released 1 id p (free_chunk_bucket p id)
unfolding free_chunk_bucket
release_last p id v h e =
    (free_chunk_bucket-Inv p id v h, ground (arith, e), ground (arith, e), λ i ne. ground arith)

-- However many references a held bucket has, releasing `m` of them, at most all, one after the other,
-- keeps the ownership and the other buckets. As long as some are left, the queue is as it was and the
-- bucket has what it had and that many references; with the last, the bucket is the head of the
-- queue, without references or a name, and its header and payload are wiped.
pub free_chain-times :
    (m : ℕ) (p : Pool) (id : ℕ)
    → Inv p
    → Held p id
    → m ≤ (p.bucket id).ref_count
    → Released m id p (free_chain p (times m id))
unfolding free_chain
free_chain-times zero p id v h k = (v, ground arith, ground (arith, h), λ i ne. refl)
free_chain-times (suc m) p id v h k = elim (Bool-cases (ltb 1 (p.bucket id).ref_count)) [
  | inl more ↦
      let several : 1 < (p.bucket id).ref_count = ground (arith, more) in
      let (queue_kept, lower, next_kept, kept) = release_one p id h several in
      let fewer : (p.bucket id).ref_count - 1 - m ≡ (p.bucket id).ref_count - suc m = omega arith in
      let count_lower = ap (λ b. b.ref_count) lower in
      let held : Held (free_chunk_bucket p id) id =
        omega (arith, h, several, count_lower, next_kept) in
      let (inv, some_left, all_gone, others) =
        free_chain-times m (free_chunk_bucket p id) id (free_chunk_bucket-Inv p id v h) held
          (omega (arith, k, several, count_lower)) in
      (
        inv,
        λ less.
            let u = some_left (omega (arith, less, count_lower)) in
            (
              u.0 ∙ queue_kept,
              u.1
                  ∙ ap {A = Bucket} {B = Bucket} (λ b. record b { ref_count = b.ref_count - m })
                      lower
                  ∙ ap {A = ℕ} {B = Bucket} (λ n. record (p.bucket id) { ref_count = n }) fewer,
            ),
        λ all.
            let u = all_gone (omega (arith, all, count_lower)) in
            (u.0 ∙ ap (◌∷◌ id) queue_kept, u.1, u.2, u.3),
        λ i ne. others i ne ∙ kept i ne,
      )
  | inr last ↦
      let only : m ≡ 0 = ground (arith, k, last) in
      let lone : (p.bucket id).ref_count ≡ 1 = ground (arith, h, last) in
      subst (λ k. Released (suc k) id p (free_chain (free_chunk_bucket p id) (times k id)))
        (sym only) (release_last p id v h lone)
]
