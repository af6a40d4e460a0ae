-- ===== src/Pool/Refines.antt =====
-- The pool of src/RtmpChunkPool.cpp keeps to its specification.
use mathlib.Core.Path.{fun_ext}
use mathlib.Core.Quot
use bls.Base.{
  ℕ, ◌+◌, ◌-◌, ◌%◌, ◌^◌, ◌<◌, ◌≡◌, refl, ap, subst, ◌∙◌, inl, inr, Option, none, some, List, [],
  ◌∷◌, arith, Returns, Returns-elim, length, ltb, true, false, Bool-cases,
}
use bls.Pool.{Pool, alloc_chunk_bucket, add_reference, free_chunk_bucket}
use bls.Pool.Inv.{Inv}
use bls.Pool.Alloc.{IsFresh, alloc_chunk_bucket-IsFresh}
use bls.Pool.Free.{Held, count-cons, free_chunk_bucket-Inv, add_reference-Inv}
use bls.Pool.Spec.{Op, alloc, share, release, Moves, History, ledger, with_free}
use bls.World.Encode.Made.{refill_full}

-- What an operation of the specification is in the code.
abbrev pub apply : Op → Pool → Option Pool
apply alloc p = elim (alloc_chunk_bucket p) [ none ↦ none | some (id, q) ↦ some q ]
apply (share id) p = some (add_reference p id)
apply (release id) p = some (free_chunk_bucket p id)

-- When the code may call them: a bucket is in the queue, or the caller holds the bucket.
abbrev pub Allowed : Op → Pool → Type 0
Allowed alloc p = 0 < length p.queue
Allowed (share id) p = Held p id × ((p.bucket id).ref_count + 1 < 2 ^ 16)
Allowed (release id) p = Held p id

alloc-Moves : (p : Pool) (r : ℕ × Pool) → Inv p → IsFresh p r → Moves alloc (ledger p) (ledger r.1)
unfolding with_free
alloc-Moves p r v fresh = (
  r.0,
  Quot.sound (λ i.
      ground (
        arith,
        count-cons i r.0 r.1.queue,
        fresh.was_free,
        fresh.left_queue,
        fresh.others_queued i,
      )),
  fun_ext (λ i. ground (arith, fresh.one_reference, fresh.others_kept i)),
)

share-Moves :
    (p : Pool) (id : ℕ)
    → Allowed (share id) p
    → Moves (share id) (ledger p) (ledger (add_reference p id))
unfolding add_reference
share-Moves p id (h, k) = (h.2, refl, fun_ext λ i. ground (arith, h, k))

release-Moves :
    (p : Pool) (id : ℕ)
    → Held p id
    → Moves (release id) (ledger p) (ledger (free_chunk_bucket p id))
unfolding free_chunk_bucket with_free
release-Moves p id h = elim (Bool-cases (ltb 1 (p.bucket id).ref_count)) [
  | inl more ↦
      let kept : ltb 0 (((p.bucket id).ref_count + (2 ^ 16 - 1)) % 2 ^ 16) ≡ true =
        ground (arith, more, h) in
      rw kept (
        inl (
          (p.bucket id).ref_count - 2,
          ground (arith, more),
          refl,
          fun_ext λ i. ground (arith, more, h),
        ))
  | inr last ↦
      let gone : ltb 0 (((p.bucket id).ref_count + (2 ^ 16 - 1)) % 2 ^ 16) ≡ false =
        ground (arith, last, h) in
      rw gone (inr (ground (arith, last, h), refl, fun_ext λ i. ground (arith, last, h)))
]

abbrev Moved : Op → Pool → Pool → Type 0
Moved op p q = Moves op (ledger p) (ledger q) × Inv q

abbrev Came : List Op → Pool → Pool → Type 0
Came ops p q = History ops (ledger p) (ledger q) × Inv q

apply-Moves :
    (op : Op) (p : Pool)
    → Inv p
    → Allowed op p
    → Returns (apply op p) λ (q : Pool). Moves op (ledger p) (ledger q) × Inv q
apply-Moves alloc p v k =
    let full = refill_full p k in
    let (r, e, fresh) = Returns-elim (alloc_chunk_bucket p) (IsFresh p) (
      subst (λ q. Returns (alloc_chunk_bucket p) (IsFresh q)) full
        (alloc_chunk_bucket-IsFresh p v (inl (λ z. absurd (omega (arith, k, ap length z)))))) in
    let known : apply alloc p ≡ some r.1 =
      ap (λ o. elim o [ none ↦ none | some (id, q) ↦ some q ]) e in
    rw known (alloc-Moves p r v fresh, fresh.inv)
apply-Moves (share id) p v k = (share-Moves p id k, add_reference-Inv p id v k.0 k.1)
apply-Moves (release id) p v k = (release-Moves p id k, free_chunk_bucket-Inv p id v k)

abbrev pub apply_all : List Op → Pool → Option Pool
apply_all [] p = some p
apply_all (op ∷ ops) p = elim (apply op p) [ none ↦ none | some q ↦ apply_all ops q ]

-- Each operation is allowed where the ones before it lead.
abbrev pub AllAllowed : List Op → Pool → Type 0
AllAllowed [] p = Unit {0}
AllAllowed (op ∷ ops) p = Allowed op p × ((q : Pool) → apply op p ≡ some q → AllAllowed ops q)

-- Whatever allocations, references and releases callers make, each where a bucket is in the queue or
-- where they hold the bucket, none of them faults; the pool keeps its ownership; and without the order
-- of its queue, the pool goes through the specification's moves of these operations, one for each and
-- in their order: an allocation takes a free bucket with one reference, a reference adds one to its
-- bucket, and a release drops one, and the bucket is free again with its last.
pub apply_all-History :
    (ops : List Op) (p : Pool)
    → Inv p
    → AllAllowed ops p
    → Returns (apply_all ops p) λ (q : Pool). History ops (ledger p) (ledger q) × Inv q
apply_all-History [] p v k = (refl, v)
apply_all-History (op ∷ ops) p v (k, ks) =
    let (q, e, (move, vq)) = Returns-elim (apply op p) (Moved op p) (apply-Moves op p v k) in
    let (t, f, (rest, vt)) =
      Returns-elim (apply_all ops q) (Came ops q) (apply_all-History ops q vq (ks q e)) in
    let known : apply_all (op ∷ ops) p ≡ some t =
      ap (λ o. elim o [ none ↦ none | some q ↦ apply_all ops q ]) e ∙ f in
    rw known ((ledger q, move, rest), vt)
