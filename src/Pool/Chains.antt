-- ===== src/Pool/Chains.antt =====
-- References on all buckets of a chain (src/RtmpChunkPool.cpp).
use mathlib.Core.Path.{fun_ext}
use bls.Base.{◌-◌, ◌%◌, ltb, true, ℕ, ◌+◌, ◌^◌, ◌<◌, ◌≡◌, ap, ◌∙◌, List, [], ◌∷◌, arith, count}
use bls.Pool.{Pool, add_reference, free_chunk_bucket, free_chain}
use bls.Pool.Inv.{count-nil}
use bls.Pool.Free.{count-cons}

-- A reference for each time that a bucket stands in the chain.
abbrev pub add_references : Pool → List ℕ → Pool
add_references p [] = p
add_references p (id ∷ ids) = add_references (add_reference p id) ids

-- Every bucket of the chain is held, and its counter has room.
abbrev pub CanTake : Pool → List ℕ → Type 0
CanTake p ids =
    (i : ℕ)
    → 0 < count i ids
    → (0 < (p.bucket i).ref_count) × ((p.bucket i).ref_count + count i ids < 2 ^ 16)

abbrev raised : Pool → List ℕ → Pool
raised p ids = record p {
  bucket = λ i. record (p.bucket i) { ref_count = (p.bucket i).ref_count + count i ids };
}

add_reference-raised :
    (p : Pool) (id : ℕ) (ids : List ℕ)
    → CanTake p (id ∷ ids)
    → raised (add_reference p id) ids ≡ raised p (id ∷ ids)
unfolding add_reference
add_reference-raised p id ids h =
    ap (λ f. record p { bucket = f }) (fun_ext λ i. ground (arith, count-cons i id ids, h i))

free-raised :
    (p : Pool) (id : ℕ) (ids : List ℕ)
    → CanTake p (id ∷ ids)
    → free_chunk_bucket (raised p (id ∷ ids)) id ≡ raised p ids
unfolding free_chunk_bucket
free-raised p id ids h =
    let n = (p.bucket id).ref_count + count id (id ∷ ids) in
    let some_left : ltb 0 ((n + (2 ^ 16 - 1)) % 2 ^ 16) ≡ true =
      ground (arith, count-cons id id ids, h id) in
    rw some_left
      (ap (λ f. record p { bucket = f }) (fun_ext λ i. ground (arith, count-cons i id ids, h i)))

CanTake-cons :
    (p : Pool) (id : ℕ) (ids : List ℕ)
    → CanTake p (id ∷ ids)
    → (CanTake p ids) × (CanTake (add_reference p id) ids)
unfolding add_reference
CanTake-cons p id ids h = (
  λ i k. ground (arith, h i, k, count-cons i id ids),
  λ i k. ground (arith, h i, k, count-cons i id ids),
)

add_references-raised :
    (ids : List ℕ) (p : Pool) → CanTake p ids → add_references p ids ≡ raised p ids
add_references-raised [] p h =
    ap (λ f. record p { bucket = f }) (fun_ext λ i. ground (arith, count-nil i))
add_references-raised (id ∷ ids) p h =
    add_references-raised ids (add_reference p id) (CanTake-cons p id ids h).1
    ∙ add_reference-raised p id ids h

free_chain-raised : (ids : List ℕ) (p : Pool) → CanTake p ids → free_chain (raised p ids) ids ≡ p
unfolding free_chain
free_chain-raised [] p h =
    ap (λ f. record p { bucket = f }) (fun_ext λ i. ground (arith, count-nil i))
free_chain-raised (id ∷ ids) p h =
    ap (λ q. free_chain q ids) (free-raised p id ids h)
    ∙ free_chain-raised ids p (CanTake-cons p id ids h).0

-- If every bucket of a chain is held and its counter has room, then taking a reference for each place
-- in the chain and freeing the chain leaves the pool exactly as it was.
pub free_chain-add_references :
    (ids : List ℕ) (p : Pool) → CanTake p ids → free_chain (add_references p ids) ids ≡ p
free_chain-add_references ids p h =
    ap (λ q. free_chain q ids) (add_references-raised ids p h) ∙ free_chain-raised ids p h
