-- ===== src/Pool/Held.antt =====
-- A list of references that a caller holds, and what is left when all of them go
-- (src/RtmpChunkPool.cpp).
use bls.Base.{ℕ, ◌+◌, ◌≤◌, ◌<◌, ◌≡◌, List, [], ◌∷◌, arith, count, ◌==◌, if◌then◌else◌}
use bls.Pool.{Pool, free_chunk_bucket, free_chain}
use bls.Pool.Inv.{Inv, count-nil}
use bls.Pool.Free.{Held, count-cons, free_chunk_bucket-Inv}

-- Each bucket of the list is held, with as many references at least as it stands in the list.
abbrev pub HoldsAll : Pool → List ℕ → Type 0
HoldsAll p ids = (i : ℕ) → 0 < count i ids → Held p i × (count i ids ≤ (p.bucket i).ref_count)

-- One release takes one reference, from its bucket only.
free_one :
    (p : Pool) (id i : ℕ)
    → Held p id
    → let q = free_chunk_bucket p id in
      ((q.bucket i).ref_count + (if id == i then 1 else 0) ≡ (p.bucket i).ref_count)
      × (q.next_bucket_id ≡ p.next_bucket_id)
unfolding free_chunk_bucket
free_one p id i h = ground (arith, h)

rest-HoldsAll :
    (p : Pool) (id : ℕ) (ids : List ℕ)
    → HoldsAll p (id ∷ ids)
    → Held p id
    → HoldsAll (free_chunk_bucket p id) ids
rest-HoldsAll p id ids h held i some_left =
    let counted = count-cons i id ids in
    let (below, enough) = h i (omega (arith, counted, some_left)) in
    let (one, next) = free_one p id i held in
    (
      omega (arith, below, enough, one, next, counted, some_left),
      omega (arith, enough, one, counted),
    )

-- The releases keep the ownership, and each bucket loses as many references as it stands in the list.
pub free_chain-releases :
    (ids : List ℕ) (p : Pool)
    → Inv p
    → HoldsAll p ids
    → Inv (free_chain p ids)
      × ((i : ℕ) → ((free_chain p ids).bucket i).ref_count + count i ids ≡ (p.bucket i).ref_count)
unfolding free_chain
free_chain-releases [] p v h = (v, λ i. omega (arith, count-nil i))
free_chain-releases (id ∷ ids) p v h =
    let (held, enough) = h id (ground (arith, count-cons id id ids)) in
    let (inv, fewer) =
      free_chain-releases ids (free_chunk_bucket p id) (free_chunk_bucket-Inv p id v held)
        (rest-HoldsAll p id ids h held) in
    (inv, λ i. omega (arith, fewer i, (free_one p id i held).0, count-cons i id ids))
