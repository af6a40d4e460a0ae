-- ===== src/Pool/Spec.antt =====
-- What src/RtmpChunkPool.cpp promises, without the order of its queue: which buckets are free, and how
-- many references each has.
use mathlib.Core.Quot
use mathlib.Core.Quot.{Quot, Quot-set}
use bls.Base.{ℕ, ◌+◌, ◌<◌, ◌≡◌, ◌⊎◌, List, [], ◌∷◌, arith, count, ◌==◌, if◌then◌else◌}
use bls.Pool.{Pool}
use bls.Pool.Free.{count-cons}

-- Two queues with the same buckets, each as often.
abbrev pub SameBuckets : List ℕ → List ℕ → Type 0
SameBuckets xs ys = (i : ℕ) → count i xs ≡ count i ys

abbrev pub FreeBuckets : Type 0
FreeBuckets = Quot SameBuckets

pub SameBuckets-cons :
    (id : ℕ) (xs ys : List ℕ) → SameBuckets xs ys → SameBuckets (id ∷ xs) (id ∷ ys)
SameBuckets-cons id xs ys h i = omega (arith, h i, count-cons i id xs, count-cons i id ys)

-- One bucket more is free.
unfoldable pub with_free : ℕ → FreeBuckets → FreeBuckets
with_free id =
    Quot.lift Quot-set (λ xs. Quot.mk (id ∷ xs))
      (λ xs ys h. Quot.sound (SameBuckets-cons id xs ys h))

pub record Ledger : Type 0 where
  pub free : FreeBuckets
  pub references : ℕ → ℕ

abbrev pub with_references : (ℕ → ℕ) → ℕ → ℕ → ℕ → ℕ
with_references r id n i = if i == id then n else r i

-- The operations on a pool.
pub data Op : Type 0 where
  alloc : Op
  share release : ℕ → Op

-- What each operation does to a ledger: an allocation takes a free bucket with one reference; a
-- bucket that has references gets one more; a release drops one of several references, or drops the
-- last, and the bucket is free.
abbrev pub Moves : Op → Ledger → Ledger → Type 0
Moves alloc k l =
    (id : ℕ) × (k.free ≡ with_free id l.free) × (l.references ≡ with_references k.references id 1)
Moves (share id) k l =
    (0 < k.references id)
    × (l.free ≡ k.free)
    × (l.references ≡ with_references k.references id (k.references id + 1))
Moves (release id) k l =
    ((n : ℕ) × (k.references id ≡ n + 2)
      × (l.free ≡ k.free)
      × (l.references ≡ with_references k.references id (n + 1)))
    ⊎ ((k.references id ≡ 1)
        × (l.free ≡ with_free id k.free)
        × (l.references ≡ with_references k.references id 0))

-- The moves of a list of operations, one for each and in its order.
abbrev pub History : List Op → Ledger → Ledger → Type 0
History [] k l = k ≡ l
History (op ∷ ops) k m = (l : Ledger) × Moves op k l × History ops l m

-- The ledger of a pool.
abbrev pub ledger : Pool → Ledger
ledger p = record { free = Quot.mk p.queue; references = λ i. (p.bucket i).ref_count }
