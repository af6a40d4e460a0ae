-- ===== src/World/Encode/Made.antt =====
-- One chunk of an encoded message (src/RtmpProtocol.cpp).
use bls.Base.{
  ℕ, ◌+◌, ◌≤◌, ◌<◌, ◌≡◌, ◌≢◌, refl, subst, inl, inr, true, some, List, ◌++◌, arith, Returns,
  Returns-elim, length, count, peek, poke, peek-poke, leb, le→leb, List-cases,
}
use bls.Chunk.{Bucket}
use bls.Chunk.Wrap.{wrap_chunk_header}
use bls.Chunk.Wrap.Layout.{IsWrapped, wrap_chunk_header-IsWrapped, basic_header, message_header}
use bls.Pool.{Pool, put_bucket, refill, alloc_chunk_bucket}
use bls.Pool.Inv.{Inv}
use bls.Pool.Alloc.{IsFresh, alloc_chunk_bucket-IsFresh}
use bls.World.{World}
use bls.World.Encode.{make_chunk}

-- What one chunk leaves behind.
pub record Made (w : World) (wire bytes : List ℕ) (r : ℕ × World) : Type 0 where
  pub inv : Inv r.1.pool
  pub on_wire : peek (r.1.pool.bucket r.0).header 0 (r.1.pool.bucket r.0).header_length ≡ wire
  pub content : peek (r.1.pool.bucket r.0).payload 0 (r.1.pool.bucket r.0).payload_length ≡ bytes
  pub one_reference : (r.1.pool.bucket r.0).ref_count ≡ 1
  pub socket_kept : r.1.socket ≡ w.socket
  pub was_free : count r.0 w.pool.queue ≡ 1
  pub left_queue : count r.0 r.1.pool.queue ≡ 0
  pub others_queued : (i : ℕ) → i ≢ r.0 → count i r.1.pool.queue ≡ count i w.pool.queue
  pub others_kept : (i : ℕ) → i ≢ r.0 → r.1.pool.bucket i ≡ w.pool.bucket i
  pub queue_shorter : length w.pool.queue ≡ length r.1.pool.queue + 1
  pub payload_size_kept : r.1.pool.payload_size ≡ w.pool.payload_size

pub refill_full : (p : Pool) → 0 < length p.queue → refill p ≡ p
refill_full p h = elim (List-cases p.queue) [
  | inl e ↦ absurd (ground (arith, e, h))
  | inr (x, xs, e) ↦ ground (arith, e)
]

make_chunk_eq :
    (w : World) (fmt cid ts len ty sid id : ℕ) (p : Pool) (b : Bucket) (bytes : List ℕ)
    → alloc_chunk_bucket w.pool ≡ some (id, p)
    → wrap_chunk_header (p.bucket id) fmt cid ts len ty sid ≡ some b
    → leb (length bytes) p.payload_size ≡ true
    → make_chunk fmt cid ts len ty sid bytes w
      ≡ some (
        id,
        record w {
          pool =
              put_bucket
                (put_bucket p id b)
                id
                (record b { payload = poke b.payload 0 bytes; payload_length = length bytes });
        },
      )
make_chunk_eq w fmt cid ts len ty sid id p b bytes e f g = ground (arith, e, f, g)

pub made :
    (w : World) (id : ℕ) (p : Pool) (b : Bucket) (bytes wire : List ℕ) (fmt cid : ℕ)
    → IsFresh w.pool (id, p)
    → IsWrapped (p.bucket id) fmt cid wire b
    → Made w wire bytes (
      id,
      record w {
        pool =
            put_bucket
              (put_bucket p id b)
              id
              (record b { payload = poke b.payload 0 bytes; payload_length = length bytes });
      },
    )
made w id p b bytes wire fmt cid fresh wrapped = record {
  inv = record {
    owned = λ i. ground (
      arith,
      fresh.inv.owned i,
      fresh.inv.owned id,
      fresh.left_queue,
      fresh.one_reference,
      wrapped.ref_kept,
      wrapped.name_kept,
    );
    counted = fresh.inv.counted;
  };
  on_wire = ground (arith, wrapped.on_wire);
  content = ground (arith, peek-poke bytes b.payload 0);
  one_reference = ground (arith, wrapped.ref_kept, fresh.one_reference);
  socket_kept = refl;
  was_free = fresh.was_free;
  left_queue = fresh.left_queue;
  others_queued = fresh.others_queued;
  others_kept = λ i ne. ground (arith, fresh.others_kept i ne);
  queue_shorter = fresh.queue_shorter;
  payload_size_kept = fresh.payload_size_kept;
}

pub make_chunk-Made :
    (w : World) (fmt cid ts len ty sid : ℕ) (bytes : List ℕ)
    → fmt < 4
    → cid < 65599
    → Inv w.pool
    → 0 < length w.pool.queue
    → length bytes ≤ w.pool.payload_size
    → Returns
        (make_chunk fmt cid ts len ty sid bytes w)
        (Made w (basic_header fmt cid ++ message_header fmt ts len ty sid) bytes)
make_chunk-Made w fmt cid ts len ty sid bytes a k v room fits =
    let wire = basic_header fmt cid ++ message_header fmt ts len ty sid in
    let full : refill w.pool ≡ w.pool = refill_full w.pool room in
    let (r, e, fresh) = Returns-elim (alloc_chunk_bucket w.pool) (IsFresh w.pool) (
      subst (λ q. Returns (alloc_chunk_bucket w.pool) (IsFresh q)) full
        (alloc_chunk_bucket-IsFresh w.pool v (inl (ground (arith, room))))) in
    let (b, f, wrapped) =
      Returns-elim (wrap_chunk_header (r.1.bucket r.0) fmt cid ts len ty sid)
        (IsWrapped (r.1.bucket r.0) fmt cid wire)
        (wrap_chunk_header-IsWrapped (r.1.bucket r.0) fmt cid ts len ty sid a k) in
    let g : leb (length bytes) r.1.payload_size ≡ true =
      le→leb _ _ (omega (arith, fits, fresh.payload_size_kept)) in
    rw (make_chunk_eq w fmt cid ts len ty sid r.0 r.1 b bytes e f g)
      (made w r.0 r.1 b bytes wire fmt cid fresh wrapped)
