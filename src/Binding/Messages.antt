-- ===== src/Binding/Messages.antt =====
-- Messages that JavaScript sends (src/addon.cpp).
use mathlib.Core.List.{append_assoc, append-nil}
use bls.Base.{
  ℕ, ◌+◌, ◌*◌, ◌%◌, ◌<◌, ◌≤◌, ◌≡◌, refl, sym, ap, ap₂, subst, peek, ◌∙◌, true, false, Option, none,
  some, List, [], ◌∷◌, ◌++◌, map, arith, Returns, Returns-elim, length, count, ==-refl,
  if◌then◌else◌,
}
use bls.Pool.{add_reference, free_chain}
use bls.Pool.Inv.{Inv}
use bls.Pool.Chains.{add_references, CanTake, free_chain-add_references}
use bls.World.{World, Write, both, bind, pure}
use bls.World.Buckets.{free_buckets}
use bls.World.Writes.{rtmp_write_chunk, write_chunks, write_chunk_chain}
use bls.World.Encode.{encode_buf_to_chunk_chain}
use bls.World.Encode.Payload.{
  Encoded, encoded_wire, wire_of, payloads, encode_buf_to_chunk_chain-Encoded,
}
use bls.Protocol.{Conn, P, lift, lift-bind, ◌>>=◌}
use bls.Binding.{write_message_buf, chunk_id_or_3}

-- The write of a whole bucket.
abbrev pub whole : ℕ → Write
whole id = record { bucket = id; part = both; custom = none }

-- The world after the writes of a chain.
record Wrote (client : ℕ) (ids : List ℕ) (w : World) (r : Unit {0} × World) : Type 0 where
  pool_is : r.1.pool ≡ add_references w.pool ids
  pending_is : (r.1.socket client).pending ≡ (w.socket client).pending ++ map whole ids

one_write :
    (client id : ℕ) (w : World)
    → (w.socket client).is_open ≡ true
    → Returns (rtmp_write_chunk client id none w) λ (r : Unit {0} × World).
      (r.1.pool ≡ add_reference w.pool id)
      × ((r.1.socket client).pending ≡ (w.socket client).pending ++ whole id ∷ [])
      × ((r.1.socket client).is_open ≡ true)
unfolding rtmp_write_chunk
one_write client id w h = rw (h, ==-refl client) (refl, refl, h)

write_chunks-Wrote :
    (client : ℕ) (ids : List ℕ) (w : World)
    → (w.socket client).is_open ≡ true
    → Returns (write_chunks client ids w) (Wrote client ids w)
unfolding write_chunks
write_chunks-Wrote client [] w h = record {
  pool_is = refl;
  pending_is = sym (append-nil (w.socket client).pending);
}
write_chunks-Wrote client (id ∷ ids) w h =
    let (r, e, s) = Returns-elim (rtmp_write_chunk client id none w) _ (one_write client id w h) in
    let (q, f, t) =
      Returns-elim (write_chunks client ids r.1) (Wrote client ids r.1)
        (write_chunks-Wrote client ids r.1 s.2) in
    rw (bind (rtmp_write_chunk client id none) (λ _. write_chunks client ids) {w = w} e ∙ f)
      (record {
        pool_is = t.pool_is ∙ ap (λ p. add_references p ids) s.0;
        pending_is =
            t.pending_is
            ∙ ap (λ x. x ++ map whole ids) s.1
            ∙ append_assoc (w.socket client).pending (whole id ∷ []) (map whole ids);
      })

chain_writes :
    (client : ℕ) (ids : List ℕ) (w : World)
    → (w.socket client).is_open ≡ true
    → Returns
        (write_chunk_chain client ids false w)
        λ (r : List ℕ × World). (r.0 ≡ ids) × Wrote client ids w (tt, r.1)
unfolding write_chunk_chain
chain_writes client ids w h =
    let (r, e, t) =
      Returns-elim (write_chunks client ids w) (Wrote client ids w)
        (write_chunks-Wrote client ids w h) in
    rw (bind (write_chunks client ids) (λ _. pure ids) {w = w} e) (refl, t)

-- The world after a message from JavaScript.
pub record Queued (c : Conn) (w : World) (buf : List ℕ) (wire : List (List ℕ × List ℕ))
    (r : Unit {0} × Conn × World) : Type 0 where
  pub chain : List ℕ
  pub on_wire : wire_of r.2 chain ≡ wire
  pub content : payloads r.2 chain ≡ buf
  pub pending : (r.2.socket c.client).pending ≡ (w.socket c.client).pending ++ map whole chain
  pub one_reference : (i : ℕ) → 0 < count i chain → (r.2.pool.bucket i).ref_count ≡ 1
  pub from_queue : (i : ℕ) → count i chain + count i r.2.pool.queue ≡ count i w.pool.queue
  pub inv : Inv r.2.pool
  pub conn_kept : r.1 ≡ c

payloads-pool : (ids : List ℕ) (u v : World) → u.pool ≡ v.pool → payloads u ids ≡ payloads v ids
payloads-pool [] u v e = refl
payloads-pool (id ∷ ids) u v e =
    ap₂ ◌++◌ (ap (λ p. peek (p.bucket id).payload 0 (p.bucket id).payload_length) e)
      (payloads-pool ids u v e)

wire_of-pool : (ids : List ℕ) (u v : World) → u.pool ≡ v.pool → wire_of u ids ≡ wire_of v ids
wire_of-pool [] u v e = refl
wire_of-pool (id ∷ ids) u v e =
    ap₂ ◌∷◌
      (ap
        (λ p. (
          peek (p.bucket id).header 0 (p.bucket id).header_length,
          peek (p.bucket id).payload 0 (p.bucket id).payload_length,
        ))
        e)
      (wire_of-pool ids u v e)

-- A chain of an encoded message can be referred to once more.
Encoded-CanTake :
    (w : World) (buf : List ℕ) (wire : List (List ℕ × List ℕ)) (r : List ℕ × World)
    → Inv w.pool
    → Encoded w buf wire r
    → CanTake r.1.pool r.0
Encoded-CanTake w buf wire r v enc i h =
    ground (arith, h, enc.one_reference i, enc.from_queue i, v.owned i)

-- An open client whose socket is open sends a message on a chunk id below 65599: if the pool's queue
-- has a bucket for each 8192 bytes and at least one, and buckets hold 8192 bytes, then one write of a
-- whole bucket for each chunk joins the socket's pending writes, in order; the payloads of these
-- buckets, joined, are the message, and what they put on the wire is a full header with the first
-- 8192 bytes, then a header of format 3 with each further 8192 bytes, and the rest. Each bucket came
-- from the queue, and the writes hold the only references, so that it goes back with its last write;
-- the pool keeps its ownership.
pub write_message_buf-Queued :
    (c : Conn) (w : World) (buf : List ℕ) (stream_id timestamp type_id : ℕ) (chunk_id : Option ℕ)
    → c.is_closed ≡ false
    → (w.socket c.client).is_open ≡ true
    → chunk_id_or_3 chunk_id < 65599
    → Inv w.pool
    → 8192 ≤ w.pool.payload_size
    → 0 < length w.pool.queue
    → length buf ≤ 8192 * length w.pool.queue
    → Returns (write_message_buf buf stream_id timestamp type_id chunk_id c w) (
        Queued c w buf
          (encoded_wire buf stream_id timestamp (type_id % 256) (chunk_id_or_3 chunk_id)))
unfolding write_message_buf
write_message_buf-Queued c w buf stream_id timestamp type_id chunk_id h o k v size some_left room =
    let client = c.client in
    let encode =
      encode_buf_to_chunk_chain buf stream_id timestamp (type_id % 256) (chunk_id_or_3 chunk_id) in
    let wire = encoded_wire buf stream_id timestamp (type_id % 256) (chunk_id_or_3 chunk_id) in
    let (r, e, enc) = Returns-elim (encode w) (Encoded w buf wire) (
      encode_buf_to_chunk_chain-Encoded buf stream_id timestamp (type_id % 256)
        (chunk_id_or_3 chunk_id) w k v size some_left room) in
    let up : (r.1.socket client).is_open ≡ true =
      ap (λ f. (f client).is_open) enc.socket_kept ∙ o in
    let (q, f, t) =
      Returns-elim (write_chunk_chain client r.0 false r.1) _ (chain_writes client r.0 r.1 up) in
    let can = Encoded-CanTake w buf wire r v enc in
    let send : List ℕ → P (Unit {0}) =
      λ ids. lift (write_chunk_chain client ids false) >>= λ left. lift (free_buckets left) in
    let back : free_chain q.1.pool q.0 ≡ r.1.pool =
      ap₂ free_chain t.1.pool_is t.0 ∙ free_chain-add_references r.0 r.1.pool can in
    rw
      (ap (λ b. if b then some (tt, c, w) else (lift encode >>= send) c w) h
        ∙ lift-bind encode send c w e
        ∙ lift-bind (write_chunk_chain client r.0 false) (λ left. lift (free_buckets left)) c r.1 f)
      (record {
        chain = r.0;
        content =
            payloads-pool r.0 (record q.1 { pool = free_chain q.1.pool q.0 }) r.1 back
            ∙ enc.content;
        on_wire =
            wire_of-pool r.0 (record q.1 { pool = free_chain q.1.pool q.0 }) r.1 back ∙ enc.on_wire;
        pending = t.1.pending_is ∙ ap (λ f. (f client).pending ++ map whole r.0) enc.socket_kept;
        one_reference = λ i n. ap (λ p. (p.bucket i).ref_count) back ∙ enc.one_reference i n;
        from_queue = λ i. ap (λ p. count i r.0 + count i p.queue) back ∙ enc.from_queue i;
        inv = subst Inv (sym back) enc.inv;
        conn_kept = refl;
      })
