-- ===== src/Protocol/Receive/Delivery/Basic.antt =====
-- The read of a basic header of one byte (src/RtmpProtocol.cpp).
use bls.Base.{ℕ, ◌<◌, ◌≤◌, ◌≡◌, refl, ap, ◌∙◌, false, none, some, [], ◌∷◌, arith}
use bls.Chunk.{ChunkState, Bucket, size_basic_header, read_message_header}
use bls.World.{World}
use bls.World.Rewrites.{Rewrites, Rewrites-trans, put_bucket-Rewrites}
use bls.Protocol.{Conn, in_header}
use bls.Protocol.Control.{counted}
use bls.Protocol.Message.{Host}
use bls.Protocol.Receive.{read_cb, machine_in, read_area, stored}
use bls.Protocol.Receive.Delivery.{
  Quiet, started, read_whole, machine_step, the_bucket, on_basic_header_full,
}

-- Where the current bucket of a connection stands, in a read of a message.
pub record Stands (format chunk_id : ℕ) (state : ChunkState) (b : Bucket) : Type 0 where
  pub has_format : b.format ≡ format
  pub has_chunk_id : b.chunk_id ≡ chunk_id
  pub in_state : b.state ≡ state
  pub is_empty : b.payload_length ≡ 0
  pub is_unnamed : b.source_stream_name ≡ none
  pub is_fresh : b.payload_recv_len ≡ 0

module _ (host : Host) where
  pub read_basic :
      (cid : ℕ) (c : Conn) (w : World)
      → c.reading ≡ some (started c.current_chunk in_header 0 1)
      → c.is_closed ≡ false
      → (the_bucket c w).state ≡ size_basic_header
      → (the_bucket c w).payload_length ≡ 0
      → (the_bucket c w).source_stream_name ≡ none
      → (the_bucket c w).payload_recv_len ≡ 0
      → Quiet c 1
      → 2 ≤ cid
      → cid < 64
      → (w' : World) × (read_cb host (cid ∷ []) c w
          ≡ some (
            tt,
            record (counted 1 c) { reading = some (started c.current_chunk in_header 1 11) },
            w',
          ))
        × Stands 0 cid read_message_header (the_bucket c w')
        × Rewrites c.current_chunk w w'
  read_basic cid c w e is_up st pl nm fr q lo hi =
      let u = stored (started c.current_chunk in_header 0 1) (cid ∷ []) w in
      let buf = read_area (the_bucket c u) in_header 0 in
      let c0 : Conn = record c { reading = none } in
      let in_state : (the_bucket c u).state ≡ size_basic_header = ground (arith, st) in
      (
        _,
        read_whole host (cid ∷ []) c w c.current_chunk in_header 0 e refl
            ∙ machine_step host buf 1 c0 u q
            ∙ ap (λ s. machine_in host s buf 1 (counted 1 c0) u) in_state
            ∙ on_basic_header_full buf (counted 1 c0) u cid is_up (ground arith) lo hi,
        record {
          has_format = ground arith;
          has_chunk_id = ground arith;
          in_state = ground arith;
          is_empty = ground (arith, pl);
          is_unnamed = ground (arith, nm);
          is_fresh = ground (arith, fr);
        },
        Rewrites-trans c.current_chunk w u _ (put_bucket-Rewrites c.current_chunk _ w refl)
            (put_bucket-Rewrites c.current_chunk _ u refl),
      )
