-- ===== src/Protocol/Receive/Delivery/Whole.antt =====
-- The three reads of a message of one chunk, one after the other (src/RtmpProtocol.cpp).
use bls.Base.{
  sym, subst, ◌++◌, ℕ, ◌+◌, ◌<◌, ◌≤◌, ◌≡◌, inl, inr, refl, ap, ◌∙◌, false, Option, none, some, List,
  [], ◌∷◌, arith, length,
}
use bls.Chunk.{size_basic_header}
use bls.World.{World, Channel}
use bls.Protocol.{Conn, in_header, in_payload, find_channel, and_then, bind, ◌>>◌}
use bls.Protocol.Control.{counted}
use bls.Protocol.Message.{Host, msg_decode}
use bls.Protocol.Machine.{expect_chunk}
use bls.Protocol.Receive.{read_cb}
use bls.Protocol.Receive.Delivery.{Quiet, started, the_bucket}
use bls.Protocol.Receive.Delivery.Header.{channel_for}
use bls.Protocol.Receive.Delivery.Basic.{read_basic}
use bls.Protocol.Receive.Delivery.Full.{full_bytes, message_of, Fits, expects, read_full}
use bls.Protocol.Receive.Delivery.Last.{Holds, Filled, Stands-Open, read_last}

pub Quiet-counted : (k n : ℕ) (c : Conn) → Quiet c (k + n) → (Quiet c k) × (Quiet (counted k c) n)
Quiet-counted k n c (inl z) = (inl z, inl z)
Quiet-counted k n c (inr (a, b)) = (inr (omega (arith, a), b), inr (ground (arith, a, b), b))

-- A connection that waits for the first byte of a chunk, as `expect_chunk` leaves it.
pub record IsIdle (c : Conn) (w : World) : Type 0 where
  pub awaits_byte : c.reading ≡ some (started c.current_chunk in_header 0 1)
  pub is_up : c.is_closed ≡ false
  pub at_begin : (the_bucket c w).state ≡ size_basic_header
  pub no_payload : (the_bucket c w).payload_length ≡ 0
  pub no_name : (the_bucket c w).source_stream_name ≡ none
  pub none_received : (the_bucket c w).payload_recv_len ≡ 0

-- Let a connection that is open wait for the first byte of a chunk, with no acknowledgement due before
-- the chunk's end. Let a message come in one chunk: a byte with a chunk id of 2 to 63, a full message
-- header with a timestamp below 0xFFFFFF, and a payload of at least one byte that fits the
-- connection's chunk size, 8192 and the pool's buckets. Let its channel be new, or have nothing
-- received. Then the three reads run the message's decoder and, after it, `expect_chunk`, in a state
-- in which that channel is the current one, its header has the fields that were sent, the current
-- bucket is the last of its chain, and that bucket holds the payload and its length.
pub read_cb-msg_decode :
    (host : Host) (cid ts ty sid : ℕ) (payload : List ℕ) (found : Option Channel) (c : Conn)
    (w : World)
    → IsIdle c w
    → Quiet c (12 + length payload)
    → find_channel cid c.channels ≡ found
    → (channel_for found).header.msg_recv ≡ 0
    → 2 ≤ cid
    → cid < 64
    → Fits ts (length payload) ty sid
    → 0 < length payload
    → length payload ≤ c.chunk_size
    → length payload ≤ 8192
    → length payload ≤ w.pool.payload_size
    → (c' : Conn) × (w' : World) × ((read_cb host (cid ∷ [])
            >> read_cb host (full_bytes ts (length payload) ty sid)
            >> read_cb host payload)
          c w
        ≡ (msg_decode host >> expect_chunk) c' w')
      × Holds cid ts (length payload) ty sid (channel_for found).chain payload c' w'
read_cb-msg_decode host cid ts ty sid payload found c w idle q fc rc lo hi k p ck lim room =
    let n = length payload in
    let hdr = full_bytes ts n ty sid in
    let (q1, q11) =
      Quiet-counted 1 (11 + n) c
        (elim q [ inl z ↦ inl z | inr z ↦ inr (omega (arith, z.0), z.1) ]) in
    let (w1, e1, s1, p1) =
      read_basic host cid c w idle.awaits_byte idle.is_up idle.at_begin idle.no_payload idle.no_name
        idle.none_received q1 lo hi in
    let c1 : Conn = record (counted 1 c) {
      reading = some (started c.current_chunk in_header 1 11);
    } in
    let (q2, q3) = Quiet-counted 11 n c1 q11 in
    let (w2, m, e2, s2, p2, f2) =
      read_full host cid ts n ty sid n found c1 w1 refl idle.is_up s1 fc rc k p
        (expects (message_of ts n ty sid 0) c.chunk_size refl ck lim) p q2 in
    let c2 : Conn = record (counted 11 c1) {
      channels = m;
      current_channel = some cid;
      reading = some (started c.current_chunk in_payload 0 n);
    } in
    let (c3, w3, e3, got) =
      read_last host cid (message_of ts n ty sid 0) (channel_for found).chain [] payload c2 w2 refl
        refl (Stands-Open 0 cid _ s2) f2 (omega arith) (omega (arith, k.len_fits))
        (omega (arith, p1.size_kept, p2.size_kept, room)) q3 in
    let held = subst (λ id. Filled payload (w3.pool.bucket id)) (sym got.same_chunk) got.filled in
    (
      c3,
      w3,
      ap (and_then (λ _. read_cb host payload))
            (bind (read_cb host (cid ∷ [])) (λ _. read_cb host hdr) e1 ∙ e2)
          ∙ e3,
      record {
        is_current = got.is_current;
        has_message =
            subst
              (λ id.
                find_channel cid c3.channels
                ≡ some (record {
                  header = message_of ts n ty sid 0;
                  chain = (channel_for found).chain ++ id ∷ [];
                }))
              (sym got.same_chunk) got.has_message;
        has_payload = held.content;
        has_length = held.size;
      },
    )
