-- ===== src/Protocol/Receive/Chunks/RoundTrip.antt =====
-- A message from one side's encoder to the other side's decoder (src/RtmpProtocol.cpp,
-- src/addon.cpp).
use bls.Base.{
  drop, if◌then◌else◌, ℕ, suc, ◌+◌, ◌*◌, ◌<◌, ◌≤◌, ◌≡◌, refl, sym, subst, ap, ◌∙◌, Option, List, [],
  ◌∷◌, ◌++◌, arith, length, length-append, take, Returns, Returns-elim, lt→ltb,
}
use bls.Pool.Inv.{Inv}
use bls.World.{World, Channel}
use bls.World.Encode.{encode_buf_to_chunk_chain}
use bls.World.Encode.Payload.{
  wire_of, further_wire, message_wire, encoded_wire, Encoded, encode_buf_to_chunk_chain-Encoded,
}
use bls.World.Encode.Pieces.{IsCut, join, pieces, pieces_after, pieces-IsCut, join-pieces}
use bls.Protocol.{Conn, find_channel, ◌>>◌}
use bls.Protocol.Message.{Host, msg_decode}
use bls.Protocol.Machine.{expect_chunk}
use bls.Protocol.Receive.Delivery.{Quiet}
use bls.Protocol.Receive.Delivery.Header.{channel_for}
use bls.Protocol.Receive.Delivery.Full.{full_bytes, Fits}
use bls.Protocol.Receive.Chunks.Further.{feed, further_reads, further_len}
use bls.Protocol.Receive.Chunks.Middle.{Delivered}
use bls.Protocol.Receive.Chunks.First.{IsReady}
use bls.Protocol.Receive.Chunks.Delivered.{message_reads, feed-msg_decode}

-- The reads that the machine makes of a chunk: its first byte, the rest of its header if there is
-- one, and its payload.
abbrev pub header_reads : List ℕ → List (List ℕ)
header_reads [] = []
header_reads (x ∷ []) = (x ∷ []) ∷ []
header_reads (x ∷ y ∷ ys) = (x ∷ []) ∷ (y ∷ ys) ∷ []

abbrev pub reads_of : List (List ℕ × List ℕ) → List (List ℕ)
reads_of [] = []
reads_of ((header, payload) ∷ chunks) = header_reads header ++ payload ∷ reads_of chunks

reads_of-further_wire :
    (cid : ℕ) (ps : List (List ℕ))
    → cid < 64
    → reads_of (further_wire cid ps) ≡ further_reads cid ps
reads_of-further_wire cid [] hi = refl
reads_of-further_wire cid (p ∷ ps) hi = rw (lt→ltb cid 64 hi, reads_of-further_wire cid ps hi) refl

reads_of-message_wire :
    (cid ts ty sid : ℕ) (first : List ℕ) (more : List (List ℕ))
    → cid < 64
    → ts < 0xFFFFFF
    → reads_of (message_wire cid ts (length (join (first ∷ more))) ty sid first more)
      ≡ message_reads cid ts ty sid first more
reads_of-message_wire cid ts ty sid first more hi early =
    rw (lt→ltb cid 64 hi, lt→ltb ts 0xFFFFFF early, reads_of-further_wire cid more hi)
      (ap
        (λ x.
          (x ∷ [])
          ∷ full_bytes ts (length (join (first ∷ more))) ty sid
          ∷ first
          ∷ further_reads cid more)
        (omega arith))

-- The bytes of a message, with those of its headers.
further_len-join :
    (cid : ℕ) (ps : List (List ℕ)) → length (join (further_reads cid ps)) ≡ further_len ps
further_len-join cid [] = refl
further_len-join cid (p ∷ ps) =
    omega (arith, further_len-join cid ps, length-append p (join (further_reads cid ps)))

length-message_reads :
    (cid ts ty sid : ℕ) (first : List ℕ) (more : List (List ℕ))
    → length (join (message_reads cid ts ty sid first more))
      ≡ 12 + (length first + further_len more)
length-message_reads cid ts ty sid first more =
    omega (arith, further_len-join cid more, length-append first (join (further_reads cid more)))

-- A message cut into pieces is longer than all of them but one.
length-IsCut :
    (size : ℕ) (p : List ℕ) (ps : List (List ℕ))
    → IsCut size (p ∷ ps)
    → length ps * size < length (join (p ∷ ps))
length-IsCut size p [] cut = omega (arith, cut.0, length-append p [])
length-IsCut size p (q ∷ ps) cut =
    omega (arith, cut.0, length-IsCut size q ps cut.1, length-append p (join (q ∷ ps)))

-- A message that is longer than a chunk, cut at 8192 bytes, comes at a connection with that chunk size.
feed-pieces :
    (host : Host) (cid ts ty sid : ℕ) (first second : List ℕ) (more : List (List ℕ))
    (found : Option Channel) (c : Conn) (w : World)
    → let buf = join (first ∷ second ∷ more) in
      IsCut 8192 (first ∷ second ∷ more)
      → IsReady c w
      → c.chunk_size ≡ 8192
      → 8192 ≤ w.pool.payload_size
      → length buf ≤ 8192 + 8192 * length w.pool.queue
      → let wire = message_wire cid ts (length buf) ty sid first (second ∷ more) in
        Quiet c (length (join (reads_of wire)))
        → find_channel cid c.channels ≡ found
        → (channel_for found).header.msg_recv ≡ 0
        → 2 ≤ cid
        → cid < 64
        → Fits ts (length buf) ty sid
        → (c' : Conn) × (w' : World) × (feed host (reads_of wire) c w
            ≡ (msg_decode host >> expect_chunk) c' w')
          × Delivered cid ts (length buf) ty sid (channel_for found).chain buf c' w'
feed-pieces host cid ts ty sid first second more found c w cut ready size room buckets q fc rc lo hi
      fits =
    let same = reads_of-message_wire cid ts ty sid first (second ∷ more) hi fits.time_fits in
    let bytes =
      ap (λ rs. length (join rs)) same ∙ length-message_reads cid ts ty sid first (second ∷ more) in
    let count_more = length-IsCut 8192 first (second ∷ more) cut in
    let (c1, w1, e, done) =
      feed-msg_decode host cid ts ty sid first second more found c w ready
        (record {
          same_size = refl;
          buckets = omega (arith, count_more, buckets);
          fits = omega (arith, size, room);
          quiet = subst (Quiet c) bytes q;
        })
        (omega (arith, size)) (omega (arith, size))
        (subst (λ n. IsCut n (first ∷ second ∷ more)) (sym size) cut) fc rc lo hi fits in
    (c1, w1, ap (λ rs. feed host rs c w) same ∙ e, done)

-- The same for a buffer that is cut.
feed-buf :
    (host : Host) (cid ts ty sid : ℕ) (buf : List ℕ) (found : Option Channel) (c : Conn) (w : World)
    → 8192 < length buf
    → IsReady c w
    → c.chunk_size ≡ 8192
    → 8192 ≤ w.pool.payload_size
    → length buf ≤ 8192 + 8192 * length w.pool.queue
    → Quiet c (length (join (reads_of (encoded_wire buf sid ts ty cid))))
    → find_channel cid c.channels ≡ found
    → (channel_for found).header.msg_recv ≡ 0
    → 2 ≤ cid
    → cid < 64
    → Fits ts (length buf) ty sid
    → (c' : Conn) × (w' : World) × (feed host (reads_of (encoded_wire buf sid ts ty cid)) c w
        ≡ (msg_decode host >> expect_chunk) c' w')
      × Delivered cid ts (length buf) ty sid (channel_for found).chain buf c' w'
feed-buf host cid ts ty sid buf found c w long ready size room buckets q fc rc lo hi fits =
    let n = length buf in
    let second = take 8192 (drop 8192 buf) in
    let more = pieces_after n (drop 8192 buf) in
    let all = take 8192 buf ∷ second ∷ more in
    let two : pieces (suc n) buf ≡ all = rw (lt→ltb 8192 n long) refl in
    let whole : join all ≡ buf = ap join (sym two) ∙ join-pieces (suc n) buf (omega arith) in
    let cut =
      subst (IsCut 8192) two (pieces-IsCut (suc n) buf (omega arith) (omega (arith, long))) in
    let wire : List ℕ → List (List ℕ × List ℕ) =
      λ b. message_wire cid ts (length b) ty sid (take 8192 buf) (second ∷ more) in
    let same : encoded_wire buf sid ts ty cid ≡ wire buf =
      ap (message_wire cid ts n ty sid (take 8192 buf))
        (ap (λ b. if b then second ∷ more else []) (lt→ltb 8192 n long)) in
    subst
      (λ x.
        (c' : Conn) × (w' : World) × (feed host (reads_of x) c w
          ≡ (msg_decode host >> expect_chunk) c' w')
        × Delivered cid ts n ty sid (channel_for found).chain buf c' w')
      (sym same)
      (subst
        (λ b.
          (c' : Conn) × (w' : World) × (feed host (reads_of (wire b)) c w
            ≡ (msg_decode host >> expect_chunk) c' w')
          × Delivered cid ts (length b) ty sid (channel_for found).chain b c' w')
        whole
        (feed-pieces host cid ts ty sid (take 8192 buf) second more found c w cut ready size room
          (omega (arith, buckets, ap length whole))
          (subst (λ b. Quiet c (length (join (reads_of (wire b))))) (sym whole)
            (subst (λ x. Quiet c (length (join (reads_of x)))) same q))
          fc rc lo hi (subst (λ b. Fits ts (length b) ty sid) (sym whole) fits)))

-- What `encode_buf_to_chunk_chain` puts on the wire arrives. Let a buffer of more than 8192 bytes be
-- encoded, with a timestamp below 0xFFFFFF, a chunk id of 2 to 63 and the other fields in the range of
-- their places, from a pool that keeps its ownership and whose queue has a bucket of 8192 bytes for
-- each 8192 bytes. Let the receiving connection be open and wait for a chunk, in a bucket that is
-- held, with a chunk size of 8192, a pool that keeps its ownership, buckets of that size, one in the
-- queue for each further 8192 bytes, no acknowledgement due before the message's end, and a channel
-- that is new or has nothing received. Then the encoder returns a chain, and the reads of the headers
-- and payloads of its buckets run the receiver's decoder and, after it, `expect_chunk`, in a state in
-- which the message's header has the fields that were encoded, but for the timestamp delta, and the
-- chain of its channel has got buckets, each of them held, whose payloads, joined, are the buffer; the
-- receiver's pool keeps its ownership.
pub feed-encode_buf_to_chunk_chain :
    (host : Host) (buf : List ℕ) (sid ts ty cid : ℕ) (u : World) (found : Option Channel) (c : Conn)
    (w : World)
    → Inv u.pool
    → 8192 ≤ u.pool.payload_size
    → 0 < length u.pool.queue
    → length buf ≤ 8192 * length u.pool.queue
    → 8192 < length buf
    → IsReady c w
    → c.chunk_size ≡ 8192
    → 8192 ≤ w.pool.payload_size
    → length buf ≤ 8192 + 8192 * length w.pool.queue
    → Quiet c (length (join (reads_of (encoded_wire buf sid ts ty cid))))
    → find_channel cid c.channels ≡ found
    → (channel_for found).header.msg_recv ≡ 0
    → 2 ≤ cid
    → cid < 64
    → Fits ts (length buf) ty sid
    → Returns (encode_buf_to_chunk_chain buf sid ts ty cid u) λ (r : List ℕ × World).
      (c' : Conn) × (w' : World) × (feed host (reads_of (wire_of r.1 r.0)) c w
        ≡ (msg_decode host >> expect_chunk) c' w')
      × Delivered cid ts (length buf) ty sid (channel_for found).chain buf c' w'
feed-encode_buf_to_chunk_chain host buf sid ts ty cid u found c w v us some_left uroom long ready
      size room buckets q fc rc lo hi fits =
    let (r, e, enc) =
      Returns-elim (encode_buf_to_chunk_chain buf sid ts ty cid u)
        (Encoded u buf (encoded_wire buf sid ts ty cid))
        (encode_buf_to_chunk_chain-Encoded buf sid ts ty cid u (omega (arith, hi)) v us some_left
          uroom) in
    let (c1, w1, f, done) =
      feed-buf host cid ts ty sid buf found c w long ready size room buckets q fc rc lo hi fits in
    rw e (c1, w1, ap (λ x. feed host (reads_of x) c w) enc.on_wire ∙ f, done)
