-- ===== src/Protocol/Receive/Chunks/Delivered.antt =====
-- All the reads of a message of several chunks (src/RtmpProtocol.cpp).
use bls.Base.{ℕ, suc, ◌+◌, ◌<◌, ◌≤◌, ◌≡◌, ◌∙◌, Option, List, [], ◌∷◌, arith, length, length-append}
use bls.World.{World, Channel}
use bls.Protocol.Receive.Chunks.Further.{feed, further_reads, further_len, feed-further_reads}
use bls.Protocol.Receive.Chunks.Middle.{Delivered}
use bls.Protocol.Receive.Chunks.First.{IsReady, feed-first}
use bls.World.Encode.Pieces.{IsCut, join, join-IsCut}
use bls.Protocol.{Conn, find_channel, ◌>>◌}
use bls.Protocol.Message.{Host, msg_decode}
use bls.Protocol.Machine.{expect_chunk}
use bls.Protocol.Receive.Delivery.Header.{channel_for}
use bls.Protocol.Receive.Delivery.Full.{full_bytes, Fits}
use bls.Protocol.Receive.Chunks.Partway.{Room}

-- The bytes of a message of several chunks, a list for each read.
abbrev pub message_reads : ℕ → ℕ → ℕ → ℕ → List ℕ → List (List ℕ) → List (List ℕ)
message_reads cid ts ty sid first more =
    (cid ∷ [])
    ∷ full_bytes ts (length (join (first ∷ more))) ty sid
    ∷ first
    ∷ further_reads cid more

-- Let an open connection wait for a chunk, in a bucket that is held. Let its chunk size be from 1 to
-- 8192, the pool keep its ownership, its buckets have 8192 bytes, its queue have a bucket for each
-- chunk of the message but the last, and no acknowledgement be due before the message's end. Let a
-- message come in two chunks or more: a byte with a chunk id of 2 to 63, a full message header with a
-- timestamp below 0xFFFFFF, a first piece of the chunk size, and then a byte of format 3 and a piece
-- for each further chunk, of the chunk size too, but for the last, which is not empty and not larger.
-- Let its channel be new, or have nothing received. Then all these reads, chunks that share a bucket
-- and chunks that do not, run the message's decoder and, after it, `expect_chunk`, in a state in which
-- that channel is the current one, its header has the fields that were sent but for the timestamp
-- delta, and its chain has got buckets whose payloads, joined, are the message; each of them is held,
-- and the pool keeps its ownership.
pub feed-msg_decode :
    (host : Host) (cid ts ty sid : ℕ) (first second : List ℕ) (more : List (List ℕ))
    (found : Option Channel) (c : Conn) (w : World)
    → let len = length (join (first ∷ second ∷ more)) in
      IsReady c w
      → Room c.chunk_size
          (suc (length more))
          (12 + (length first + further_len (second ∷ more)))
          c
          w
      → c.chunk_size ≤ 8192
      → 0 < c.chunk_size
      → IsCut c.chunk_size (first ∷ second ∷ more)
      → find_channel cid c.channels ≡ found
      → (channel_for found).header.msg_recv ≡ 0
      → 2 ≤ cid
      → cid < 64
      → Fits ts len ty sid
      → (c' : Conn) × (w' : World) × (feed host
            (message_reads cid ts ty sid first (second ∷ more))
            c
            w
          ≡ (msg_decode host >> expect_chunk) c' w')
        × Delivered cid ts len ty sid (channel_for found).chain (join (first ∷ second ∷ more)) c' w'
feed-msg_decode host cid ts ty sid first second more found c w ready room lim some_size cut fc rc lo
      hi fits =
    let size = c.chunk_size in
    let rest = join (second ∷ more) in
    let len = length (join (first ∷ second ∷ more)) in
    let some_rest = join-IsCut size second more some_size cut.1 in
    let total : len ≡ length first + length rest = length-append first rest in
    let (c1, w1, e1, p1, room1) =
      feed-first host cid ts len ty sid (length more) (further_len (second ∷ more)) first found c w
        ready room lim some_size cut.0 (omega (arith, total, some_rest)) fc rc lo hi fits in
    let (c2, w2, e2, done) =
      feed-further_reads host cid ts len ty sid (channel_for found).chain size lo hi fits
        (omega (arith, total, some_rest)) some_size lim ts (0 + length first) (c.current_chunk ∷ [])
        first second more c1 w1 p1 room1 cut.1 (omega (arith, total)) in
    (c2, w2, e1 ((192 + cid) ∷ []) (second ∷ further_reads cid more) ∙ e2, done)
