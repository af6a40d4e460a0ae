-- ===== src/Protocol/Receive/Chunks/Middle.antt =====
-- The two reads of a further chunk: its one byte, and its payload (src/RtmpProtocol.cpp).
use bls.Base.{
  subst, count, false, sym, ℕ, suc, ◌+◌, ◌^◌, ◌<◌, ◌≤◌, ◌≡◌, inr, refl, ap, ◌∙◌, some, List, [],
  ◌∷◌, ◌++◌, arith, length, ==-refl,
}
use bls.Chunk.{ChunkHeader}
use bls.World.{World, Channel}
use bls.Protocol.{P, Conn, in_payload, find_channel, bind, ◌>>◌}
use bls.Protocol.Header.{expect_payload_len}
use bls.Protocol.Message.{Host, msg_decode}
use bls.Protocol.Machine.{expect_chunk}
use bls.Protocol.Receive.{read_cb}
use bls.Protocol.Receive.Delivery.{started, the_bucket}
use bls.Protocol.Receive.Delivery.Header.{find_channel-set_channel}
use bls.Protocol.Receive.Delivery.Full.{Fits}
use bls.Protocol.Receive.Delivery.Last.{Open, read_last}
use bls.Protocol.Receive.Chunks.Piece.{received_of}
use bls.Protocol.Receive.Chunks.Filling.{linked_conn, read_piece}
use bls.Protocol.Receive.Chunks.Fresh.{next_conn, expect_chunk-Claims}
use bls.Protocol.Receive.Chunks.Keeps.{Keeps, Keeps-Rewrites, Keeps-payloads, Keeps-Held}
use bls.Protocol.Receive.Idle.{Begins}
use bls.Protocol.Receive.Delivery.Payload.{set_recv}
use bls.Protocol.Receive.Delivery.Whole.{Quiet-counted}
use bls.Pool.Inv.{Inv}
use bls.Pool.Free.{Held}
use bls.Protocol.Receive.Chunks.Begun.{begin_further}
use bls.World.Encode.Payload.{payloads}
use mathlib.Core.List.{append_assoc}
use bls.Protocol.Receive.Chunks.Partway.{
  part_of, Partway, next-Partway, Room, Quiet-≤, Quiet-counted_0, expects_full, expects_rest,
}

-- What a connection holds when a message of several chunks is handed to its decoder: the channel with
-- the message's header, and buckets at the end of its chain, each with a reference, with the message in
-- them.
pub record Delivered (cid ts len ty sid : ℕ) (chain payload : List ℕ) (c : Conn) (w : World)
    : Type 0 where
  pub ids : List ℕ
  pub delta : ℕ
  pub is_current : c.current_channel ≡ some cid
  pub has_message :
      find_channel cid c.channels
      ≡ some (record { header = part_of ts delta len ty sid 0; chain = chain ++ ids })
  pub content : payloads w ids ≡ payload
  pub inv : Inv w.pool
  pub held : (i : ℕ) → 0 < count i ids → Held w.pool i

-- The payload of a chunk that leaves something to come: the next chunk is awaited, in another bucket.
pub read_payload_on :
    (host : Host) (cid k rest size : ℕ) (h : ChunkHeader) (chain ids payload old piece : List ℕ)
    (c : Conn) (w : World)
    → c.reading ≡ some (started c.current_chunk in_payload (length old) (length piece))
    → c.current_channel ≡ some cid
    → c.is_closed ≡ false
    → Open old (the_bucket c w)
    → find_channel cid c.channels ≡ some (record { header = h; chain = chain ++ ids })
    → Keeps c.current_chunk ids payload w
    → Room size (suc k) (length piece + rest) c w
    → size ≤ 8192
    → length old + length piece ≤ 8192
    → h.msg_recv + length piece < h.msg_len
    → h.msg_len < 2 ^ 32
    → (c' : Conn) × (w' : World) × (read_cb host piece c w ≡ some (tt, c', w'))
      × Partway cid size
          (set_recv (h.msg_recv + length piece) h)
          chain
          (ids ++ c.current_chunk ∷ [])
          (payload ++ (old ++ piece))
          c'
          w'
      × Room size k rest c' w'
read_payload_on host cid k rest size h chain ids payload old piece c w rd cur up op found keeps room
      lim room_left more big =
    let n = length piece in
    let v : Channel = record { header = h; chain = chain ++ ids } in
    let (w1, e1, fill) =
      read_piece host cid size v old piece c w rd cur op found more big room_left room.same_size
        room.fits (Quiet-≤ c (n + rest) n (omega arith) room.quiet) in
    let c1 = linked_conn cid v n c in
    let w1_keeps = Keeps-Rewrites c.current_chunk ids payload w w1 keeps fill.rewrites in
    let longer : length w1.pool.queue ≡ length w.pool.queue = ap length fill.rewrites.queue_kept in
    let quiet1 = (Quiet-counted n rest c room.quiet).1 in
    let linked : Channel = record (received_of n v) { chain = v.chain ++ c.current_chunk ∷ [] } in
    let waits : Begins c1 = inr (
      cid,
      linked,
      cur,
      find_channel-set_channel cid cid linked _ ∙ rw (==-refl cid) refl,
      omega (arith, room.same_size, lim),
    ) in
    let (id, w2, e2, claims) =
      expect_chunk-Claims c1 w1 w1_keeps.inv (omega (arith, longer, room.buckets)) up
        (Quiet-≤ c1 rest 0 (omega arith) quiet1) waits in
    (
      next_conn id c1,
      w2,
      e1 ∙ e2,
      next-Partway cid id size n h chain ids payload (old ++ piece) c w w1 w2 keeps fill claims,
      record {
        same_size = room.same_size;
        buckets = omega (arith, room.buckets, longer, claims.queue_shorter);
        fits = omega (arith, room.fits, fill.rewrites.size_kept, claims.size_kept);
        quiet = Quiet-counted_0 rest c1 quiet1;
      },
    )

-- The reads of a further chunk.
abbrev pub read_further : Host → ℕ → List ℕ → P (Unit {0})
read_further host cid piece = read_cb host ((192 + cid) ∷ []) >> read_cb host piece

module _ (host : Host) (cid ts len ty sid : ℕ) (chain : List ℕ) (lo : 2 ≤ cid) (hi : cid < 64)
    (fits : Fits ts len ty sid) (some_len : 0 < len) where
  abbrev part : ℕ → ℕ → ChunkHeader
  part delta recv = part_of ts delta len ty sid recv

  -- A chunk that leaves something to come: the next one is awaited, in another bucket.
  pub read_middle :
      (delta recv k rest size : ℕ) (ids payload piece : List ℕ) (c : Conn) (w : World)
      → Partway cid size (part delta recv) chain ids payload c w
      → Room size (suc k) (1 + (length piece + rest)) c w
      → length piece ≡ size
      → 0 < size
      → size ≤ 8192
      → recv + length piece < len
      → (c' : Conn) × (w' : World) × (d : ℕ) × (all : List ℕ) × (read_further host cid piece c w
          ≡ some (tt, c', w'))
        × Partway cid size (part d (recv + length piece)) chain all (payload ++ piece) c' w'
        × Room size k rest c' w'
  read_middle delta recv k rest size ids payload piece c w p room whole some_size lim more =
      let n = length piece in
      let recv_len : (t d : ℕ) → expect_payload_len (part_of t d len ty sid recv) c.chunk_size ≡ n =
        λ t d.
          ap (expect_payload_len (part_of t d len ty sid recv)) room.same_size
          ∙ expects_full (part_of t d len ty sid recv) size (omega (arith, more, whole))
              (omega (arith, fits.len_fits)) lim
          ∙ sym whole in
      let b =
        begin_further host cid ts len ty sid chain lo hi fits some_len delta recv n size ids payload
          c w p (Quiet-≤ c _ 1 (omega arith) room.quiet) lim recv_len
          (omega (arith, whole, some_size)) in
      let (c2, w2, e2, p2, room2) =
        read_payload_on host cid k rest size (part b.delta recv) chain b.ids b.front b.old piece
          b.conn b.world b.reads b.is_current b.is_up b.opened b.has_channel b.keeps
          (record {
            same_size = b.same_size ∙ room.same_size;
            buckets = omega (arith, room.buckets, b.queue_kept);
            fits = omega (arith, room.fits, b.size_kept);
            quiet = b.still_quiet (n + rest) room.quiet;
          })
          lim (omega (arith, b.has_room, whole)) more (omega (arith, fits.len_fits)) in
      let whole_payload : b.front ++ (b.old ++ piece) ≡ payload ++ piece =
        sym (append_assoc b.front b.old piece) ∙ ap (λ l. l ++ piece) b.whole in
      (
        c2,
        w2,
        b.delta,
        b.ids ++ b.conn.current_chunk ∷ [],
        bind (read_cb host ((192 + cid) ∷ [])) (λ _. read_cb host piece) b.comes ∙ e2,
        subst
            (λ l.
              Partway cid size (part b.delta (recv + n)) chain (b.ids ++ b.conn.current_chunk ∷ [])
                l c2 w2)
            whole_payload p2,
        room2,
      )

  -- The chunk that completes the message: its decoder runs.
  pub read_end :
      (delta recv size : ℕ) (ids payload piece : List ℕ) (c : Conn) (w : World)
      → Partway cid size (part delta recv) chain ids payload c w
      → Room size 0 (1 + length piece) c w
      → 0 < length piece
      → length piece ≤ size
      → size ≤ 8192
      → recv + length piece ≡ len
      → (c' : Conn) × (w' : World) × (read_further host cid piece c w
          ≡ (msg_decode host >> expect_chunk) c' w')
        × Delivered cid ts len ty sid chain (payload ++ piece) c' w'
  read_end delta recv size ids payload piece c w p room some_piece small lim total =
      let n = length piece in
      let recv_len : (t d : ℕ) → expect_payload_len (part_of t d len ty sid recv) c.chunk_size ≡ n =
        λ t d.
          ap (expect_payload_len (part_of t d len ty sid recv)) room.same_size
          ∙ expects_rest (part_of t d len ty sid recv) size n total (omega (arith, fits.len_fits))
              small (omega (arith, small, lim)) in
      let b =
        begin_further host cid ts len ty sid chain lo hi fits some_len delta recv n size ids payload
          c w p (Quiet-≤ c _ 1 (omega arith) room.quiet) lim recv_len some_piece in
      let id = b.conn.current_chunk in
      let (c2, w2, e2, got) =
        read_last host cid (part b.delta recv) (chain ++ b.ids) b.old piece b.conn b.world b.reads
          b.is_current b.opened b.has_channel total (omega (arith, fits.len_fits))
          (omega (arith, small, b.has_room, room.fits, b.size_kept)) (b.still_quiet n room.quiet) in
      let keeps2 = Keeps-Rewrites id b.ids b.front b.world w2 b.keeps got.rewrites in
      (
        c2,
        w2,
        bind (read_cb host ((192 + cid) ∷ [])) (λ _. read_cb host piece) b.comes ∙ e2,
        record {
          ids = b.ids ++ id ∷ [];
          delta = b.delta;
          is_current = got.is_current;
          has_message =
              got.has_message
              ∙ ap (λ l. some (record { header = part b.delta 0; chain = l }))
                  (append_assoc chain b.ids (id ∷ []));
          content =
              Keeps-payloads id b.ids b.front (b.old ++ piece) w2 keeps2 got.filled
              ∙ sym (append_assoc b.front b.old piece)
              ∙ ap (λ l. l ++ piece) b.whole;
          inv = keeps2.inv;
          held = Keeps-Held id b.ids b.front w2 keeps2;
        },
      )
