-- ===== src/Protocol/Receive/Chunks/First.antt =====
-- The reads of the first chunk of several (src/RtmpProtocol.cpp).
use bls.Base.{
  ℕ, suc, ◌+◌, ◌<◌, ◌≤◌, ◌≡◌, refl, sym, ap, ◌∙◌, Option, some, List, [], ◌∷◌, ◌++◌, arith, length,
}
use mathlib.Core.List.{append-nil}
use bls.Pool.Free.{Held}
use bls.Protocol.Receive.Delivery.Last.{Stands-Open}
use bls.Pool.Inv.{Inv, count-nil}
use bls.World.{World, Channel}
use bls.Protocol.Receive.Chunks.Further.{feed}
use bls.Protocol.{Conn, in_payload, in_header, find_channel, bind, ◌>>◌}
use bls.Protocol.Control.{counted}
use bls.Protocol.Message.{Host}
use bls.Protocol.Receive.{read_cb}
use bls.Protocol.Receive.Delivery.{started}
use bls.Protocol.Receive.Delivery.Basic.{read_basic}
use bls.Protocol.Receive.Delivery.Header.{channel_for}
use bls.Protocol.Receive.Delivery.Full.{full_bytes, message_of, Fits, read_full}
use bls.Protocol.Receive.Delivery.Whole.{IsIdle, Quiet-counted}
use bls.Protocol.Receive.Chunks.Keeps.{Keeps, Keeps-Rewrites}
use bls.Protocol.Receive.Chunks.Partway.{part_of, Partway, Room, Quiet-≤, expects_full}
use bls.Protocol.Receive.Chunks.Middle.{read_payload_on}

-- Where a connection stands before the first byte of a message: it waits for a chunk, in a bucket that
-- is held.
pub record IsReady (c : Conn) (w : World) : Type 0 where
  pub idle : IsIdle c w
  pub inv : Inv w.pool
  pub current_held : Held w.pool c.current_chunk

IsReady-Keeps : (c : Conn) (w : World) → IsReady c w → Keeps c.current_chunk [] [] w
IsReady-Keeps c w ready = record {
  inv = ready.inv;
  current_held = ready.current_held;
  ids_held = λ i h. absurd (omega (arith, h, count-nil i));
  content = refl;
}

feed_first :
    (host : Host) (a b d : List ℕ) (e : List ℕ) (es : List (List ℕ)) (c c' c'' : Conn)
    (w w' w'' : World)
    → read_cb host a c w ≡ some (tt, c', w')
    → read_cb host b c' w' ≡ some (tt, c'', w'')
    → feed host (a ∷ b ∷ d ∷ e ∷ es) c w ≡ (read_cb host d >> feed host (e ∷ es)) c'' w''
feed_first host a b d e es c c' c'' w w' w'' p q =
    bind (read_cb host a) (λ _. feed host (b ∷ d ∷ e ∷ es)) p
    ∙ bind (read_cb host b) (λ _. feed host (d ∷ e ∷ es)) q

-- The three reads of the first chunk: the connection waits for the second one.
pub feed-first :
    (host : Host) (cid ts len ty sid k rest : ℕ) (first : List ℕ) (found : Option Channel)
    (c : Conn) (w : World)
    → IsReady c w
    → Room c.chunk_size (suc k) (12 + (length first + rest)) c w
    → c.chunk_size ≤ 8192
    → 0 < c.chunk_size
    → length first ≡ c.chunk_size
    → length first < len
    → find_channel cid c.channels ≡ found
    → (channel_for found).header.msg_recv ≡ 0
    → 2 ≤ cid
    → cid < 64
    → Fits ts len ty sid
    → (c' : Conn) × (w' : World) × ((a : List ℕ) (others : List (List ℕ))
        → feed host ((cid ∷ []) ∷ full_bytes ts len ty sid ∷ first ∷ a ∷ others) c w
          ≡ feed host (a ∷ others) c' w')
      × Partway cid c.chunk_size
          (part_of ts ts len ty sid (0 + length first))
          (channel_for found).chain
          (c.current_chunk ∷ [])
          first
          c'
          w'
      × Room c.chunk_size k rest c' w'
feed-first host cid ts len ty sid k rest first found c w ready room lim some_size whole more fc rc
      lo hi fits =
    let idle = ready.idle in
    let n = length first in
    let hdr = full_bytes ts len ty sid in
    let chain = (channel_for found).chain in
    let some_len : 0 < len = omega (arith, more) in
    let (q1, q11) = Quiet-counted 1 (11 + (n + rest)) c (Quiet-≤ c _ _ (omega arith) room.quiet) in
    let (w1, e1, s1, r1) =
      read_basic host cid c w idle.awaits_byte idle.is_up idle.at_begin idle.no_payload idle.no_name
        idle.none_received q1 lo hi in
    let c1 : Conn = record (counted 1 c) {
      reading = some (started c.current_chunk in_header 1 11);
    } in
    let (q2, q3) = Quiet-counted 11 (n + rest) c1 q11 in
    let recv_len =
      expects_full (message_of ts len ty sid 0) c.chunk_size (omega (arith, whole, more))
        (omega (arith, fits.len_fits)) lim
      ∙ sym whole in
    let (w2, m, e2, s2, r2, f2) =
      read_full host cid ts len ty sid n found c1 w1 refl idle.is_up s1 fc rc fits some_len recv_len
        (omega (arith, whole, some_size)) q2 in
    let c2 : Conn = record (counted 11 c1) {
      channels = m;
      current_channel = some cid;
      reading = some (started c.current_chunk in_payload 0 n);
    } in
    let kept2 =
      Keeps-Rewrites c.current_chunk [] [] w1 w2
        (Keeps-Rewrites c.current_chunk [] [] w w1 (IsReady-Keeps c w ready) r1) r2 in
    let found2 : find_channel cid m
        ≡ some (record { header = message_of ts len ty sid 0; chain = chain ++ [] }) =
      f2
      ∙ ap (λ l. some (record { header = message_of ts len ty sid 0; chain = l }))
          (sym (append-nil chain)) in
    let (c3, w3, e3, p3, room3) =
      read_payload_on host cid k rest c.chunk_size (message_of ts len ty sid 0) chain [] [] [] first
        c2 w2 refl refl idle.is_up (Stands-Open 0 cid _ s2) found2 kept2
        (record {
          same_size = refl;
          buckets = omega (arith, room.buckets, ap length r1.queue_kept, ap length r2.queue_kept);
          fits = omega (arith, room.fits, r1.size_kept, r2.size_kept);
          quiet = q3;
        })
        lim (omega (arith, whole, lim)) (omega (arith, more)) (omega (arith, fits.len_fits)) in
    (
      c3,
      w3,
      λ a others.
          feed_first host (cid ∷ []) hdr first a others c c1 c2 w w1 w2 e1 e2
          ∙ bind (read_cb host first) (λ _. feed host (a ∷ others)) e3,
      p3,
      room3,
    )
