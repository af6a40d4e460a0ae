-- ===== src/Protocol/Receive/Chunks/Begun.antt =====
-- The two ways in which a further chunk begins: in a new bucket, and in the last one
-- (src/RtmpProtocol.cpp).
use bls.Base.{
  length-peek, ℕ, ◌+◌, ◌<◌, ◌≤◌, ◌≡◌, ◌≢◌, inl, inr, refl, ap, ◌∙◌, sym, subst, false, some, List,
  [], ◌∷◌, ◌++◌, arith, length, count, count-append, peek, ==-refl,
}
use mathlib.Core.List.{append-nil, append_assoc}
use bls.Chunk.{end, ChunkHeader}
use bls.Pool.{split_last}
use bls.Pool.Free.{Held, count-cons}
use bls.World.{World, Channel}
use bls.World.Encode.Payload.{payloads}
use bls.Protocol.{Conn, in_payload, find_channel}
use bls.Protocol.Header.{expect_payload_len}
use bls.Protocol.Control.{counted}
use bls.Protocol.Message.{Host}
use bls.Protocol.Receive.{read_cb}
use bls.Protocol.Receive.Delivery.{Quiet, started, the_bucket}
use bls.Protocol.Receive.Delivery.Header.{find_channel-set_channel}
use bls.Protocol.Receive.Delivery.Full.{Fits}
use bls.Protocol.Receive.Delivery.Last.{Open, Stands-Open}
use bls.Protocol.Receive.Chunks.Next.{continued, read_next}
use bls.Protocol.Receive.Chunks.Filling.{IsOpen}
use bls.Protocol.Receive.Chunks.Keeps.{
  Keeps, Keeps-Rewrites, split_last-append, payloads-append, payloads-kept,
}
use bls.Protocol.Receive.Chunks.Merging.{merged_conn, Reopens, read_merging}
use bls.Protocol.Receive.Chunks.Partway.{part_of, Partway, Quiet-counted_0}
use bls.Protocol.Receive.Delivery.Whole.{Quiet-counted}

-- A connection that reads the payload of a further chunk: behind the bytes `old` of the current bucket,
-- with the buckets `ids` before it.
pub record Begun (host : Host) (cid ts len ty sid recv n size : ℕ) (chain payload : List ℕ)
    (c : Conn) (w : World) : Type 0 where
  pub conn : Conn
  pub world : World
  pub delta : ℕ
  pub ids : List ℕ
  pub front : List ℕ
  pub old : List ℕ
  pub comes : read_cb host ((192 + cid) ∷ []) c w ≡ some (tt, conn, world)
  pub reads : conn.reading ≡ some (started conn.current_chunk in_payload (length old) n)
  pub is_current : conn.current_channel ≡ some cid
  pub is_up : conn.is_closed ≡ false
  pub same_size : conn.chunk_size ≡ c.chunk_size
  pub has_channel :
      find_channel cid conn.channels
      ≡ some (record { header = part_of ts delta len ty sid recv; chain = chain ++ ids })
  pub opened : Open old (the_bucket conn world)
  pub keeps : Keeps conn.current_chunk ids front world
  pub whole : front ++ old ≡ payload
  pub has_room : length old + size ≤ 8192
  pub still_quiet : (m : ℕ) → Quiet c (1 + m) → Quiet conn m
  pub queue_kept : length w.pool.queue ≤ length world.pool.queue
  pub size_kept : world.pool.payload_size ≡ w.pool.payload_size

-- What is known of the last bucket of a message that has come in part.
module _ (cid size : ℕ) (h : ChunkHeader) (chain ids payload : List ℕ) (c : Conn) (w : World)
    (p : Partway cid size h chain ids payload c w) where
  Partway-splits : split_last (chain ++ ids) ≡ some (chain ++ p.front, p.last)
  Partway-splits =
      ap (λ l. split_last (chain ++ l)) p.ends
      ∙ ap split_last (sym (append_assoc chain p.front (p.last ∷ [])))
      ∙ split_last-append (chain ++ p.front) p.last

  in_message : (i : ℕ) → 0 < count i (p.front ++ p.last ∷ []) → 0 < count i ids
  in_message i m = subst (λ l. 0 < count i l) (sym p.ends) m

  last_in : 0 < count p.last ids
  last_in =
      in_message p.last
        (ground (arith, count-append p.last p.front (p.last ∷ []), count-cons p.last p.last []))

  Partway-other : p.last ≢ c.current_chunk
  Partway-other = (p.keeps.ids_held p.last last_in).1

  Partway-Held : Held w.pool p.last
  Partway-Held = (p.keeps.ids_held p.last last_in).0

  front_in : (i : ℕ) → 0 < count i p.front → 0 < count i ids
  front_in i m = in_message i (omega (arith, m, count-append i p.front (p.last ∷ [])))

  front_other : (i : ℕ) → 0 < count i p.front → i ≢ p.last
  front_other i m e = omega (arith, subst (λ j. 0 < count j p.front) e m, p.last_once)

  reopened-Keeps :
      (w' : World)
      → Reopens c.current_chunk p.last w w'
      → Keeps p.last p.front (payloads w p.front) w'
  reopened-Keeps w' r =
      let same : (i : ℕ) → 0 < count i p.front → w'.pool.bucket i ≡ w.pool.bucket i =
        λ i m. r.others i (p.keeps.ids_held i (front_in i m)).1 (front_other i m) in
      record {
        inv = r.inv;
        current_held = ground (arith, Partway-Held, r.reopened, r.next_kept);
        ids_held = λ i m. (
          ground (arith, (p.keeps.ids_held i (front_in i m)).0, same i m, r.next_kept),
          front_other i m,
        );
        content = payloads-kept w w' p.front same;
      }

module _ (host : Host) (cid ts len ty sid : ℕ) (chain : List ℕ) (lo : 2 ≤ cid) (hi : cid < 64)
    (fits : Fits ts len ty sid) (some_len : 0 < len) where
  abbrev part : ℕ → ℕ → ChunkHeader
  part delta recv = part_of ts delta len ty sid recv

  abbrev channel : ℕ → ℕ → List ℕ → Channel
  channel delta recv ids = record { header = part delta recv; chain = chain ++ ids }

  begin_new :
      (delta recv n size : ℕ) (ids payload : List ℕ) (c : Conn) (w : World)
      (p : Partway cid size (part delta recv) chain ids payload c w)
      → (w.pool.bucket p.last).state ≡ end
      → Quiet c 1
      → size ≤ 8192
      → ((t d : ℕ) → expect_payload_len (part_of t d len ty sid recv) c.chunk_size ≡ n)
      → 0 < n
      → Begun host cid ts len ty sid recv n size chain payload c w
  begin_new delta recv n size ids payload c w p done q lim en pn =
      let splits : split_last (chain ++ ids) ≡ some (chain ++ p.front, p.last) =
        Partway-splits cid size (part delta recv) chain ids payload c w p in
      let v = channel delta recv ids in
      let (w1, e, st, r) =
        read_next host cid p.last n (chain ++ p.front) v c w p.idle q lo hi p.has_channel splits
          (Partway-other cid size (part delta recv) chain ids payload c w p) done
          (λ z. omega (arith, some_len, z)) (en _ 0) (λ z. omega (arith, pn, z)) in
      record {
        conn = record (counted 0 (counted 1 c)) {
          channels = continued cid v c.channels;
          current_channel = some cid;
          reading = some (started c.current_chunk in_payload 0 n);
        };
        world = w1;
        delta = 0;
        ids = ids;
        front = payload;
        old = [];
        comes = e;
        reads = refl;
        is_current = refl;
        is_up = p.idle.is_up;
        same_size = refl;
        has_channel =
            find_channel-set_channel cid cid _ _
            ∙ rw (==-refl cid) (
                ap
                  (λ t.
                    some (record { header = part_of t 0 len ty sid recv; chain = chain ++ ids }))
                  (omega (arith, fits.time_fits)));
        opened = Stands-Open 3 cid _ st;
        keeps = Keeps-Rewrites c.current_chunk ids payload w w1 p.keeps r;
        whole = append-nil payload;
        has_room = omega (arith, lim);
        still_quiet = λ m s. Quiet-counted_0 m (counted 1 c) (Quiet-counted 1 m c s).1;
        queue_kept = omega (arith, ap length r.queue_kept);
        size_kept = r.size_kept;
      }

  begin_merging :
      (delta recv n size : ℕ) (ids payload : List ℕ) (c : Conn) (w : World)
      (p : Partway cid size (part delta recv) chain ids payload c w)
      → IsOpen size (w.pool.bucket p.last)
      → Quiet c 1
      → ((t d : ℕ) → expect_payload_len (part_of t d len ty sid recv) c.chunk_size ≡ n)
      → 0 < n
      → Begun host cid ts len ty sid recv n size chain payload c w
  begin_merging delta recv n size ids payload c w p op q en pn =
      let b = w.pool.bucket p.last in
      let v = channel delta recv ids in
      let other = Partway-other cid size (part delta recv) chain ids payload c w p in
      let old = peek b.payload 0 b.payload_length in
      let old_len : length old ≡ b.payload_length = length-peek b.payload 0 b.payload_length in
      let (w1, e, r) =
        read_merging host cid p.last n size (chain ++ p.front) v c w p.idle q lo hi p.has_channel
          (Partway-splits cid size (part delta recv) chain ids payload c w p) other op p.keeps.inv
          p.keeps.current_held (Partway-Held cid size (part delta recv) chain ids payload c w p)
          (en ts delta) (λ z. omega (arith, pn, z)) in
      record {
        conn = merged_conn cid p.last b.payload_length n (chain ++ p.front) v c;
        world = w1;
        delta = delta;
        ids = p.front;
        front = payloads w p.front;
        old = old;
        comes = e;
        reads = ap (λ k. some (started p.last in_payload k n)) (sym old_len);
        is_current = refl;
        is_up = p.idle.is_up;
        same_size = refl;
        has_channel = find_channel-set_channel cid cid _ _ ∙ rw (==-refl cid) refl;
        opened = subst (Open old) (sym r.reopened) (record {
          content = ap (peek b.payload 0) old_len;
          size = sym old_len;
          received = op.received ∙ sym old_len;
          in_state = refl;
          is_unnamed = op.is_unnamed;
        });
        keeps = reopened-Keeps cid size (part delta recv) chain ids payload c w p w1 r;
        whole =
            ap (λ l. payloads w p.front ++ l) (sym (append-nil old))
            ∙ sym (payloads-append w p.front (p.last ∷ []))
            ∙ ap (payloads w) (sym p.ends)
            ∙ p.keeps.content;
        has_room = omega (arith, old_len, op.has_room);
        still_quiet = λ m s. Quiet-counted_0 m (counted 1 c) (Quiet-counted 1 m c s).1;
        queue_kept = r.queue_longer;
        size_kept = r.size_kept;
      }

  -- The byte of a further chunk, in either case.
  pub begin_further :
      (delta recv n size : ℕ) (ids payload : List ℕ) (c : Conn) (w : World)
      → Partway cid size (part delta recv) chain ids payload c w
      → Quiet c 1
      → size ≤ 8192
      → ((t d : ℕ) → expect_payload_len (part_of t d len ty sid recv) c.chunk_size ≡ n)
      → 0 < n
      → Begun host cid ts len ty sid recv n size chain payload c w
  begin_further delta recv n size ids payload c w p q lim en pn = elim p.mode [
    | inl done ↦ begin_new delta recv n size ids payload c w p done q lim en pn
    | inr op ↦ begin_merging delta recv n size ids payload c w p op q en pn
  ]
