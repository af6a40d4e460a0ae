-- ===== src/Protocol/Receive/Chunks/Partway.antt =====
-- A connection that has received some chunks of a message, and waits for the next (src/RtmpProtocol.cpp).
use bls.Base.{
  refl, ◌⊎◌, zero, suc, count, subst, ℕ, ◌+◌, ◌^◌, ◌<◌, ◌≤◌, ◌≡◌, ◌≢◌, inl, inr, ap, ◌∙◌, sym, some,
  List, [], ◌∷◌, ◌++◌, arith, length, ==-refl,
}
use mathlib.Core.List.{append_assoc}
use bls.Chunk.{ChunkHeader}
use bls.World.{World, Channel}
use bls.Protocol.{Conn, find_channel}
use bls.Protocol.Header.{expect_payload_len}
use bls.Protocol.Control.{counted}
use bls.Protocol.Receive.Delivery.{Quiet}
use bls.Protocol.Receive.Delivery.Payload.{set_recv}
use bls.Protocol.Receive.Delivery.Header.{find_channel-set_channel}
use bls.Protocol.Receive.Delivery.Whole.{IsIdle, Quiet-counted}
use bls.Protocol.Receive.Chunks.Filling.{Mode, linked_conn, Fills}
use bls.Protocol.Receive.Chunks.Fresh.{Claims, next_conn}
use bls.Protocol.Receive.Chunks.Keeps.{Keeps, Keeps-Rewrites, Claims-Keeps, Held-out}

zero_or_more : (n : ℕ) → (n ≡ 0) ⊎ (0 < n)
zero_or_more zero = inl refl
zero_or_more (suc n) = inr (omega arith)

-- The message header of a channel, after the first chunk and after further ones.
abbrev pub part_of : ℕ → ℕ → ℕ → ℕ → ℕ → ℕ → ChunkHeader
part_of ts delta len ty sid recv = record {
  stream_id = sid;
  timestamp = ts;
  delta_timestamp = delta;
  type = ty;
  msg_len = len;
  msg_recv = recv;
}

-- The buckets `ids`, behind the older ones of `chain`, hold what has come of the message; the last of
-- them is finished, or has room for a further chunk of the size.
pub record Partway (cid size : ℕ) (h : ChunkHeader) (chain ids payload : List ℕ) (c : Conn)
    (w : World) : Type 0 where
  pub idle : IsIdle c w
  pub has_channel : find_channel cid c.channels ≡ some (record { header = h; chain = chain ++ ids })
  pub keeps : Keeps c.current_chunk ids payload w
  pub front : List ℕ
  pub last : ℕ
  pub ends : ids ≡ front ++ last ∷ []
  pub last_once : count last front ≡ 0
  pub mode : Mode size (w.pool.bucket last)

-- A piece has gone into the current bucket, and the next one has been taken.
pub next-Partway :
    (cid id size n : ℕ) (h : ChunkHeader) (chain ids payload all : List ℕ) (c : Conn)
    (w w' w'' : World)
    → let v : Channel = record { header = h; chain = chain ++ ids } in
      let c' = linked_conn cid v n c in
      Keeps c.current_chunk ids payload w
      → Fills c.current_chunk size all w w'
      → Claims id c' w' w''
      → Partway cid size
          (set_recv (h.msg_recv + n) h)
          chain
          (ids ++ c.current_chunk ∷ [])
          (payload ++ all)
          (next_conn id c')
          w''
next-Partway cid id size n h chain ids payload all c w w' w'' k f claims =
    let v : Channel = record { header = h; chain = chain ++ ids } in
    let c' = linked_conn cid v n c in
    let held = Keeps-Rewrites c.current_chunk ids payload w w' k f.rewrites in
    let out = Held-out w' c.current_chunk held.inv held.current_held in
    let other : c.current_chunk ≢ id = λ e. ground (arith, out, claims.was_free, e) in
    record {
      idle = claims.idle;
      has_channel =
          find_channel-set_channel cid cid _ _
          ∙ rw (==-refl cid) (
              ap (λ l. some (record { header = set_recv (h.msg_recv + n) h; chain = l }))
                (append_assoc chain ids (c.current_chunk ∷ [])));
      keeps = Claims-Keeps ids payload all id c' w' w'' held f.filled claims;
      front = ids;
      last = c.current_chunk;
      ends = refl;
      last_once = not_there;
      mode = subst (Mode size) (sym (claims.others_kept c.current_chunk other)) f.mode;
    }
  where
    not_there : count c.current_chunk ids ≡ 0
    not_there = elim (zero_or_more (count c.current_chunk ids)) [
      | inl e ↦ e
      | inr more ↦ absurd ((k.ids_held c.current_chunk more).1 refl)
    ]

-- What is asked of the rest of the connection: the chunk size, buckets for the next `k` chunks, and
-- no acknowledgement due within the next bytes.
pub record Room (size k bytes : ℕ) (c : Conn) (w : World) : Type 0 where
  pub same_size : c.chunk_size ≡ size
  pub buckets : k ≤ length w.pool.queue
  pub fits : 8192 ≤ w.pool.payload_size
  pub quiet : Quiet c bytes

pub Quiet-≤ : (c : Conn) (m n : ℕ) → n ≤ m → Quiet c m → Quiet c n
Quiet-≤ c m n h (inl z) = inl z
Quiet-≤ c m n h (inr (a, b)) = inr (omega (arith, a, h), b)

pub Quiet-counted_0 : (n : ℕ) (c : Conn) → Quiet c n → Quiet (counted 0 c) n
Quiet-counted_0 n c q = (Quiet-counted 0 n c (Quiet-≤ c n (0 + n) (omega arith) q)).1

-- How much is read of the payload of a chunk: what the peer puts into one, or what is left.
pub expects_full :
    (h : ChunkHeader) (size : ℕ)
    → h.msg_recv + size ≤ h.msg_len
    → h.msg_len < 2 ^ 32
    → size ≤ 8192
    → expect_payload_len h size ≡ size
unfolding expect_payload_len
expects_full h size a b d = ground (arith, a, b, d)

pub expects_rest :
    (h : ChunkHeader) (size n : ℕ)
    → h.msg_recv + n ≡ h.msg_len
    → h.msg_len < 2 ^ 32
    → n ≤ size
    → n ≤ 8192
    → expect_payload_len h size ≡ n
unfolding expect_payload_len
expects_rest h size n a b k d = ground (arith, a, b, k, d)
