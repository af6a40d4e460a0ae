-- ===== src/Protocol/Header/RoundTrip.antt =====
-- A header that `wrap_chunk_header` wrote, read by the receiving side (src/RtmpProtocol.cpp).
use bls.Base.{
  ℕ, zero, suc, ◌+◌, ◌*◌, ◌/◌, ◌%◌, ◌^◌, ◌≤◌, ◌<◌, ◌≡◌, refl, ap, sym, subst, ◌∙◌, List, [], ◌∷◌,
  ◌++◌, Mem, peek, arith, Returns, Returns-elim, ltb, ◌==◌, if◌then◌else◌, length, Bool-cases, inl,
  inr, ltb→lt,
}
use bls.Bytes.{byte, read_3bytes, read_4bytes, bytes_3, bytes_4, host_4}
use bls.Chunk.{Bucket, ChunkHeader}
use bls.Chunk.Wrap.{wrap_chunk_header}
use bls.Chunk.Wrap.Layout.{basic_header, message_header, IsWrapped, wrap_chunk_header-IsWrapped}
use bls.Protocol.Header.{read_fields}
use bls.Protocol.Receive.{ext_chunk_id}

-- The memory from a position on, as a read gives it to the machine.
abbrev pub from : Mem → ℕ → Mem
from m p i = m (p + i)

-- What the machine reads from a full message header.
pub record ReadsAs (ts len ty sid : ℕ) (h : ChunkHeader) (buf : Mem) : Type 0 where
  pub len_read : (read_fields 0 buf h).msg_len ≡ len
  pub type_read : (read_fields 0 buf h).type ≡ ty
  pub stream_read : (read_fields 0 buf h).stream_id ≡ sid
  pub time_read : (read_fields 0 buf h).delta_timestamp ≡ (if ltb ts 0xFFFFFF then ts else 0xFFFFFF)
  pub ext_time_read : 0xFFFFFF ≤ ts → read_4bytes buf 11 ≡ ts

pub join_3 : (v : ℕ) → v < 2 ^ 24 → byte v 2 * 2 ^ 16 + byte v 1 * 256 + byte v 0 ≡ v
join_3 v h = omega arith

pub join_4 :
    (v : ℕ) → v < 2 ^ 32 → byte v 3 * 2 ^ 24 + byte v 2 * 2 ^ 16 + byte v 1 * 256 + byte v 0 ≡ v
join_4 v h = omega arith

-- The fields at bytes that are known.
pub fields_at :
    (m : Mem) (p t2 t1 t0 l2 l1 l0 y s0 s1 s2 s3 : ℕ) (h : ChunkHeader)
    → peek m p 11 ≡ t2 ∷ t1 ∷ t0 ∷ l2 ∷ l1 ∷ l0 ∷ y ∷ s0 ∷ s1 ∷ s2 ∷ s3 ∷ []
    → let f = read_fields 0 (from m p) h in
      (f.msg_len ≡ l2 * 2 ^ 16 + l1 * 256 + l0)
      × (f.type ≡ y)
      × (f.stream_id ≡ s3 * 2 ^ 24 + s2 * 2 ^ 16 + s1 * 256 + s0)
      × (f.delta_timestamp ≡ t2 * 2 ^ 16 + t1 * 256 + t0)
unfolding read_fields read_3bytes
fields_at m p t2 t1 t0 l2 l1 l0 y s0 s1 s2 s3 h e = ground arith

pub ext_at :
    (m : Mem) (p e3 e2 e1 e0 : ℕ)
    → peek m (p + 11) 4 ≡ e3 ∷ e2 ∷ e1 ∷ e0 ∷ []
    → read_4bytes (from m p) 11 ≡ e3 * 2 ^ 24 + e2 * 2 ^ 16 + e1 * 256 + e0
unfolding read_4bytes
ext_at m p e3 e2 e1 e0 e = ground arith

peek-right :
    (m : Mem) (p : ℕ) (xs ys : List ℕ)
    → peek m p (length (xs ++ ys)) ≡ xs ++ ys
    → (peek m p (length xs) ≡ xs) × (peek m (p + length xs) (length ys) ≡ ys)
peek-right m p [] ys e = (refl, ground (arith, e))
peek-right m p (x ∷ xs) ys e = ground (arith, peek-right m (p + 1) xs ys, e)

length-peek : (m : Mem) (p n : ℕ) → length (peek m p n) ≡ n
length-peek m p zero = refl
length-peek m p (suc n) = ap suc (length-peek m (p + 1) n)

-- The message header, wherever it stands in memory.
message_header-ReadsAs :
    (m : Mem) (p ts len ty sid : ℕ) (h : ChunkHeader)
    → ts < 2 ^ 32
    → len < 2 ^ 24
    → ty < 256
    → sid < 2 ^ 32
    → peek m p (length (message_header 0 ts len ty sid)) ≡ message_header 0 ts len ty sid
    → ReadsAs ts len ty sid h (from m p)
message_header-ReadsAs m p ts len ty sid h a b c d e = elim (Bool-cases (ltb ts 0xFFFFFF)) [
  | inl small ↦
      let wire : peek m p 11 ≡ bytes_3 ts ++ bytes_3 len ++ (byte ty 0 ∷ []) ++ host_4 sid =
        ground (arith, e, small) in
      let f = fields_at m p _ _ _ _ _ _ _ _ _ _ _ h wire in
      record {
        len_read = f.0 ∙ join_3 len b;
        type_read = f.1 ∙ omega arith;
        stream_read = f.2 ∙ join_4 sid d;
        time_read = rw small (f.3 ∙ join_3 ts (omega (arith, ltb→lt _ _ small)));
        ext_time_read = λ big. absurd (omega (arith, ltb→lt _ _ small));
      }
  | inr large ↦
      let wire : peek m p (11 + 4)
          ≡ (0xFF ∷ 0xFF ∷ 0xFF ∷ bytes_3 len ++ (byte ty 0 ∷ []) ++ host_4 sid) ++ bytes_4 ts =
        ground (arith, e, large) in
      let (first, last) =
        peek-right m p (0xFF ∷ 0xFF ∷ 0xFF ∷ bytes_3 len ++ (byte ty 0 ∷ []) ++ host_4 sid)
          (bytes_4 ts) wire in
      let f = fields_at m p _ _ _ _ _ _ _ _ _ _ _ h first in
      record {
        len_read = f.0 ∙ join_3 len b;
        type_read = f.1 ∙ omega arith;
        stream_read = f.2 ∙ join_4 sid d;
        time_read = rw large f.3;
        ext_time_read = λ big. ext_at m p _ _ _ _ last ∙ join_4 ts a;
      }
]

-- The chunk id that the machine takes from a header, as `on_basic_header` and `on_ext_basic_header`
-- do.
abbrev pub read_chunk_id : Mem → ℕ
read_chunk_id m =
    if ltb 1 (m 0 % 64)
    then m 0 % 64
    else if m 0 % 64 == 0
    then ext_chunk_id (from m 1) 1
    else ext_chunk_id (from m 1) 2

basic_header-read :
    (m : Mem) (cid : ℕ)
    → 2 ≤ cid
    → cid < 65599
    → peek m 0 (length (basic_header 0 cid)) ≡ basic_header 0 cid
    → ((m 0 / 64) % 4 ≡ 0) × (read_chunk_id m ≡ cid)
basic_header-read m cid a b e = ground (arith, e)

wire_at : (m : Mem) (n : ℕ) (wire : List ℕ) → peek m 0 n ≡ wire → peek m 0 (length wire) ≡ wire
wire_at m n wire e = ap (peek m 0) (sym (ap length e) ∙ length-peek m 0 n) ∙ e

-- A full header whose fields fit their places on the wire and whose chunk id is at least 2 is read
-- back: its format, its chunk id, and, behind these, its length, type, stream id and timestamp, which
-- stands in the three-byte field below 0xFFFFFF and in the four bytes behind the message header from
-- there on.
pub read-wrap_chunk_header :
    (b : Bucket) (cid ts len ty sid : ℕ) (h : ChunkHeader)
    → 2 ≤ cid
    → cid < 65599
    → ts < 2 ^ 32
    → len < 2 ^ 24
    → ty < 256
    → sid < 2 ^ 32
    → Returns (wrap_chunk_header b 0 cid ts len ty sid) λ (d : Bucket).
      ((d.header 0 / 64) % 4 ≡ 0)
      × (read_chunk_id d.header ≡ cid)
      × ReadsAs ts len ty sid h (from d.header (length (basic_header 0 cid)))
read-wrap_chunk_header b cid ts len ty sid h p q r s t u =
    let first = basic_header 0 cid in
    let rest = message_header 0 ts len ty sid in
    let (d, e, wrapped) =
      Returns-elim (wrap_chunk_header b 0 cid ts len ty sid) (IsWrapped b 0 cid (first ++ rest))
        (wrap_chunk_header-IsWrapped b 0 cid ts len ty sid (omega arith) q) in
    let (on_first, on_rest) =
      peek-right d.header 0 first rest
        (wire_at d.header d.header_length (first ++ rest) wrapped.on_wire) in
    let (format, id) = basic_header-read d.header cid p q on_first in
    let moved : 0 + length first ≡ length first = omega arith in
    rw e (
      format,
      id,
      message_header-ReadsAs d.header (length first) ts len ty sid h r s t u
          (subst (λ i. peek d.header i (length rest) ≡ rest) moved on_rest),
    )
