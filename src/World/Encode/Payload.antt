-- ===== src/World/Encode/Payload.antt =====
-- The chunks of an encoded message carry its bytes.
use bls.Base.{
  ◌⊎◌, ◌==◌, ℕ, zero, suc, ◌+◌, ◌*◌, ◌≤◌, ◌<◌, ◌≡◌, ◌≢◌, refl, sym, ap, subst, ◌∙◌, inl, inr, some,
  List, [], ◌∷◌, ◌++◌, arith, Returns, Returns-elim, length, count, take, drop, peek, ltb, ltb→lt,
  List-cases, Bool-cases, take-append-drop, length-take, length-drop,
}
use bls.Chunk.{Bucket}
use bls.Chunk.Wrap.Layout.{basic_header, message_header}
use bls.Pool.Inv.{Inv, count-nil}
use bls.Pool.Free.{count-cons}
use bls.World.{pure, World, M, ◌>>=◌}
use bls.World.Encode.Made.{Made, make_chunk-Made}
use bls.World.Encode.Pieces.{pieces_after}
use bls.World.Encode.{make_chunk, encode_rest, encode_buf_to_chunk_chain}

-- The payloads of a chain, joined.
abbrev pub payloads : World → List ℕ → List ℕ
payloads w [] = []
payloads w (id ∷ ids) =
    peek (w.pool.bucket id).payload 0 (w.pool.bucket id).payload_length ++ payloads w ids

-- What a chain puts on the wire: the header and the payload of each bucket.
abbrev pub wire_of : World → List ℕ → List (List ℕ × List ℕ)
wire_of w [] = []
wire_of w (id ∷ ids) =
    (
      peek (w.pool.bucket id).header 0 (w.pool.bucket id).header_length,
      peek (w.pool.bucket id).payload 0 (w.pool.bucket id).payload_length,
    )
    ∷ wire_of w ids

-- The chunks behind the first: short headers, each with a piece.
abbrev pub further_wire : ℕ → List (List ℕ) → List (List ℕ × List ℕ)
further_wire cid [] = []
further_wire cid (p ∷ ps) = (basic_header 3 cid ++ [], p) ∷ further_wire cid ps

abbrev pub message_wire : ℕ → ℕ → ℕ → ℕ → ℕ → List ℕ → List (List ℕ) → List (List ℕ × List ℕ)
message_wire cid ts len ty sid first more =
    (basic_header 0 cid ++ message_header 0 ts len ty sid, first) ∷ further_wire cid more

abbrev pub encoded_wire : List ℕ → ℕ → ℕ → ℕ → ℕ → List (List ℕ × List ℕ)
encoded_wire buf sid ts type cid =
    message_wire cid ts (length buf) type sid (take 8192 buf) (pieces_after (suc (length buf)) buf)

-- What an encoded message leaves behind.
pub record Encoded (w : World) (bytes : List ℕ) (wire : List (List ℕ × List ℕ)) (r : List ℕ × World)
    : Type 0 where
  pub content : payloads r.1 r.0 ≡ bytes
  pub on_wire : wire_of r.1 r.0 ≡ wire
  pub inv : Inv r.1.pool
  pub others_kept : (i : ℕ) → count i w.pool.queue ≡ 0 → r.1.pool.bucket i ≡ w.pool.bucket i
  pub from_queue : (i : ℕ) → count i r.0 + count i r.1.pool.queue ≡ count i w.pool.queue
  pub one_reference : (i : ℕ) → 0 < count i r.0 → (r.1.pool.bucket i).ref_count ≡ 1
  pub socket_kept : r.1.socket ≡ w.socket

pub same_or_not : (i j : ℕ) → (i ≡ j) ⊎ (i ≢ j)
same_or_not i j = elim (Bool-cases (i == j)) [
  | inl e ↦ inl (ground (arith, e))
  | inr e ↦ inr (ground (arith, e))
]

Encoded-cons :
    (w : World) (header first rest : List ℕ) (wire : List (List ℕ × List ℕ)) (r : ℕ × World)
    (q : List ℕ × World)
    → Made w header first r
    → Encoded r.1 rest wire q
    → Encoded w (first ++ rest) ((header, first) ∷ wire) (r.0 ∷ q.0, q.1)
Encoded-cons w header first rest wire r q m enc = record {
  on_wire = rw (enc.others_kept r.0 m.left_queue, m.on_wire, m.content, enc.on_wire) refl;
  content = rw (enc.others_kept r.0 m.left_queue, m.content, enc.content) refl;
  inv = enc.inv;
  others_kept = λ i h.
      let ne : i ≢ r.0 = λ e. ground (arith, m.was_free, h, e) in
      enc.others_kept i (m.others_queued i ne ∙ h) ∙ m.others_kept i ne;
  from_queue = λ i. queued i;
  one_reference = λ i h. elim (same_or_not r.0 i) [
    | inl e ↦
        subst (λ j. (q.1.pool.bucket j).ref_count ≡ 1) e
          (ap Bucket.ref_count (enc.others_kept r.0 m.left_queue) ∙ m.one_reference)
    | inr ne ↦ enc.one_reference i (ground (arith, h, ne, count-cons i r.0 q.0))
  ];
  socket_kept = enc.socket_kept ∙ m.socket_kept;
}
  where
    queued : (i : ℕ) → count i (r.0 ∷ q.0) + count i q.1.pool.queue ≡ count i w.pool.queue
    queued i =
        ground (
          arith,
          count-cons i r.0 q.0,
          enc.from_queue i,
          m.was_free,
          m.left_queue,
          m.others_queued i,
        )

drop_all : (n : ℕ) (xs : List ℕ) → length xs ≤ n → drop n xs ≡ []
drop_all n xs h = elim (List-cases (drop n xs)) [
  | inl e ↦ e
  | inr (y, ys, e) ↦ absurd (omega (arith, h, length-drop n xs, ap length e))
]

-- A chunk and then the rest of the chain.
chain_eq :
    (m : M ℕ) (f : M (List ℕ)) (w : World) (r : ℕ × World) (q : List ℕ × World)
    → m w ≡ some r
    → f r.1 ≡ some q
    → (m >>= λ id. f >>= λ ids. pure (id ∷ ids)) w ≡ some (r.0 ∷ q.0, q.1)
chain_eq m f w r q e e2 = cc

encode_rest-Encoded :
    (fuel : ℕ) (bytes : List ℕ) (cid : ℕ) (w : World)
    → length bytes < fuel
    → cid < 65599
    → Inv w.pool
    → 8192 ≤ w.pool.payload_size
    → length bytes ≤ 8192 + 8192 * length w.pool.queue
    → Returns
        (encode_rest fuel bytes cid w)
        (Encoded w (drop 8192 bytes) (further_wire cid (pieces_after fuel bytes)))
unfolding encode_rest
encode_rest-Encoded zero bytes cid w f k v s room = absurd (omega (arith, f))
encode_rest-Encoded (suc fuel) bytes cid w f k v s room =
    elim (Bool-cases (ltb 8192 (length bytes))) [
      | inl more ↦
          let rest = drop 8192 bytes in
          let after = further_wire cid (pieces_after fuel rest) in
          let wire = (basic_header 3 cid ++ [], take 8192 rest) ∷ after in
          let n : 8192 < length bytes = ltb→lt _ _ more in
          let (r, e, m) =
            Returns-elim (make_chunk 3 cid 0 0 0 0 (take 8192 rest) w)
              (Made w (basic_header 3 cid ++ []) (take 8192 rest))
              (make_chunk-Made w 3 cid 0 0 0 0 (take 8192 rest) (omega arith) k v
                (omega (arith, n, room)) (omega (arith, s, length-take 8192 rest))) in
          let (q, e2, enc) =
            Returns-elim (encode_rest fuel rest cid r.1) (Encoded r.1 (drop 8192 rest) after) (
              encode_rest-Encoded fuel rest cid r.1 (omega (arith, f, n, length-drop 8192 bytes)) k
                m.inv (omega (arith, s, m.payload_size_kept))
                (omega (arith, room, n, length-drop 8192 bytes, m.queue_shorter))) in
          rw more (
            subst (λ o. Returns o (Encoded w rest wire))
              (sym (
                chain_eq (make_chunk 3 cid 0 0 0 0 (take 8192 rest)) (encode_rest fuel rest cid) w r
                  q e e2))
              (subst (λ b. Encoded w b wire (r.0 ∷ q.0, q.1)) (take-append-drop 8192 rest)
                (Encoded-cons w (basic_header 3 cid ++ []) (take 8192 rest) (drop 8192 rest) after r
                  q m enc)))
      | inr done ↦
          rw (done, drop_all 8192 bytes (ground (arith, done)))
            (record {
              content = refl;
              on_wire = refl;
              inv = v;
              others_kept = λ i h. refl;
              from_queue = λ i. ap (λ n. n + count i w.pool.queue) (count-nil i) ∙ omega arith;
              one_reference = λ i h. absurd (omega (arith, h, count-nil i));
              socket_kept = refl;
            })
    ]

-- A message is encoded whole, for a chunk id below 65599: if the pool's queue has a bucket for each 8192 bytes and at least one,
-- and buckets hold 8192 bytes, `encode_buf_to_chunk_chain` returns a chain whose payloads, joined,
-- are the buffer. On the wire the chain is a full header with the first 8192 bytes, then a header of
-- format 3 with each further 8192 bytes, and the rest. Each of its buckets came from the queue and has
-- one reference, the pool keeps its ownership, and no bucket that was in use, and no socket, changes.
pub encode_buf_to_chunk_chain-Encoded :
    (buf : List ℕ) (sid ts type cid : ℕ) (w : World)
    → cid < 65599
    → Inv w.pool
    → 8192 ≤ w.pool.payload_size
    → 0 < length w.pool.queue
    → length buf ≤ 8192 * length w.pool.queue
    → Returns
        (encode_buf_to_chunk_chain buf sid ts type cid w)
        (Encoded w buf (encoded_wire buf sid ts type cid))
unfolding encode_buf_to_chunk_chain
encode_buf_to_chunk_chain-Encoded buf sid ts type cid w k v s some_left room =
    let header = basic_header 0 cid ++ message_header 0 ts (length buf) type sid in
    let after = further_wire cid (pieces_after (suc (length buf)) buf) in
    let wire = (header, take 8192 buf) ∷ after in
    let first = make_chunk 0 cid ts (length buf) type sid (take 8192 buf) in
    let (r, e, m) = Returns-elim (first w) (Made w header (take 8192 buf)) (
      make_chunk-Made w 0 cid ts (length buf) type sid (take 8192 buf) (omega arith) k v some_left
        (omega (arith, s, length-take 8192 buf))) in
    let rest = encode_rest (suc (length buf)) buf cid in
    let (q, e2, enc) = Returns-elim (rest r.1) (Encoded r.1 (drop 8192 buf) after) (
      encode_rest-Encoded (suc (length buf)) buf cid r.1 (omega arith) k m.inv
        (omega (arith, s, m.payload_size_kept)) (omega (arith, room, m.queue_shorter))) in
    subst (λ o. Returns o (Encoded w buf wire)) (sym (chain_eq first rest w r q e e2))
      (subst (λ b. Encoded w b wire (r.0 ∷ q.0, q.1)) (take-append-drop 8192 buf)
        (Encoded-cons w header (take 8192 buf) (drop 8192 buf) after r q m enc))
