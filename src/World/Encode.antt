-- ===== src/World/Encode.antt =====
-- `encode_buf_to_chunk_chain` of src/RtmpProtocol.cpp: one message cut into buckets.
pub mod Pieces
pub mod Made
pub mod Payload
use bls.Base.{ℕ, zero, suc, List, [], ◌∷◌, take, drop, length, ltb, if◌then◌else◌}
use bls.Chunk.{default_chunk_bucket_size}
use bls.World.{M, ◌>>=◌, ◌>>◌, pure, fault}
use bls.World.Buckets.{alloc_bucket, wrap, fill_payload}

-- One chunk of the message, with its bytes.
abbrev pub make_chunk : ℕ → ℕ → ℕ → ℕ → ℕ → ℕ → List ℕ → M ℕ
make_chunk fmt chunk_id ts len type sid bytes = do
  id ← alloc_bucket
  wrap id fmt chunk_id ts len type sid
  fill_payload id bytes
  pure id

-- The `while` loop, with the bytes from `buf + len - remain_len` on. The fuel bounds its rounds.
unfoldable pub encode_rest : ℕ → List ℕ → ℕ → M (List ℕ)
encode_rest zero bytes chunk_id = fault
encode_rest (suc fuel) bytes chunk_id =
    let more : M (List ℕ) = do
      id ←
          make_chunk 3 chunk_id 0 0 0 0
            (take default_chunk_bucket_size (drop default_chunk_bucket_size bytes))
      ids ← encode_rest fuel (drop default_chunk_bucket_size bytes) chunk_id
      pure (id ∷ ids)
    in if ltb default_chunk_bucket_size (length bytes) then more else pure []

-- The list of ids is the chain, which starts empty. A round takes at least one byte, so the length
-- of the buffer and one more is fuel enough.
unfoldable pub encode_buf_to_chunk_chain : List ℕ → ℕ → ℕ → ℕ → ℕ → M (List ℕ)
unfolding encode_rest
encode_buf_to_chunk_chain buf sid ts type chunk_id = do
  id ← make_chunk 0 chunk_id ts (length buf) type sid (take default_chunk_bucket_size buf)
  ids ← encode_rest (suc (length buf)) buf chunk_id
  pure (id ∷ ids)
