-- ===== src/Chunk/Wrap/Layout.antt =====
-- The bytes that `wrap_chunk_header` writes, against the chunk format.
use bls.Base.{
  ℕ, zero, suc, ◌+◌, ◌-◌, ◌*◌, ◌/◌, ◌%◌, ◌≤◌, ◌<◌, ◌≡◌, List, [], ◌∷◌, ◌++◌, peek, ltb,
  if◌then◌else◌, arith, Returns,
}
use bls.Bytes.{byte, bytes_3, bytes_4, host_4}
use bls.Chunk.{Bucket}
use bls.Chunk.Wrap.{wrap_chunk_header}

-- The chunk format: one to three bytes of format and chunk id.
abbrev pub basic_header : ℕ → ℕ → List ℕ
basic_header fmt cid =
    if ltb cid 64
    then (fmt * 64 + cid) ∷ []
    else if ltb cid 320
    then (fmt * 64) ∷ (cid - 64) ∷ []
    else (fmt * 64 + 1) ∷ ((cid - 64) % 256) ∷ ((cid - 64) / 256) ∷ []

-- The 24-bit field holds the timestamp, or all ones where it does not fit.
abbrev pub timestamp_field : ℕ → List ℕ
timestamp_field ts = if ltb ts 0xFFFFFF then bytes_3 ts else 0xFF ∷ 0xFF ∷ 0xFF ∷ []

abbrev pub extended_field : ℕ → List ℕ
extended_field ts = if ltb ts 0xFFFFFF then [] else bytes_4 ts

-- A message header by its format: full, without stream id, timestamp only, empty.
abbrev pub message_header : ℕ → ℕ → ℕ → ℕ → ℕ → List ℕ
message_header zero ts len ty sid =
    timestamp_field ts ++ bytes_3 len ++ (byte ty 0 ∷ []) ++ host_4 sid ++ extended_field ts
message_header (suc zero) ts len ty sid =
    timestamp_field ts ++ bytes_3 len ++ (byte ty 0 ∷ []) ++ extended_field ts
message_header (suc (suc zero)) ts len ty sid = timestamp_field ts ++ extended_field ts
message_header _ ts len ty sid = []

-- What a wrapped bucket is.
pub record IsWrapped (b : Bucket) (fmt cid : ℕ) (wire : List ℕ) (c : Bucket) : Type 0 where
  pub on_wire : peek c.header 0 c.header_length ≡ wire
  pub fits : c.header_length ≤ 18
  pub recv_len : c.header_recv_len ≡ c.header_length
  pub id_set : c.chunk_id ≡ cid
  pub format_set : c.format ≡ fmt
  pub payload_kept : c.payload ≡ b.payload
  pub payload_length_kept : c.payload_length ≡ b.payload_length
  pub ref_kept : c.ref_count ≡ b.ref_count
  pub name_kept : c.source_stream_name ≡ b.source_stream_name
  pub payload_recv_len_kept : c.payload_recv_len ≡ b.payload_recv_len
  pub state_kept : c.state ≡ b.state

-- For each of the four formats and every chunk id below 65599, whatever the bucket held before,
-- `wrap_chunk_header` stays inside the 18 bytes of the header memory, the first `header_length`
-- bytes are the format's layout of the arguments, and the payload, its lengths, the references, the
-- stream name and the receive state of the bucket are as before.
pub wrap_chunk_header-IsWrapped :
    (b : Bucket) (fmt cid ts len ty sid : ℕ)
    → fmt < 4
    → cid < 65599
    → Returns
        (wrap_chunk_header b fmt cid ts len ty sid)
        (IsWrapped b fmt cid (basic_header fmt cid ++ message_header fmt ts len ty sid))
unfolding wrap_chunk_header
wrap_chunk_header-IsWrapped b zero cid ts len ty sid h k = ground arith
wrap_chunk_header-IsWrapped b (suc zero) cid ts len ty sid h k = ground arith
wrap_chunk_header-IsWrapped b (suc (suc zero)) cid ts len ty sid h k = ground arith
wrap_chunk_header-IsWrapped b (suc (suc (suc zero))) cid ts len ty sid h k = ground arith
wrap_chunk_header-IsWrapped b (suc (suc (suc (suc n)))) cid ts len ty sid h k = absurd (omega arith)
