-- ===== src/Source/Metadata.antt =====
-- `BlsSource::on_metadata` and `find_abs_time_in_metadata` (src/BlsSource.cpp).
pub mod Search
use bls.Base.{
  ℕ, zero, suc, ◌+◌, ◌-◌, ◌%◌, ◌^◌, Bool, true, false, ◌&&◌, Option, none, some, List, [], ◌∷◌, ltb,
  leb, ◌==◌, if◌then◌else◌, Mem, peek, poke,
}
use bls.Bytes.{read_8bytes}
use bls.World.{Source, Channel, M, ◌>>=◌, ◌>>◌, pure, fault, check, get}
use bls.Source.{modify_source, delete_channel, set_metadata}
use bls.Consumer.Send.{max_metadata_buf_len}

-- `memcmp(a, b, n) == 0` on the bytes compared.
abbrev pub same : List ℕ → List ℕ → Bool
same [] [] = true
same (x ∷ xs) (y ∷ ys) = (x == y) && same xs ys
same _ _ = false

abbrev pub abs_record_time_key : List ℕ
abs_record_time_key =
    b'a' ∷ b'b' ∷ b's' ∷ b'R' ∷ b'e' ∷ b'c' ∷ b'o' ∷ b'r' ∷ b'd' ∷ b'T' ∷ b'i' ∷ b'm' ∷ b'e' ∷ []

abbrev pub set_data_frame_key : List ℕ
set_data_frame_key =
    b'@' ∷ b's' ∷ b'e' ∷ b't' ∷ b'D' ∷ b'a' ∷ b't' ∷ b'a' ∷ b'F' ∷ b'r' ∷ b'a' ∷ b'm' ∷ b'e' ∷ []

-- The `for` loop: the first position below the limit where the key stands. The outer `none` is a
-- read outside `metadata_buf`; with fuel for each of its bytes the loop ends or has left it.
unfoldable pub find_key : ℕ → Mem → ℕ → ℕ → Option (Option ℕ)
find_key zero buf i limit = none
find_key (suc fuel) buf i limit =
    let rest = find_key fuel buf (i + 1) limit in
    if ltb i limit
    then (if leb (i + 13) max_metadata_buf_len
        then (if same (peek buf i 13) abs_record_time_key then some (some i) else rest)
        else none)
    else some none

-- `metadata_len - 13` as `size_t`.
abbrev pub search_limit : ℕ → ℕ
search_limit len = (len + (2 ^ 64 - 13)) % 2 ^ 64

-- What the search leaves in the source.
abbrev pub found_time : ℕ → Source → Source
found_time i v = record v {
  time_index = i + 14;
  abs_record_time = read_8bytes v.metadata_buf (i + 14);
}

-- `BlsSource::find_abs_time_in_metadata`
unfoldable pub find_abs_time_in_metadata : ℕ → M (Unit {0})
unfolding find_key
find_abs_time_in_metadata s = do
  w ← get
  let v = w.source s
  elim (find_key 3001 v.metadata_buf 0 (search_limit v.metadata_len)) [
    | none ↦ fault
    | some none ↦ pure tt
    | some (some i) ↦ (check (leb (i + 22) max_metadata_buf_len) >> modify_source s (found_time i))
  ]

-- The copy to `metadata_buf`, which the code does not bound.
abbrev pub copy_metadata : ℕ → Mem → ℕ → ℕ → M (Unit {0})
copy_metadata s buffer from len = do
  check (leb len max_metadata_buf_len)
  modify_source s (λ v. record v {
    metadata_len = len;
    metadata_buf = poke v.metadata_buf 0 (peek buffer from len);
  })

abbrev set_msg_len : ℕ → Channel → Channel
set_msg_len n c = record c { header = record c.header { msg_len = n } }

-- `BlsSource::on_metadata`. `buffer` is the client's `node_read_buf`. The chain passes to the source.
unfoldable pub on_metadata : ℕ → Channel → Mem → M (List ℕ)
unfolding find_abs_time_in_metadata
on_metadata s channel buffer = do
  w ← get
  delete_channel (w.source s).key_cache.metadata
  let cut = (channel.header.msg_len + (2 ^ 32 - 16)) % 2 ^ 32
  if same (peek buffer 3 13) set_data_frame_key
      then (modify_source s (set_metadata (some (set_msg_len cut channel)))
          >> copy_metadata s buffer 16 cut)
      else (modify_source s (set_metadata (some channel))
          >> copy_metadata s buffer 0 channel.header.msg_len)
  find_abs_time_in_metadata s
  pure []
