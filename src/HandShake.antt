-- ===== src/HandShake.antt =====
-- The handshake with a new client (src/BlsHandShake.cpp, include/BlsHandShake.h). The server waits for
-- 1537 bytes, sends its own 3073, and waits for 1536 more. `SHandShake` of librtmp is a parameter.
pub mod Pieces
pub mod Outcome
pub mod Private
pub mod Remote
pub mod Session
use bls.Base.{
  ℕ, ◌+◌, ◌-◌, ◌*◌, Bool, true, false, ◌&&◌, Option, none, some, List, [], ◌∷◌, ◌++◌, Mem, length,
  peek, poke, ltb, leb, ◌==◌, if◌then◌else◌,
}

-- `RTMP_SIG_SIZE`
abbrev pub rtmp_sig_size : ℕ
rtmp_sig_size = 1536

abbrev pub handshake_recv_buf_len : ℕ
handshake_recv_buf_len = 1536 + 1

abbrev pub handshake_send_buf_len : ℕ
handshake_send_buf_len = 1536 + 1536 + 1

abbrev pub handshake_private_sig_len : ℕ
handshake_private_sig_len = 16

-- `HANDSHAKE_PRIVATE_SIG`, "rtmp-addon" with its terminating 0. It is compared and copied with more
-- bytes than it has: what stands behind it in memory is a parameter.
abbrev pub handshake_private_sig : List ℕ
handshake_private_sig = 114 ∷ 116 ∷ 109 ∷ 112 ∷ 45 ∷ 97 ∷ 100 ∷ 100 ∷ 111 ∷ 110 ∷ 0 ∷ []

-- Which callback is registered, or how the handshake ended: `hs_read_buffer`,
-- `send_hs_server_response_cb`, `hs_expect_client_response`, `hand_shake_finish`, HAND_SHAKE_FAIL.
pub data Phase : Type 0 where
  reads_client sends_response expects_response finished failed : Phase

-- `bls_handshake_s`
pub record HandShake : Type 0 where
  pub recved_len : ℕ
  pub clientsig : Mem
  pub serverbuf : Mem
  pub phase : Phase

-- Its constructor, and `RtmpClient::start`, on what the memory holds.
unfoldable pub new_handshake : Mem → Mem → HandShake
new_handshake clientsig serverbuf = record {
  recved_len = 0;
  clientsig = clientsig;
  serverbuf = serverbuf;
  phase = reads_client;
}

-- `hs_alloc_buffer`: how many bytes libuv may store.
abbrev pub buf_len : HandShake → ℕ
buf_len hs = handshake_recv_buf_len - hs.recved_len

-- The bytes of a read, stored where `hs_alloc_buffer` says, and counted.
abbrev pub stored_sig : List ℕ → HandShake → HandShake
stored_sig bytes hs = record hs {
  clientsig = poke hs.clientsig hs.recved_len bytes;
  recved_len = hs.recved_len + length bytes;
}

-- `memcmp(...) == 0`
unfoldable pub same_bytes : List ℕ → List ℕ → Bool
same_bytes [] [] = true
same_bytes [] (y ∷ ys) = false
same_bytes (x ∷ xs) [] = false
same_bytes (x ∷ xs) (y ∷ ys) = (x == y) && same_bytes xs ys

abbrev pub finish : HandShake → HandShake
finish hs = record hs { phase = finished }

abbrev pub fail : HandShake → HandShake
fail hs = record hs { phase = failed }

-- `hs_write_private_sig`: the bytes that are sent, `HANDSHAKE_RECV_BUF_LEN` of a buffer that starts
-- with the signature.
unfoldable pub hs_write_private_sig : List ℕ → Mem → List ℕ
hs_write_private_sig beyond private_handshake_data =
    peek (poke private_handshake_data 0 (handshake_private_sig ++ beyond)) 0 handshake_recv_buf_len

-- What libuv tells: bytes, an error in reading, or the end of the write, with its status.
pub data Event : Type 0 where
  received : List ℕ → Event
  read_error : Event
  written : Bool → Event

-- `SHandShake` on the first byte and the bytes behind it: the bytes as it leaves them, and the
-- response, or a failure. `beyond` is what follows the signature's literal.
module _ (s_hand_shake : ℕ → Mem → Option (Mem × Mem)) (beyond : List ℕ) where
  -- "calculate handshake response"
  abbrev pub respond : Option (Mem × Mem) → HandShake → HandShake
  respond none hs = fail hs
  respond (some (sig, out)) hs = record hs {
    clientsig = λ i. if i == 0 then hs.clientsig 0 else sig (i - 1);
    serverbuf = out;
    phase = sends_response;
  }

  abbrev pub is_private : HandShake → Bool
  is_private hs =
      same_bytes (peek hs.clientsig 0 handshake_private_sig_len) (handshake_private_sig ++ beyond)

  abbrev pub client_came : HandShake → HandShake
  client_came hs =
      if is_private hs
      then finish hs
      else respond (s_hand_shake (hs.clientsig 0) (λ i. hs.clientsig (i + 1))) hs

  -- `hs_read_buffer`, on bytes and on an error.
  unfoldable pub hs_read_buffer : List ℕ → HandShake → HandShake
  unfolding same_bytes
  hs_read_buffer bytes hs =
      let h = stored_sig bytes hs in
      if h.recved_len == handshake_recv_buf_len then client_came h else h

  -- `hs_expect_client_response`: what comes is counted, and not looked at.
  unfoldable pub hs_expect_client_response : List ℕ → HandShake → HandShake
  hs_expect_client_response bytes hs =
      let h = stored_sig bytes hs in if h.recved_len == handshake_recv_buf_len then finish h else h

  -- `send_hs_server_response_cb`; is the status an error? The answer has only 1536 bytes.
  unfoldable pub send_hs_server_response_cb : Bool → HandShake → HandShake
  send_hs_server_response_cb true hs = fail hs
  send_hs_server_response_cb false hs = record hs { recved_len = 1; phase = expects_response }

  -- The callback that is registered. libuv calls no other, and stores no more than it was given room
  -- for: `none` is an event that does not happen.
  abbrev pub call : Phase → Event → HandShake → Option HandShake
  call reads_client (received xs) hs =
      if leb (length xs) (buf_len hs) then some (hs_read_buffer xs hs) else none
  call reads_client read_error hs = some (fail hs)
  call sends_response (written status) hs = some (send_hs_server_response_cb status hs)
  call expects_response (received xs) hs =
      if leb (length xs) (buf_len hs) then some (hs_expect_client_response xs hs) else none
  call expects_response read_error hs = some (fail hs)
  call _ _ hs = none

  unfoldable pub step : Event → HandShake → Option HandShake
  unfolding hs_read_buffer hs_expect_client_response send_hs_server_response_cb
  step e hs = call hs.phase e hs

  abbrev pub step_all : List Event → HandShake → Option HandShake
  step_all [] hs = some hs
  step_all (e ∷ es) hs = elim (step e hs) [ none ↦ none | some h ↦ step_all es h ]
