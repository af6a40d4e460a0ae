-- ===== src/Binding/Guards.antt =====
-- Calls on a client that is closed (src/addon.cpp).
use bls.Base.{ℕ, ◌≡◌, true, false, some, List, [], Option}
use bls.World.{World}
use bls.Protocol.{Conn}
use bls.Binding.{
  write_message_buf, publish_stream, unpublish_stream, play_stream, unplay_stream, close_client,
  send_ping_request,
}

-- On a client that is closed, a message is not sent, nothing is published or played or taken back,
-- no ping goes out, and closing does nothing: each call leaves the connection and the world as they
-- are, and publishing answers false.
pub closed_client_lem :
    (add_time : ℕ → ℕ → ℕ) (c : Conn) (w : World) (buf : List ℕ)
    (stream_id timestamp type_id k name now : ℕ) (chunk_id : Option ℕ)
    → c.is_closed ≡ true
    → (write_message_buf buf stream_id timestamp type_id chunk_id c w ≡ some (tt, c, w))
      × (publish_stream name c w ≡ some (false, c, w))
      × (unpublish_stream c w ≡ some ([], c, w))
      × (play_stream add_time k stream_id name c w ≡ some (tt, c, w))
      × (unplay_stream c w ≡ some (tt, c, w))
      × (close_client c w ≡ some (tt, c, w))
      × (send_ping_request now c w ≡ some (tt, c, w))
unfolding write_message_buf publish_stream unpublish_stream play_stream unplay_stream close_client
    send_ping_request
closed_client_lem add_time c w buf stream_id timestamp type_id k name now chunk_id h =
    (rw h, rw h, rw h, rw h, rw h, rw h, rw h)
