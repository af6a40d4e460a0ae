-- ===== src/HandShake/Session.antt =====
-- What the end of a handshake does to the client and the server: `hand_shake_finish` and
-- HAND_SHAKE_FAIL (src/BlsHandShake.cpp, src/RtmpClient.cpp).
use bls.Base.{ℕ, List, Bool, Option, none, some, Mem}
use bls.World.{World}
use bls.Protocol.{Conn, P}
use bls.Protocol.Client.{close_early}
use bls.Protocol.Lifecycle.{hand_shake_finish}
use bls.HandShake.{HandShake, Phase, Event, finished, failed, step}

-- A client in its handshake, and the server; then its connection, if the handshake has finished.
pub record Session : Type 0 where
  pub handshake : HandShake
  pub world : World
  pub conn : Option Conn

module _ (s_hand_shake : ℕ → Mem → Option (Mem × Mem)) (beyond : List ℕ)
    (g_connect_cb : P (Unit {0})) (client : ℕ) (has_server : Bool) (len : ℕ) (buf : Mem) where
  abbrev pub connected : HandShake → Option (Unit {0} × Conn × World) → Option Session
  connected hs none = none
  connected hs (some (u, c, w)) = some (record { handshake = hs; world = w; conn = some c })

  -- The calls at the end of the callbacks.
  abbrev pub conclude : Phase → HandShake → World → Option Session
  conclude finished hs w = connected hs (hand_shake_finish g_connect_cb client has_server len buf w)
  conclude failed hs w =
      some (record { handshake = hs; world = close_early client has_server w; conn = none })
  conclude _ hs w = some (record { handshake = hs; world = w; conn = none })

  abbrev pub continue : World → Option HandShake → Option Session
  continue w none = none
  continue w (some hs) = conclude hs.phase hs w

  unfoldable pub session_step : Event → Session → Option Session
  unfolding step hand_shake_finish close_early
  session_step e s = continue s.world (step s_hand_shake beyond e s.handshake)
