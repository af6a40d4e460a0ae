-- ===== src/Protocol/Client/Closing.antt =====
-- Closing a client.
use bls.Base.{ℕ, ◌≡◌, true, false, none, some, arith, Returns}
use bls.World.{World, end}
use bls.Protocol.{Conn, Area}
use bls.Protocol.Client.{close, read_n}

-- After `close` the client reads nothing, its socket is shut, its player is at `end`, and closing
-- again, or asking for a further read, changes nothing at all.
pub close_final :
    (c : Conn) (w : World) (k b : ℕ) (a : Area) (offset n : ℕ)
    → c.is_closed ≡ false
    → Returns (close c w) λ (r : Unit {0} × Conn × World).
      (r.1.is_closed ≡ true)
      × (r.1.reading ≡ none)
      × ((r.2.socket c.client).is_open ≡ false)
      × (w.play_consumer c.client ≡ some k → (r.2.consumer k).state ≡ end)
      × (close r.1 r.2 ≡ some (tt, r.1, r.2))
      × (read_n b a offset n r.1 r.2 ≡ some (tt, r.1, r.2))
unfolding close read_n
close_final c w k b a offset n h = ground arith
