-- ===== src/Server/Admission.antt =====
-- How many clients a server has at once: `accept_client` (src/RtmpServer.cpp) and the closing of
-- clients (src/RtmpClient.cpp).
use bls.Base.{
  ℕ, ◌+◌, ◌^◌, ◌≤◌, ◌<◌, ◌≡◌, ap, ◌∙◌, Bool, true, false, some, List, [], ◌∷◌, ◌++◌, arith, length,
  length-append, Bool-cases, inl, inr, if◌then◌else◌,
}
use bls.World.{World}
use bls.Protocol.{Conn}
use bls.Protocol.Client.{close, close_early}
use bls.Server.{Server, signed_ltb, accept_client}

-- The server's world, and the clients that it has accepted and that have not closed: it starts with
-- none; a connection comes, and is accepted or not; a client of the list closes, in its handshake or
-- with its protocol; or something else happens, which leaves the server's count alone.
pub data Serves (s : Server) : World → List ℕ → Type 0 where
  starts : (w : World) → w.client_count ≡ 0 → Serves s w []
  connects :
      {w : World} {cs : List ℕ}
      → Serves s w cs
      → (accepted : Bool) (id : ℕ)
      → Serves s
          (accept_client accepted s w).1
          (if (accept_client accepted s w).0 then id ∷ cs else cs)
  closes :
      {w : World} {cs : List ℕ}
      → Serves s w cs
      → (before after : List ℕ) (c c' : Conn) (w' : World) → cs ≡ before ++ c.client ∷ after
      → c.has_server ≡ true
      → c.is_closed ≡ false
      → close c w ≡ some (tt, c', w')
      → Serves s w' (before ++ after)
  closes_early :
      {w : World} {cs : List ℕ}
      → Serves s w cs
      → (before after : List ℕ) (id : ℕ) → cs ≡ before ++ id ∷ after
      → Serves s (close_early id true w) (before ++ after)
  goes_on :
      {w : World} {cs : List ℕ}
      → Serves s w cs
      → (w' : World) → w'.client_count ≡ w.client_count
      → Serves s w' cs

abbrev Counts : Server → World → List ℕ → Type 0
Counts s w cs = (w.client_count ≡ length cs) × (length cs ≤ s.max_client_num + 1)

one_less :
    (cs before after : List ℕ) (id : ℕ)
    → cs ≡ before ++ id ∷ after
    → length cs ≡ length (before ++ after) + 1
one_less cs before after id e =
    omega (arith, ap length e, length-append before (id ∷ after), length-append before after)

-- An open client that closes is counted down.
close_counts :
    (c c' : Conn) (w w' : World)
    → c.has_server ≡ true
    → c.is_closed ≡ false
    → close c w ≡ some (tt, c', w')
    → 0 < w.client_count
    → w.client_count < 2 ^ 32
    → w'.client_count + 1 ≡ w.client_count
unfolding close
close_counts c c' w w' has opn e some_left fits = ground (arith, has, opn, e, some_left, fits)

-- Whatever connections come, are accepted or fail, and whichever clients close, in whatever order, a
-- server whose limit is below 2 ^ 31 - 1 counts exactly the clients that it has accepted and that have
-- not closed, and these are never more than one above `max_client_num`.
pub serve_bounded :
    (s : Server) {w : World} {cs : List ℕ}
    → s.max_client_num + 1 < 2 ^ 31
    → Serves s w cs
    → (w.client_count ≡ length cs) × (length cs ≤ s.max_client_num + 1)
unfolding accept_client close_early
serve_bounded s h (starts w e) = ground (arith, e)
serve_bounded s h (connects {w} {cs} r false id) = serve_bounded s h r
serve_bounded s h (connects {w} {cs} r true id) =
    let (counted, few) = serve_bounded s h r in
    elim (Bool-cases (signed_ltb s.max_client_num w.client_count)) [
      | inl full ↦ rw full (counted, few)
      | inr room ↦
          let low : w.client_count ≤ s.max_client_num = ground (arith, room, counted, few, h) in
          rw room (ground (arith, counted, low, h), omega (arith, counted, low))
    ]
serve_bounded s h (closes {w} {cs} r before after c c' w' e has opn f) =
    let (counted, few) = serve_bounded s h r in
    let less = one_less cs before after c.client e in
    let down =
      close_counts c c' w w' has opn f (omega (arith, counted, less))
        (omega (arith, counted, few)) in
    (omega (arith, down, counted, less), omega (arith, few, less))
serve_bounded s h (closes_early {w} {cs} r before after id e) =
    let (counted, few) = serve_bounded s h r in
    let less = one_less cs before after id e in
    (ground (arith, counted, few, less), omega (arith, few, less))
serve_bounded s h (goes_on {w} {cs} r w' e) =
    let (counted, few) = serve_bounded s h r in (e ∙ counted, few)
