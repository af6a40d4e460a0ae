-- ===== src/Protocol/Receive/Chunks/Further.antt =====
-- The reads of the chunks behind the first, one after the other (src/RtmpProtocol.cpp).
use bls.Base.{
  ℕ, ◌+◌, ◌<◌, ◌≤◌, ◌≡◌, refl, sym, subst, ◌∙◌, none, Option, some, List, [], ◌∷◌, ◌++◌, arith,
  length, length-append,
}
use mathlib.Core.List.{append-nil, append_assoc}
use bls.World.{World}
use bls.World.Encode.Pieces.{IsCut, join, join-IsCut}
use bls.Protocol.{P, pure, Conn, bind, and_then, ◌>>◌}
use bls.Protocol.Message.{Host, msg_decode}
use bls.Protocol.Machine.{expect_chunk}
use bls.Protocol.Receive.{read_cb}
use bls.Protocol.Receive.Delivery.Full.{Fits}
use bls.Protocol.Receive.Chunks.Partway.{part_of, Partway, Room, Quiet-≤}
use bls.Protocol.Receive.Chunks.Middle.{Delivered, read_further, read_middle, read_end}

-- What the peer sends of the chunks after the first: a byte and a piece for each.
abbrev pub further_reads : ℕ → List (List ℕ) → List (List ℕ)
further_reads cid [] = []
further_reads cid (p ∷ ps) = ((192 + cid) ∷ []) ∷ p ∷ further_reads cid ps

-- The read callback on one read after the other.
abbrev pub feed : Host → List (List ℕ) → P (Unit {0})
feed host [] = pure tt
feed host (r ∷ []) = read_cb host r
feed host (r ∷ s ∷ rs) = read_cb host r >> feed host (s ∷ rs)

feed_further :
    (host : Host) (a b : List ℕ) (k : P (Unit {0})) (o : Option (Unit {0} × Conn × World))
    → and_then (λ _. read_cb host b >> k) o ≡ and_then (λ _. k) (and_then (λ _. read_cb host b) o)
feed_further host a b k none = refl
feed_further host a b k (some (u, c, w)) = refl

-- The bytes of the chunks to come.
abbrev pub further_len : List (List ℕ) → ℕ
further_len [] = 0
further_len (p ∷ ps) = 1 + (length p + further_len ps)

module _ (host : Host) (cid ts len ty sid : ℕ) (chain : List ℕ) (size : ℕ) (lo : 2 ≤ cid)
    (hi : cid < 64) (fits : Fits ts len ty sid) (some_len : 0 < len) (some_size : 0 < size)
    (lim : size ≤ 8192) where
  pub feed-further_reads :
      (delta recv : ℕ) (ids payload piece : List ℕ) (more : List (List ℕ)) (c : Conn) (w : World)
      → Partway cid size (part_of ts delta len ty sid recv) chain ids payload c w
      → Room size (length more) (further_len (piece ∷ more)) c w
      → IsCut size (piece ∷ more)
      → recv + length (join (piece ∷ more)) ≡ len
      → (c' : Conn) × (w' : World) × (feed host (further_reads cid (piece ∷ more)) c w
          ≡ (msg_decode host >> expect_chunk) c' w')
        × Delivered cid ts len ty sid chain (payload ++ join (piece ∷ more)) c' w'
  feed-further_reads delta recv ids payload piece [] c w p room cut total =
      let (c1, w1, e, done) =
        read_end host cid ts len ty sid chain lo hi fits some_len delta recv size ids payload piece
          c w p
          (record {
            same_size = room.same_size;
            buckets = room.buckets;
            fits = room.fits;
            quiet = Quiet-≤ c _ (1 + length piece) (omega arith) room.quiet;
          })
          cut.0 cut.1 lim (omega (arith, total, length-append piece [])) in
      (
        c1,
        w1,
        e,
        subst (λ l. Delivered cid ts len ty sid chain (payload ++ l) c1 w1) (sym (append-nil piece))
            done,
      )
  feed-further_reads delta recv ids payload piece (q ∷ more) c w p room cut total =
      let rest = join (q ∷ more) in
      let (c1, w1, d, all, e1, p1, room1) =
        read_middle host cid ts len ty sid chain lo hi fits some_len delta recv (length more)
          (further_len (q ∷ more)) size ids payload piece c w p room cut.0 some_size lim
          (omega
            (arith, total, length-append piece rest, join-IsCut size q more some_size cut.1)) in
      let (c2, w2, e2, done) =
        feed-further_reads d (recv + length piece) all (payload ++ piece) q more c1 w1 p1 room1
          cut.1 (omega (arith, total, length-append piece rest)) in
      (
        c2,
        w2,
        feed_further host ((192 + cid) ∷ []) piece (feed host (further_reads cid (q ∷ more)))
              (read_cb host ((192 + cid) ∷ []) c w)
            ∙ bind (read_further host cid piece) (λ _. feed host (further_reads cid (q ∷ more))) e1
            ∙ e2,
        subst (λ l. Delivered cid ts len ty sid chain l c2 w2) (append_assoc payload piece rest)
            done,
      )
