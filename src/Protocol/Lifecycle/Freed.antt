-- ===== src/Protocol/Lifecycle/Freed.antt =====
-- A connection that is gone (src/RtmpProtocol.cpp).
use bls.Base.{
  ℕ, ◌≡◌, refl, ap, ◌∙◌, false, true, none, some, List, [], ◌∷◌, ◌++◌, Returns, Returns-elim, elem,
  count, ◌==◌, if◌then◌else◌, Option, Bool-cases, inl, inr, arith, subst, sym, ◌+◌,
}
use bls.Pool.Inv.{Inv}
use bls.Pool.Held.{HoldsAll, free_chain-releases}
use bls.Pool.{Pool, free_chain, free_chunk_bucket}
use bls.Consumer.Lifecycle.{free_consumer}
use bls.Consumer.Lifecycle.Removed.{free_consumer_lem, own_buckets, Gone}
use bls.Source.Streams.Distinct.{Distinct}
use bls.World.{World, Channel, bind, M, ◌>>=◌, ◌>>◌, pure}
use bls.Protocol.{Conn, P}
use bls.Protocol.Lifecycle.{
  free_protocol, delete_members, free_current, free_player, free_source, delete_channels,
}

-- The buckets of all channels.
abbrev pub all_chains : List (ℕ × Channel) → List ℕ
all_chains [] = []
all_chains ((k, v) ∷ m) = v.chain ++ all_chains m

free_chain-append :
    (ids js : List ℕ) (p : Pool) → free_chain (free_chain p ids) js ≡ free_chain p (ids ++ js)
unfolding free_chain
free_chain-append [] js p = refl
free_chain-append (id ∷ ids) js p = free_chain-append ids js (free_chunk_bucket p id)

delete_channels_eq :
    (m : List (ℕ × Channel)) (w : World)
    → delete_channels m w ≡ some (tt, record w { pool = free_chain w.pool (all_chains m) })
unfolding free_chain
delete_channels_eq [] w = refl
delete_channels_eq ((k, v) ∷ m) w =
    delete_channels_eq m (record w { pool = free_chain w.pool v.chain })
    ∙ ap (λ p. some (tt, record w { pool = p })) (free_chain-append v.chain (all_chains m) w.pool)

-- The current chunk, if there is one.
abbrev pub current : ℕ → List ℕ
current id = if id == 0 then [] else id ∷ []

free_current_eq :
    (id : ℕ) (w : World)
    → free_current id w ≡ some (tt, record w { pool = free_chain w.pool (current id) })
unfolding free_chain
free_current_eq id w = elim (Bool-cases (id == 0)) [
  | inl no_chunk ↦ rw no_chunk refl
  | inr chunk ↦ rw chunk refl
]

-- What is freed once the player and the source are.
abbrev rest_freed : Conn → World → World
rest_freed c w = record w {
  pool = free_chain (free_chain w.pool (all_chains c.channels)) (current c.current_chunk);
}

abbrev free_rest : Conn → List ℕ → M (List ℕ)
free_rest c notified = do delete_channels c.channels; free_current c.current_chunk; pure notified

free_rest_eq :
    (c : Conn) (notified : List ℕ) (w : World)
    → free_rest c notified w ≡ some (notified, rest_freed c w)
free_rest_eq c notified w =
    let v : World = record w { pool = free_chain w.pool (all_chains c.channels) } in
    bind (delete_channels c.channels) (λ _. free_current c.current_chunk >> pure notified)
      (delete_channels_eq c.channels w)
    ∙ bind (free_current c.current_chunk) (λ _. pure notified) {w = v}
        (free_current_eq c.current_chunk v)

abbrev pub player_buckets : Option ℕ → World → List ℕ
player_buckets none w = []
player_buckets (some k) w = own_buckets (w.consumer k)

-- Every reference that a connection which does not publish has to give back: one on each of its
-- player's five buckets, one on each bucket of each channel's chain, and one on the current chunk.
abbrev pub held_by : Conn → World → List ℕ
held_by c w =
    player_buckets (w.play_consumer c.client) w
    ++ (all_chains c.channels ++ current c.current_chunk)

abbrev after_callback : Option (Unit {0} × Conn × World) → Option (List ℕ × World)
after_callback none = none
after_callback (some (_, c, w)) = delete_members c w

-- A player, if there is one, that is gone.
abbrev PlayerGone : Option ℕ → World → Unit {0} × World → Type 0
PlayerGone o w r =
    (r.1.pool ≡ free_chain w.pool (player_buckets o w))
    × ((k : ℕ) → o ≡ some k → (s : ℕ) → elem k (r.1.source s).consumer_queue ≡ false)

free_player_lem :
    (o : Option ℕ) (w : World)
    → ((k : ℕ) → o ≡ some k → (w.consumer k).is_alive ≡ true)
    → Returns (free_player o w) (PlayerGone o w)
unfolding free_chain
free_player_lem none w h = (refl, λ k e. absurd (ground (arith, e)))
free_player_lem (some k) w h =
    let (r, e, g) =
      Returns-elim (free_consumer k w) (Gone k w) (free_consumer_lem k w (h k refl)) in
    rw e (
      g.0,
      λ j f s.
          subst (λ i. elem i (r.1.source s).consumer_queue ≡ false) (ground (arith, f)) (g.1 s),
    )

-- What is left of a connection that did not publish.
pub record Left (c : Conn) (w : World) (r : List ℕ × World) : Type 0 where
  pub nobody_told : r.0 ≡ []
  pub inv : Inv r.1.pool
  pub references :
      (i : ℕ) → (r.1.pool.bucket i).ref_count + count i (held_by c w) ≡ (w.pool.bucket i).ref_count
  pub in_no_queue :
      (k : ℕ)
      → w.play_consumer c.client ≡ some k
      → (s : ℕ) → elem k (r.1.source s).consumer_queue ≡ false

-- When a connection that, behind JavaScript's callback, does not publish, is gone, with its player, if
-- it has one that is alive: if the connection holds a reference for each of the player's five buckets,
-- each bucket of each channel's chain and the current chunk, then the destructor does not fault, each
-- bucket has lost exactly these references, the pool keeps its ownership, so that a bucket whose last
-- reference went is free; and the player stands in no queue.
pub free_protocol-Left :
    (node_on_close_cb : P (Unit {0})) (before c : Conn) (earlier w : World)
    → node_on_close_cb before earlier ≡ some (tt, c, w)
    → ((k : ℕ) → w.play_consumer c.client ≡ some k → (w.consumer k).is_alive ≡ true)
    → c.publish_source ≡ none
    → Inv w.pool
    → HoldsAll w.pool (held_by c w)
    → Returns (free_protocol node_on_close_cb before earlier) (Left c w)
unfolding free_protocol free_chain
free_protocol-Left node_on_close_cb before c earlier w called alive n v holds =
    let o = w.play_consumer c.client in
    let (r, e, g) = Returns-elim (free_player o w) (PlayerGone o w) (free_player_lem o w alive) in
    let chains = all_chains c.channels in
    let pool_is : (rest_freed c r.1).pool ≡ free_chain w.pool (held_by c w) =
      free_chain-append chains (current c.current_chunk) r.1.pool
      ∙ ap (λ q. free_chain q (chains ++ current c.current_chunk)) g.0
      ∙ free_chain-append (player_buckets o w) (chains ++ current c.current_chunk) w.pool in
    let (inv, references) = free_chain-releases (held_by c w) w.pool v holds in
    rw
      (ap after_callback called
        ∙ bind (λ w. free_player (w.play_consumer c.client) w)
            (λ _. free_source c.publish_source >>= free_rest c) {w = w} {w' = r.1} {a = tt} e
        ∙ ap (λ o. (free_source o >>= free_rest c) r.1) n
        ∙ free_rest_eq c [] r.1)
      (record {
        nobody_told = refl;
        inv = subst Inv (sym pool_is) inv;
        references =
            λ i. ap (λ q. (q.bucket i).ref_count + count i (held_by c w)) pool_is ∙ references i;
        in_no_queue = g.1;
      })
