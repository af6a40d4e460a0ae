-- ===== src/Binding/Streams.antt =====
-- Publishing and playing from JavaScript (src/addon.cpp).
use bls.Base.{
  ==-refl, if◌then◌else◌, ℕ, ◌≡◌, ◌≢◌, refl, ap, ◌∙◌, sym, true, false, none, some, List, [], ◌∷◌,
  Returns, Returns-elim, elem,
}
use bls.Pool.{free_chain}
use bls.World.{World}
use bls.Consumer.Lifecycle.{free_consumer}
use bls.Consumer.Lifecycle.Removed.{free_consumer_lem, own_buckets, Gone}
use bls.Source.Streams.{find_stream, get_publish_source, get_play_source, collect_source}
use bls.Source.Streams.Distinct.{Distinct, get_publish_source_lem, collect_source_lem}
use bls.Protocol.{Conn, P, ◌>>=◌, lift-bind, bind, modify, pure, ◌>>◌}
use bls.Binding.{
  publish_stream, unpublish_from, unpublish_stream, unplay_stream, unplay_from, set_play_consumer,
}

-- A client that publishes.
publish_eq :
    (c : Conn) (w v : World) (name s : ℕ)
    → c.is_closed ≡ false
    → get_publish_source name w ≡ some (some s, v)
    → publish_stream name c w ≡ some (true, record c { publish_source = some s }, v)
unfolding publish_stream
publish_eq c w v name s h e = rw (h, e) refl

-- `protocol->publish_source = NULL`
abbrev forget : List ℕ → P (List ℕ)
forget told = modify (λ c. record c { publish_source = none }) >> pure told

unpublish_eq :
    (c : Conn) (w v : World) (s : ℕ) (told : List ℕ)
    → c.is_closed ≡ false
    → c.publish_source ≡ some s
    → collect_source s w ≡ some (told, v)
    → unpublish_stream c w ≡ some (told, record c { publish_source = none }, v)
unfolding unpublish_stream
unpublish_eq c w v s told h p e =
    ap (λ b. if b then some ([], c, w) else unpublish_from c.publish_source c w) h
    ∙ ap (λ o. unpublish_from o c w) p
    ∙ lift-bind (collect_source s) forget c w e

-- An open client that publishes a stream that nobody publishes, while the pool has a source, and then
-- unpublishes, has no source any more; the pool of sources is as before, nobody finds the stream,
-- every other stream is found as before, and no source serves two streams.
pub unpublish_stream-publish_stream :
    (c : Conn) (w : World) (name s : ℕ) (rest : List ℕ)
    → c.is_closed ≡ false
    → Distinct w
    → find_stream name w.source_map ≡ none
    → w.source_pool ≡ s ∷ rest
    → Returns ((publish_stream name >>= λ _. unpublish_stream) c w) λ (r : List ℕ × Conn × World).
      (r.1.publish_source ≡ none)
      × (r.2.source_pool ≡ w.source_pool)
      × (get_play_source name r.2 ≡ none)
      × ((n : ℕ) → n ≢ name → get_play_source n r.2 ≡ get_play_source n w)
      × Distinct r.2
unfolding get_play_source
unpublish_stream-publish_stream c w name s rest h d f e =
    let (r, e1, p) =
      Returns-elim (get_publish_source name w) _ (get_publish_source_lem name s rest w d f e) in
    let c1 : Conn = record c { publish_source = some s } in
    let served : find_stream (r.1.source s).stream_name r.1.source_map ≡ some s =
      ap (λ n. find_stream n r.1.source_map) p.2 ∙ p.4 in
    let (q, e2, t) = Returns-elim (collect_source s r.1) _ (collect_source_lem s r.1 p.1 served) in
    rw
      (bind (publish_stream name) (λ _. unpublish_stream) {c = c} {w = w}
          (publish_eq c w r.1 name s h (e1 ∙ ap (λ o. some (o, r.1)) p.0))
        ∙ unpublish_eq c1 r.1 q.1 s q.0 h refl e2)
      (
        refl,
        t.1 ∙ ap (◌∷◌ s) p.7 ∙ sym e,
        ap (λ n. get_play_source n q.1) (sym p.2) ∙ t.2,
        λ n ne. t.3 n (λ g. ne (g ∙ p.2)) ∙ p.6 n ne,
        t.0,
      )

-- An open client whose player is alive and that stops playing has no player any more: it stands in no
-- source's queue, every other player stays, and each of its five buckets loses a reference.
pub unplay_stream_lem :
    (c : Conn) (w : World) (k : ℕ)
    → c.is_closed ≡ false
    → w.play_consumer c.client ≡ some k
    → (w.consumer k).is_alive ≡ true
    → Returns (unplay_stream c w) λ (r : Unit {0} × Conn × World).
      (r.2.play_consumer c.client ≡ none)
      × (r.2.pool ≡ free_chain w.pool (own_buckets (w.consumer k)))
      × ((s : ℕ) → elem k (r.2.source s).consumer_queue ≡ false)
      × ((s j : ℕ)
          → j ≢ k
          → elem j (r.2.source s).consumer_queue ≡ elem j (w.source s).consumer_queue)
unfolding unplay_stream
unplay_stream_lem c w k h p a =
    let (r, e, f) = Returns-elim (free_consumer k w) (Gone k w) (free_consumer_lem k w a) in
    rw
      (ap (λ b. if b then some (tt, c, w) else unplay_from (w.play_consumer c.client) c w) h
        ∙ ap (λ o. unplay_from o c w) p
        ∙ lift-bind (free_consumer k) (λ _. set_play_consumer none) c w e)
      (rw (==-refl c.client) refl, f.0, f.1, f.2)
