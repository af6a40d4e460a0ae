-- ===== src/Protocol/Receive/Chunks/Keeps.antt =====
-- The buckets of a message that has come in part: they are not in the pool's queue, and no read
-- writes into them (src/RtmpProtocol.cpp, src/RtmpChunkPool.cpp).
use bls.Base.{
  inl, inr, subst, ℕ, ◌<◌, ◌≡◌, ◌≢◌, refl, ap, ap₂, ◌∙◌, sym, some, List, [], ◌∷◌, ◌++◌, arith,
  count, count-append, peek,
}
use mathlib.Core.List.{append-nil, append_assoc}
use bls.Pool.{split_last}
use bls.Pool.Inv.{Inv, count-nil}
use bls.Pool.Free.{Held, count-cons}
use bls.World.{World}
use bls.World.Encode.Payload.{payloads, same_or_not}
use bls.World.Rewrites.{Rewrites, Rewrites-Inv}
use bls.Protocol.{Conn}
use bls.Protocol.Receive.Delivery.Last.{Filled}
use bls.Protocol.Receive.Chunks.Fresh.{Claims}

-- The bucket `id` is being filled, and the buckets `ids` hold the payload so far.
pub record Keeps (id : ℕ) (ids payload : List ℕ) (w : World) : Type 0 where
  pub inv : Inv w.pool
  pub current_held : Held w.pool id
  pub ids_held : (i : ℕ) → 0 < count i ids → Held w.pool i × (i ≢ id)
  pub content : payloads w ids ≡ payload

-- A bucket that somebody holds is not in the queue.
pub Held-out : (w : World) (i : ℕ) → Inv w.pool → Held w.pool i → count i w.pool.queue ≡ 0
Held-out w i v h = ground (arith, v.owned i, h)

pub payloads-append :
    (w : World) (xs ys : List ℕ) → payloads w (xs ++ ys) ≡ payloads w xs ++ payloads w ys
payloads-append w [] ys = refl
payloads-append w (x ∷ xs) ys =
    ap (λ bs. peek (w.pool.bucket x).payload 0 (w.pool.bucket x).payload_length ++ bs)
      (payloads-append w xs ys)
    ∙ sym (append_assoc _ (payloads w xs) (payloads w ys))

pub payloads-kept :
    (w w' : World) (ids : List ℕ)
    → ((i : ℕ) → 0 < count i ids → w'.pool.bucket i ≡ w.pool.bucket i)
    → payloads w' ids ≡ payloads w ids
payloads-kept w w' [] k = refl
payloads-kept w w' (x ∷ xs) k =
    ap₂ ◌++◌ (ap (λ b. peek b.payload 0 b.payload_length) (k x (ground (arith, count-cons x x xs))))
      (payloads-kept w w' xs (λ i h. k i (omega (arith, h, count-cons i x xs))))

pub split_last-append : (xs : List ℕ) (x : ℕ) → split_last (xs ++ x ∷ []) ≡ some (xs, x)
unfolding split_last
split_last-append [] x = refl
split_last-append (y ∷ []) x = refl
split_last-append (y ∷ z ∷ zs) x = rw (split_last-append (z ∷ zs) x) refl

pub Keeps-Rewrites :
    (id : ℕ) (ids payload : List ℕ) (w w' : World)
    → Keeps id ids payload w
    → Rewrites id w w'
    → Keeps id ids payload w'
Keeps-Rewrites id ids payload w w' k r = record {
  inv = Rewrites-Inv id w w' r (Held-out w id k.inv k.current_held) k.inv;
  current_held = ground (arith, k.current_held, r.ref_kept, r.next_kept);
  ids_held = λ i h. (
    ground (arith, (k.ids_held i h).0, r.others i (k.ids_held i h).1, r.next_kept),
    (k.ids_held i h).1,
  );
  content = payloads-kept w w' ids (λ i h. r.others i (k.ids_held i h).1) ∙ k.content;
}

-- The bucket that has been filled holds the next piece.
pub Keeps-payloads :
    (id : ℕ) (ids payload piece : List ℕ) (w : World)
    → Keeps id ids payload w
    → Filled piece (w.pool.bucket id)
    → payloads w (ids ++ id ∷ []) ≡ payload ++ piece
Keeps-payloads id ids payload piece w k f =
    payloads-append w ids (id ∷ [])
    ∙ ap₂ ◌++◌ k.content (append-nil _ ∙ ap (peek (w.pool.bucket id).payload 0) f.size ∙ f.content)

pub Keeps-Held :
    (id : ℕ) (ids payload : List ℕ) (w : World)
    → Keeps id ids payload w
    → (i : ℕ) → 0 < count i (ids ++ id ∷ [])
    → Held w.pool i
Keeps-Held id ids payload w k i h = elim (same_or_not id i) [
  | inl e ↦ subst (Held w.pool) e k.current_held
  | inr ne ↦ (k.ids_held i (omega (arith, h, count-append i ids (id ∷ []), not_last i ne))).0
]
  where
    not_last : (i : ℕ) → id ≢ i → count i (id ∷ []) ≡ 0
    not_last i ne = ground (arith, count-cons i id [], count-nil i, ne)

-- The next bucket is another one, and the message has one more.
pub Claims-Keeps :
    (ids payload piece : List ℕ) (id : ℕ) (c : Conn) (w w' : World)
    → Keeps c.current_chunk ids payload w
    → Filled piece (w.pool.bucket c.current_chunk)
    → Claims id c w w'
    → Keeps id (ids ++ c.current_chunk ∷ []) (payload ++ piece) w'
Claims-Keeps ids payload piece id c w w' k f n =
    let all = ids ++ c.current_chunk ∷ [] in
    let held = Keeps-Held c.current_chunk ids payload w k in
    let other : (i : ℕ) → 0 < count i all → i ≢ id =
      λ i h e. ground (arith, Held-out w i k.inv (held i h), n.was_free, e) in
    record {
      inv = n.inv;
      current_held = n.held;
      ids_held =
          λ i h. (ground (arith, held i h, n.others_kept i (other i h), n.next_kept), other i h);
      content =
          payloads-kept w w' all (λ i h. n.others_kept i (other i h))
          ∙ Keeps-payloads c.current_chunk ids payload piece w k f;
    }
