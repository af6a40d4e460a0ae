-- ===== src/Protocol/Receive/Fragments.antt =====
-- How the bytes of a read are cut up by the network does not matter.
use mathlib.Core.Path.{fun_ext}
use bls.Base.{
  ℕ, ◌+◌, ◌<◌, ◌≡◌, refl, sym, inl, inr, ap, ap₂, ◌∙◌, Bool, true, false, Option, none, some, List,
  ◌++◌, arith, length, length-append, leb, ◌==◌, poke-append, le→leb, Bool-cases,
}
use bls.Chunk.{Bucket}
use bls.Pool.{Pool, put_bucket}
use bls.World.{World}
use bls.Protocol.{Conn, Reading, Area, in_header, in_payload, ◌>>◌, bind, and_then}
use bls.Protocol.Client.{store, area_size}
use bls.Protocol.Message.{Host}
use bls.Protocol.Receive.{read_cb, stored, advance, received, after_bytes, read_into}

store-append :
    (a : Area) (p : ℕ) (xs ys : List ℕ) (b : Bucket)
    → store a p (xs ++ ys) b ≡ store a (p + length xs) ys (store a p xs b)
store-append in_header p xs ys b = ap (λ m. record b { header = m }) (poke-append xs ys b.header p)
store-append in_payload p xs ys b =
    ap (λ m. record b { payload = m }) (poke-append xs ys b.payload p)

pub put_bucket-put_bucket :
    (p : Pool) (id : ℕ) (a b : Bucket) → put_bucket (put_bucket p id a) id b ≡ put_bucket p id b
put_bucket-put_bucket p id a b = ap (λ f. record p { bucket = f }) (fun_ext λ i. ground arith)

pub bucket-put_bucket : (p : Pool) (id : ℕ) (a : Bucket) → (put_bucket p id a).bucket id ≡ a
bucket-put_bucket p id a = ground arith

stored-append :
    (r : Reading) (xs ys : List ℕ) (w : World)
    → stored r (xs ++ ys) w ≡ stored (advance r xs) ys (stored r xs w)
stored-append r xs ys w =
    let b = w.pool.bucket r.bucket in
    let first = store r.area (r.offset + r.recved_len) xs b in
    let then_ : Bucket → Bucket = store r.area (r.offset + (r.recved_len + length xs)) ys in
    let at_once : store r.area (r.offset + r.recved_len) (xs ++ ys) b ≡ then_ first =
      store-append r.area (r.offset + r.recved_len) xs ys b
      ∙ ap (λ k. store r.area k ys first) (omega arith) in
    ap (λ v. record w { pool = put_bucket w.pool r.bucket v })
      (at_once ∙ ap then_ (sym (bucket-put_bucket w.pool r.bucket first)))
    ∙ ap (λ p. record w { pool = p })
        (sym (
          put_bucket-put_bucket w.pool r.bucket first
            (then_ ((put_bucket w.pool r.bucket first).bucket r.bucket))))

advance-append : (r : Reading) (xs ys : List ℕ) → advance r (xs ++ ys) ≡ advance (advance r xs) ys
advance-append r xs ys = ap (λ n. record r { recved_len = n }) (omega (arith, length-append xs ys))

after_bytes-reading :
    (host : Host) (r : Reading) (o : Option Reading) (c : Conn) (w : World)
    → after_bytes host r c w ≡ after_bytes host r (record c { reading = o }) w
after_bytes-reading host r o c w = elim (Bool-cases (r.recved_len == r.expect_len)) [
  | inl e ↦ rw e
  | inr e ↦ rw e
]

-- A piece that leaves something missing is stored, and the read goes on.
received_piece :
    (host : Host) (r : Reading) (xs : List ℕ) (c : Conn) (w : World)
    → leb (r.offset + r.expect_len) (area_size w r.area) ≡ true
    → r.recved_len + length xs < r.expect_len
    → received host r xs c w ≡ some (tt, record c { reading = some (advance r xs) }, stored r xs w)
received_piece host r xs c w h k =
    rw (h, le→leb (r.recved_len + length xs) r.expect_len (omega arith), less) refl
  where
    less : ((r.recved_len + length xs) == r.expect_len) ≡ false
    less = ground arith

abbrev when : Bool → Option (Unit {0} × Conn × World) → Option (Unit {0} × Conn × World)
when true o = o
when false o = none

-- The two bounds, then the rest.
received_lem :
    (host : Host) (r : Reading) (bytes : List ℕ) (c : Conn) (w : World)
    → received host r bytes c w
      ≡ when (leb (r.offset + r.expect_len) (area_size w r.area)) (
          when
            (leb (r.recved_len + length bytes) r.expect_len)
            (after_bytes host (advance r bytes) c (stored r bytes w)))
received_lem host r bytes c w =
    elim (Bool-cases (leb (r.offset + r.expect_len) (area_size w r.area))) [
      | inl e ↦ elim (Bool-cases (leb (r.recved_len + length bytes) r.expect_len)) [
        | inl f ↦ rw (e, f)
        | inr f ↦ rw (e, f)
      ]
      | inr e ↦ rw e
    ]

area_size-stored :
    (a : Area) (r : Reading) (xs : List ℕ) (w : World) → area_size (stored r xs w) a ≡ area_size w a
area_size-stored in_header r xs w = refl
area_size-stored in_payload r xs w = refl

received_rest :
    (host : Host) (r : Reading) (xs ys : List ℕ) (c : Conn) (w : World)
    → received host r (xs ++ ys) c w
      ≡ received host (advance r xs) ys (record c { reading = some (advance r xs) }) (stored r xs w)
received_rest host r xs ys c w =
    let c' : Conn = record c { reading = some (advance r xs) } in
    let total : r.recved_len + length (xs ++ ys) ≡ r.recved_len + length xs + length ys =
      omega (arith, length-append xs ys) in
    let same : after_bytes host (advance r (xs ++ ys)) c (stored r (xs ++ ys) w)
        ≡ after_bytes host (advance (advance r xs) ys) c'
            (stored (advance r xs) ys (stored r xs w)) =
      ap₂ (λ q v. after_bytes host q c v) (advance-append r xs ys) (stored-append r xs ys w)
      ∙ after_bytes-reading host (advance (advance r xs) ys) (some (advance r xs)) c _ in
    received_lem host r (xs ++ ys) c w
    ∙ ap₂ (λ a t. when (leb (r.offset + r.expect_len) a) t) (sym (area_size-stored r.area r xs w))
        (ap₂ (λ n t. when (leb n r.expect_len) t) total same)
    ∙ sym (received_lem host (advance r xs) ys c' (stored r xs w))

received_bad :
    (host : Host) (r : Reading) (xs : List ℕ) (c : Conn) (w : World)
    → leb (r.offset + r.expect_len) (area_size w r.area) ≡ false
    → received host r xs c w ≡ none
received_bad host r xs c w h = rw h

-- A read that gets its bytes in two pieces, the first of which leaves something missing, does what
-- it does when it gets them at once: the same memory, the same counters, the same call of the
-- machine, or the same fault.
pub read_cb-append :
    (host : Host) (xs ys : List ℕ) (r : Reading) (c : Conn) (w : World)
    → c.reading ≡ some r
    → r.recved_len + length xs < r.expect_len
    → read_cb host (xs ++ ys) c w ≡ (read_cb host xs >> read_cb host ys) c w
unfolding read_cb
read_cb-append host xs ys r c w h k =
    elim (Bool-cases (leb (r.offset + r.expect_len) (area_size w r.area))) [
      | inl e ↦
          ap (λ o. read_into host (xs ++ ys) o c w) h
          ∙ received_rest host r xs ys c w
          ∙ sym (
              bind (read_cb host xs) (λ _. read_cb host ys) {c = c} {w = w}
                (ap (λ o. read_into host xs o c w) h ∙ received_piece host r xs c w e k))
      | inr e ↦
          (ap (λ o. read_into host (xs ++ ys) o c w) h ∙ received_bad host r (xs ++ ys) c w e)
          ∙ sym (
              ap (and_then (λ _. read_cb host ys))
                (ap (λ o. read_into host xs o c w) h ∙ received_bad host r xs c w e))
    ]
