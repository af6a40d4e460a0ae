-- ===== src/Protocol.antt =====
-- The state of one connection: `RtmpProtocol` (include/RtmpProtocol.h) and the fields of `RtmpClient`
-- (include/RtmpClient.h) that the protocol uses, and handlers over it.
pub mod Client
pub mod Control
pub mod Header
pub mod Message
pub mod Machine
pub mod Receive
pub mod Lifecycle
use bls.Base.{
  ◌≡◌, ap, ℕ, Bool, true, false, Mem, Option, none, some, List, [], ◌∷◌, ◌==◌, if◌then◌else◌,
}
use bls.World.{World, Channel}

-- Where a read stores what comes: the header or the payload of a bucket, from an offset on.
pub data Area : Type 0 where
  in_header in_payload : Area

-- `bls_read_buf_s`, while the socket is being read.
pub record Reading : Type 0 where
  pub bucket : ℕ
  pub area : Area
  pub offset : ℕ
  pub expect_len : ℕ
  pub recved_len : ℕ

pub record Conn : Type 0 where
  pub client : ℕ
  -- `channels`, by chunk id; `current_channel` is the key of the channel that it points to.
  pub channels : List (ℕ × Channel)
  pub current_chunk : ℕ
  pub current_channel : Option ℕ
  pub window_size : ℕ
  pub acked_size : ℕ
  pub total_recved_size : ℕ
  pub total_recved_video_msg : ℕ
  pub total_recved_audio_msg : ℕ
  pub pong_get : Bool
  pub publish_source : Option ℕ
  pub chunk_size : ℕ
  pub node_buf_len : ℕ
  pub node_read_buf : Mem
  pub enable_video_up : Bool
  -- `uv_client` is NULL; `rtmp_server` is not.
  pub is_closed : Bool
  pub has_server : Bool
  pub reading : Option Reading

-- A handler of the connection.
abbrev pub P : Type 0 → Type 0
P A = Conn → World → Option (A × Conn × World)

abbrev pub pure : {A : Type 0} → A → P A
pure a c w = some (a, c, w)

abbrev pub and_then :
    {A B : Type 0} → (A → P B) → Option (A × Conn × World) → Option (B × Conn × World)
and_then f none = none
and_then f (some (a, c, w)) = f a c w

infixl 5 ◌>>=◌ ◌>>◌
abbrev pub ◌>>=◌ : {A B : Type 0} → P A → (A → P B) → P B
◌>>=◌ m f c w = and_then f (m c w)

abbrev pub ◌>>◌ : {B : Type 0} → P (Unit {0}) → P B → P B
m >> k = m >>= λ _. k

abbrev pub with_conn : {A : Type 0} → Conn → Option (A × World) → Option (A × Conn × World)
with_conn c none = none
with_conn c (some (a, w)) = some (a, c, w)

abbrev pub lift : {A : Type 0} → (World → Option (A × World)) → P A
lift m c w = with_conn c (m w)

abbrev pub fault : {A : Type 0} → P A
fault c w = none

abbrev pub check : Bool → P (Unit {0})
check true c w = some (tt, c, w)
check false c w = none

abbrev pub conn : P Conn
conn c w = some (c, c, w)

abbrev pub world : P World
world c w = some (w, c, w)

abbrev pub modify : (Conn → Conn) → P (Unit {0})
modify f c w = some (tt, f c, w)

-- `std::map::find` and `insert`.
unfoldable pub find_channel : ℕ → List (ℕ × Channel) → Option Channel
find_channel k [] = none
find_channel k ((j, v) ∷ m) = if j == k then some v else find_channel k m

unfoldable pub set_channel : ℕ → Channel → List (ℕ × Channel) → List (ℕ × Channel)
set_channel k v [] = (k, v) ∷ []
set_channel k v ((j, u) ∷ m) = if j == k then (k, v) ∷ m else (j, u) ∷ set_channel k v m

abbrev pub put_channel : ℕ → Channel → P (Unit {0})
put_channel k v = modify λ c. record c { channels = set_channel k v c.channels }

-- `*current_channel`, with its key.
abbrev pub the_channel : P (ℕ × Channel)
the_channel c w = elim c.current_channel [
  | none ↦ none
  | some k ↦ elim (find_channel k c.channels) [ none ↦ none | some v ↦ some ((k, v), c, w) ]
]

-- One step of a handler whose result is known.
pub bind :
    {A B : Type 0} (m : P A) (f : A → P B) {c c' : Conn} {w w' : World} {a : A}
    → m c w ≡ some (a, c', w')
    → (m >>= f) c w ≡ f a c' w'
bind m f e = ap (and_then f) e

pub lift-bind :
    {A B : Type 0} (m : World → Option (A × World)) (f : A → P B) (c : Conn) (w : World)
    {w' : World} {a : A}
    → m w ≡ some (a, w')
    → (lift m >>= f) c w ≡ f a c w'
lift-bind m f c w e = ap (λ o. and_then f (with_conn c o)) e
