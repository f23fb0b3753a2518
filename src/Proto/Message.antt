-- ===== src/Proto/Message.antt =====
-- pkg/proto/proto.go: message types, and the out-of-band message with its byte layout. The bodies
-- of the other messages are JSON: encoding/json is the argument `Json`.
pub mod Layout
pub mod RoundTrip
pub mod Kinds
use Prim.Native.Nat.{zero, suc}
use connectopus.Prelude.{
  ℕ, ◌+◌, ◌*◌, ◌/◌, ◌%◌, ◌≡◌, Bool, true, false, not, Option, none, some, List, [], ◌∷◌, ◌++◌,
  Bytes, ◌==◌, nat_eq, ltb, leb, if◌then◌else◌, length, take, drop, replicate, get_or,
}
use connectopus.Proto.Ip.{Ip}

pub data MsgType : Type 0 where
  error data_ init route_oob oob keepalive keepalive_reply : MsgType

-- The constants of the const block, MsgTypeError being -1 and left out.
abbrev pub type_byte : MsgType → ℕ
type_byte error = 255
type_byte data_ = 0
type_byte init = 1
type_byte route_oob = 2
type_byte oob = 3
type_byte keepalive = 4
type_byte keepalive_reply = 5

-- MsgType(b) for a byte b that is at most MaxMsgType
abbrev pub of_byte : ℕ → MsgType
of_byte b =
    if b == 0
    then data_
    else if b == 1
    then init
    else if b == 2
    then route_oob
    else if b == 3
    then oob
    else if b == 4
    then keepalive
    else keepalive_reply

abbrev pub max_msg_type : ℕ
max_msg_type = 5

-- (Msg).Type
unfoldable pub msg_type : Bytes → MsgType
msg_type [] = error
msg_type (b ∷ m) = if b / 16 == 6 then data_ else if leb b max_msg_type then of_byte b else error

pub record OobMessage : Type 0 where
  pub hops : ℕ  -- byte
  pub source_addr : Ip
  pub source_port : ℕ  -- uint16
  pub dest_addr : Ip
  pub dest_port : ℕ  -- uint16
  pub payload : Bytes

abbrev pub header_hops : ℕ
header_hops = 1

abbrev pub header_source_addr : ℕ
header_source_addr = 2

abbrev pub header_source_port : ℕ
header_source_port = 18

abbrev pub header_dest_addr : ℕ
header_dest_addr = 20

abbrev pub header_dest_port : ℕ
header_dest_port = 37

abbrev pub header_data : ℕ
header_data = 39

-- copy(b[:n], src)
unfoldable pub copy_front : ℕ → Bytes → Bytes → Bytes
copy_front zero src b = b
copy_front (suc n) [] b = b
copy_front (suc n) (x ∷ src) [] = []
copy_front (suc n) (x ∷ src) (y ∷ b) = x ∷ copy_front n src b

-- copy(b[off:off+n], src)
unfoldable pub copy_at : ℕ → ℕ → Bytes → Bytes → Bytes
unfolding copy_front
copy_at zero n src b = copy_front n src b
copy_at (suc off) n src [] = []
copy_at (suc off) n src (y ∷ b) = y ∷ copy_at off n src b

-- binary.BigEndian.PutUint16 and Uint16
abbrev pub uint16_bytes : ℕ → Bytes
uint16_bytes p = (p / 256 % 256) ∷ (p % 256) ∷ []

abbrev pub uint16_of : Bytes → ℕ
uint16_of b = get_or b 0 0 * 256 + get_or b 1 0

-- (*OOBMessage).Marshal, with the byte of the message's type: Marshal of a RouteOOBMessage
-- overwrites it.
unfoldable pub marshal_as : ℕ → OobMessage → Bytes
unfolding copy_at
marshal_as ty m =
    let b0 = replicate (header_data + length m.payload) 0 in
    let b1 = copy_at 0 1 (ty ∷ []) b0 in
    let b2 = copy_at header_hops 1 (m.hops ∷ []) b1 in
    let b3 = copy_at header_source_addr 16 m.source_addr b2 in
    let b4 = copy_at header_source_port 2 (uint16_bytes m.source_port) b3 in
    let b5 = copy_at header_dest_addr 16 m.dest_addr b4 in
    let b6 = copy_at header_dest_port 2 (uint16_bytes m.dest_port) b5 in
    copy_at header_data (length m.payload) m.payload b6

unfoldable pub marshal_oob : OobMessage → Bytes
unfolding marshal_as
marshal_oob = marshal_as (type_byte oob)

-- (*RouteOOBMessage).Marshal: marshals as an OOBMessage and sets oob[0].
unfoldable pub marshal_route_oob : OobMessage → Bytes
unfolding marshal_oob
marshal_route_oob m = copy_at 0 1 (type_byte route_oob ∷ []) (marshal_oob m)

pub data UnmarshalError : Type 0 where
  too_short wrong_type unknown_type json_error : UnmarshalError

pub data Result (A : Type 0) : Type 0 where
  ok : A → Result A
  err : UnmarshalError → Result A

-- m[off : off+n]
abbrev pub slice : ℕ → ℕ → Bytes → Bytes
slice off n m = take n (drop off m)

-- unmarshalOOB and unmarshalRouteOOB differ in the type byte that they ask for.
unfoldable pub unmarshal_as : ℕ → Bytes → Result OobMessage
unmarshal_as ty m =
    if ltb (length m) header_data
    then err too_short
    else if not (get_or m 0 0 == ty)
    then err wrong_type
    else ok (record {
      hops = get_or m header_hops 0;
      source_addr = slice header_source_addr 16 m;
      source_port = uint16_of (slice header_source_port 2 m);
      dest_addr = slice header_dest_addr 16 m;
      dest_port = uint16_of (slice header_dest_port 2 m);
      payload = drop header_data m;
    })

unfoldable pub unmarshal_oob : Bytes → Result OobMessage
unfolding unmarshal_as
unmarshal_oob = unmarshal_as (type_byte oob)

unfoldable pub unmarshal_route_oob : Bytes → Result OobMessage
unfolding unmarshal_as
unmarshal_route_oob = unmarshal_as (type_byte route_oob)

-- encoding/json at the message types that the source gives it. What InitMsg holds is one address.
pub record Json : Type 0 where
  pub marshal_init : Ip → Bytes
  pub unmarshal_init : Bytes → Option Ip
  pub empty_object : Bytes
  pub unmarshal_empty : Bytes → Bool
  pub unmarshal_init-marshal : (a : Ip) → length a ≡ 16 → unmarshal_init (marshal_init a) ≡ some a
  pub unmarshal_empty-object : unmarshal_empty empty_object ≡ true

-- The values that Unmarshal returns.
pub data Message : Type 0 where
  packet : Bytes → Message
  init_msg : Ip → Message
  route_oob_msg : OobMessage → Message
  oob_msg : OobMessage → Message
  keepalive_msg : Message
  keepalive_reply_msg : Message

abbrev pub map_result : {A B : Type 0} → (A → B) → Result A → Result B
map_result f (ok a) = ok (f a)
map_result f (err e) = err e

module _ (json : Json) where
  -- marshalMsg and the Marshal methods of InitMsg, KeepaliveMsg and KeepaliveReplyMsg
  unfoldable pub marshal_init_msg : Ip → Bytes
  marshal_init_msg a = type_byte init ∷ json.marshal_init a

  unfoldable pub marshal_keepalive : Bytes
  marshal_keepalive = type_byte keepalive ∷ json.empty_object

  unfoldable pub marshal_keepalive_reply : Bytes
  marshal_keepalive_reply = type_byte keepalive_reply ∷ json.empty_object

  -- the `switch` of Unmarshal
  unfoldable pub unmarshal_of : MsgType → Bytes → Result Message
  unfolding unmarshal_oob unmarshal_route_oob
  unmarshal_of data_ m = ok (packet m)
  unmarshal_of init m = elim (json.unmarshal_init (drop 1 m)) [
    | some a ↦ ok (init_msg a)
    | none ↦ err json_error
  ]
  unmarshal_of route_oob m = map_result route_oob_msg (unmarshal_route_oob m)
  unmarshal_of oob m = map_result oob_msg (unmarshal_oob m)
  unmarshal_of keepalive m =
      if json.unmarshal_empty (drop 1 m) then ok keepalive_msg else err json_error
  unmarshal_of keepalive_reply m =
      if json.unmarshal_empty (drop 1 m) then ok keepalive_reply_msg else err json_error
  unmarshal_of error m = err unknown_type

  -- (Msg).Unmarshal
  unfoldable pub unmarshal : Bytes → Result Message
  unfolding msg_type unmarshal_of
  unmarshal m = unmarshal_of (msg_type m) m
