-- ===== src/Proto/Message/Kinds.antt =====
-- Which messages (Msg).Type and (Msg).Unmarshal take for which.
use connectopus.Prelude.{ℕ, ◌/◌, ◌≡◌, ap, ◌⊎◌, ◌↔◌, ◌∷◌, Bytes, length, arith}
use connectopus.Proto.Ip.{Ip}
use connectopus.Proto.Message.{
  OobMessage, ok, data_, route_oob, oob, msg_type, Json, unmarshal, init_msg, oob_msg,
  route_oob_msg, keepalive_msg, keepalive_reply_msg, marshal_oob, marshal_route_oob,
  marshal_init_msg, marshal_keepalive, marshal_keepalive_reply, map_result, copy_at,
}
use connectopus.Proto.Message.Layout.{marshal_as-wire}
use connectopus.Proto.Message.RoundTrip.{Fits, received, unmarshal-marshal}

-- A message is taken for a data packet exactly if the high half of its first byte is 6, the IP
-- version, or its first byte is 0.
pub data_by_first_byte : (b : ℕ) (m : Bytes) → (msg_type (b ∷ m) ≡ data_) ↔ ((b / 16 ≡ 6) ⊎ (b ≡ 0))
unfolding msg_type
data_by_first_byte b m = ground arith

oob_type : (m : OobMessage) → msg_type (marshal_oob m) ≡ oob
unfolding msg_type marshal_oob
oob_type m = rw (marshal_as-wire 3 m)

route_oob_type : (m : OobMessage) → msg_type (marshal_route_oob m) ≡ route_oob
unfolding msg_type marshal_route_oob copy_at
route_oob_type m = rw (marshal_as-wire 3 m)

-- Unmarshal returns each kind of message as that kind and with what was marshalled: the two
-- out-of-band kinds with addresses at 16 bytes, init with its address, both keepalives.
pub unmarshal-kinds :
    (json : Json) (a : Ip) (m : OobMessage)
    → length a ≡ 16
    → Fits m
    → (unmarshal json (marshal_oob m) ≡ ok (oob_msg (received m)))
      × (unmarshal json (marshal_route_oob m) ≡ ok (route_oob_msg (received m)))
      × (unmarshal json (marshal_init_msg json a) ≡ ok (init_msg a))
      × (unmarshal json (marshal_keepalive json) ≡ ok keepalive_msg)
      × (unmarshal json (marshal_keepalive_reply json) ≡ ok keepalive_reply_msg)
unfolding unmarshal marshal_init_msg marshal_keepalive marshal_keepalive_reply
unmarshal-kinds json a m la h = (
  rw (oob_type m) (ap (map_result oob_msg) (unmarshal-marshal m h).0),
  rw (route_oob_type m) (ap (map_result route_oob_msg) (unmarshal-marshal m h).1),
  rw (json.unmarshal_init-marshal a la),
  rw (json.unmarshal_empty-object),
  rw (json.unmarshal_empty-object),
)
