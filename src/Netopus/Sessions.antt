-- ===== src/Netopus/Sessions.antt =====
-- pkg/netopus/netopus.go: the sessions with neighbours. Each function is one run of a select, or what
-- one goroutine does between two waits, and is taken as one step. Contexts are the flag `live`.
pub mod Registry
pub mod Steps
use Prim.Native.Nat.{suc}
use connectopus.Prelude.{
  ℕ, ◌+◌, ◌*◌, Bool, true, false, not, ◌&&◌, Option, none, some, List, [], ◌∷◌, Bytes, bytes_eq,
  nat_eq, ◌==◌, ltb, leb, if◌then◌else◌, GoMap, get, put, update,
}
use connectopus.Proto.Ip.{Ip}
use connectopus.Proto.Message.{
  Message, packet, init_msg, route_oob_msg, oob_msg, keepalive_msg, keepalive_reply_msg,
}
use connectopus.Router.Float.{Cost, zero_cost, one_cost}
use connectopus.Netopus.Node.{Time, ConnectionState, init, connecting, connected}

abbrev pub second : Time
second = 1000000000

-- protoSession; remote_addr is none before the first init message
pub record Link : Type 0 where
  pub cost : Cost
  pub is_server : Bool
  pub state : ConnectionState
  pub remote_addr : Option Ip
  pub last_init : Time
  pub last_activity : Time
  pub listening : Bool
  pub has_route_conn : Bool
  pub live : Bool

-- The sessions by their pointers, the map sessionInfo, and the calls of updateSender.RunWithin.
pub record Links : Type 0 where
  pub link : ℕ → Link
  pub session_info : GoMap Ip ℕ
  pub update_requests : ℕ

-- What the select of initSelect or mainSelect takes.
pub data Input : Type 0 where
  done timer unreadable : Input
  message : Message → Input

-- What a run sends: an init message, a keepalive, a reply, or the message to the node or to its
-- routing connection.
pub data Output : Type 0 where
  write_init write_keepalive write_keepalive_reply : Output
  to_node to_route_conn : Message → Output

pub record Ran : Type 0 where
  pub links : Links
  pub activity : Bool
  pub outputs : List Output

abbrev pub set_link : ℕ → Link → Links → Links
set_link p l w = record w { link = update w.link p l }

-- p.cancel() of a session
abbrev pub cancel : ℕ → Links → Links
cancel p w = set_link p (record (w.link p) { live = false }) w

abbrev pub is_init : ConnectionState → Bool
is_init init = true
is_init _ = false

-- sendInit and the listener at the start of initSelect; `sent` and `listens` are whether the write and
-- ListenOOB succeed.
unfoldable pub begin_init : Time → Bool → Bool → Link → Link
begin_init now sent listens l =
    if is_init l.state
    then record l {
      last_init = if sent then now else l.last_init;
      listening = if l.is_server && not l.listening then listens else l.listening;
      live = if l.is_server && (not l.listening && not listens) then false else l.live;
    }
    else l

-- The old session to an address is cancelled, if it is another one.
unfoldable pub close_old : ℕ → Option ℕ → Links → Links
close_old p none w = w
close_old p (some old) w = if old == p then w else cancel old w

-- An init message from the address in initSelect.
unfoldable pub accept_init : ℕ → Ip → Links → Links
unfolding close_old
accept_init p a w =
    let w' =
      set_link p (record (w.link p) { state = connecting; remote_addr = some a })
        (close_old p (get a w.session_info) w) in
    record w' { session_info = put a p w'.session_info }

-- initSelect behind its sendInit
unfoldable pub init_input : ℕ → Input → Links → Ran
unfolding accept_init
init_input p done w = record { links = w; activity = false; outputs = [] }
init_input p timer w = record { links = w; activity = false; outputs = [] }
init_input p unreadable w = record { links = w; activity = false; outputs = [] }
init_input p (message (init_msg a)) w =
    if is_init (w.link p).state
    then record { links = accept_init p a w; activity = true; outputs = [] }
    else record { links = w; activity = false; outputs = [] }
init_input p (message (route_oob_msg m)) w = record {
  links = w;
  activity = true;
  outputs = to_route_conn (route_oob_msg m) ∷ [];
}
init_input p (message keepalive_msg) w = record {
  links = w;
  activity = true;
  outputs = write_keepalive_reply ∷ [];
}
init_input p (message keepalive_reply_msg) w = record { links = w; activity = true; outputs = [] }
init_input p (message (packet b)) w = record { links = w; activity = false; outputs = [] }
init_input p (message (oob_msg m)) w = record { links = w; activity = false; outputs = [] }

-- initSelect
unfoldable pub init_select : Time → Bool → Bool → ℕ → Input → Links → Ran
unfolding begin_init init_input
init_select now sent listens p i w =
    let ran = init_input p i (set_link p (begin_init now sent listens (w.link p)) w) in
    record ran {
      outputs = if is_init (w.link p).state && sent then write_init ∷ ran.outputs else ran.outputs;
    }

-- mainSelect
unfoldable pub main_select : Time → ℕ → Input → Links → Ran
main_select now p done w = record { links = w; activity = false; outputs = [] }
main_select now p timer w = record { links = w; activity = false; outputs = [] }
main_select now p unreadable w = record { links = w; activity = false; outputs = [] }
main_select now p (message (init_msg a)) w = record {
  links =
      if ltb ((w.link p).last_init + 2 * second) now
      then set_link p (record (w.link p) { state = init }) w
      else w;
  activity = false;
  outputs = [];
}
main_select now p (message (packet b)) w = record {
  links = w;
  activity = true;
  outputs = to_node (packet b) ∷ [];
}
main_select now p (message (oob_msg m)) w = record {
  links = w;
  activity = true;
  outputs = to_node (oob_msg m) ∷ [];
}
main_select now p (message (route_oob_msg m)) w = record {
  links = w;
  activity = true;
  outputs = to_route_conn (route_oob_msg m) ∷ [];
}
main_select now p (message keepalive_msg) w = record {
  links = w;
  activity = true;
  outputs = write_keepalive_reply ∷ [];
}
main_select now p (message keepalive_reply_msg) w = record {
  links = w;
  activity = true;
  outputs = [];
}

-- mainSelect if the session is connected, else initSelect
unfoldable pub select_run : ConnectionState → Time → Bool → Bool → ℕ → Input → Links → Ran
unfolding init_select main_select
select_run connected now sent listens p i w = main_select now p i w
select_run init now sent listens p i w = init_select now sent listens p i w
select_run connecting now sent listens p i w = init_select now sent listens p i w

-- One turn of protoLoop; an input that its select cannot take does not occur.
unfoldable pub proto_turn : Time → Bool → Bool → ℕ → Input → Links → Ran
unfolding select_run
proto_turn now sent listens p i w =
    let ran = select_run (w.link p).state now sent listens p i w in
    record ran {
      links =
          if ran.activity
          then set_link p (record (ran.links.link p) { last_activity = now }) ran.links
          else ran.links;
    }

-- finalizeConn
unfoldable pub finalize_conn : ℕ → Links → Links
finalize_conn p w =
    record (set_link p (record (w.link p) { state = connected; has_route_conn = true }) w) {
      update_requests = suc w.update_requests;
    }

-- The routing connection failed: the state is init again, and after a failed Accept or the five
-- seconds of routeConnTimer the session is cancelled too.
unfoldable pub route_conn_failed : Bool → ℕ → Links → Links
route_conn_failed cancels p w =
    let l = w.link p in
    set_link p (record l { state = init; live = if cancels then false else l.live }) w

-- The tick of the goroutine that watches for inactivity
unfoldable pub watch : Time → ℕ → Links → Links × List Output
watch now p w =
    if ltb ((w.link p).last_activity + 7 * second) now
    then (cancel p w, [])
    else if ltb ((w.link p).last_activity + 3 * second) now
    then (w, write_keepalive ∷ [])
    else (w, [])

-- The protoSession that RunProtocol makes
abbrev pub new_link : Cost → Bool → Link
new_link cost is_server = record {
  cost = if leb cost zero_cost then one_cost else cost;
  is_server = is_server;
  state = init;
  remote_addr = none;
  last_init = 0;
  last_activity = 0;
  listening = false;
  has_route_conn = false;
  live = true;
}

-- RunProtocol up to its wait
unfoldable pub run_protocol : Cost → Bool → ℕ → Links → Links
run_protocol cost is_server p w = set_link p (new_link cost is_server) w

-- delete(si, k) for the keys of this session
unfoldable pub forget : ℕ → GoMap Ip ℕ → GoMap Ip ℕ
forget p [] = []
forget p ((k, v) ∷ s) = let rest = forget p s in if v == p then rest else (k, v) ∷ rest

-- The end of RunProtocol, when the context is done
unfoldable pub end_protocol : ℕ → Links → Links
unfolding forget
end_protocol p w = record (cancel p w) {
  session_info = forget p w.session_info;
  update_requests = suc w.update_requests;
}
