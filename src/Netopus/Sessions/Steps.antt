-- ===== src/Netopus/Sessions/Steps.antt =====
-- The steps of the sessions, and what holds after every sequence of them.
use connectopus.Prelude.{
  ℕ, ◌+◌, ◌*◌, ◌≡◌, ◌≢◌, refl, sym, ap, ◌∙◌, inl, inr, Bool, true, false, none, some, [], ◌∷◌,
  bytes_eq, nat_eq, ltb, GoMap, get, update_self, update_ne, ==-cases, Bool-cases, arith,
}
use connectopus.Proto.Ip.{Ip}
use connectopus.Proto.Message.{
  packet, init_msg, route_oob_msg, oob_msg, keepalive_msg, keepalive_reply_msg,
}
use connectopus.Router.Float.{Cost}
use connectopus.Netopus.Node.{Time, ConnectionState, init, connecting, connected}
use connectopus.Netopus.Sessions.{
  Link, Links, Input, done, timer, unreadable, message, second, set_link, cancel, is_init,
  begin_init, init_input, init_select, main_select, select_run, proto_turn, new_link, finalize_conn,
  route_conn_failed, watch, run_protocol, forget, end_protocol,
}
use connectopus.Netopus.Sessions.Registry.{
  Registered, set_link-Registered, cancel-Registered, accept_init-Registered,
}

begin_init-live :
    (now : Time) (sent listens : Bool) (l : Link)
    → (begin_init now sent listens l).live ≡ true
    → l.live ≡ true
unfolding begin_init
begin_init-live now sent listens l h = ground arith

begin_init-remote :
    (now : Time) (sent listens : Bool) (l : Link)
    → (begin_init now sent listens l).remote_addr ≡ l.remote_addr
unfolding begin_init
begin_init-remote now sent listens l = ground arith

init_input-Registered :
    (p : ℕ) (i : Input) (w : Links) → Registered w → Registered (init_input p i w).links
unfolding init_input
init_input-Registered p done w r = r
init_input-Registered p timer w r = r
init_input-Registered p unreadable w r = r
init_input-Registered p (message (init_msg a)) w r = elim (Bool-cases (is_init (w.link p).state)) [
  | inl t ↦ rw t (accept_init-Registered p a w r)
  | inr t ↦ rw t r
]
init_input-Registered p (message (packet b)) w r = r
init_input-Registered p (message (route_oob_msg m)) w r = r
init_input-Registered p (message (oob_msg m)) w r = r
init_input-Registered p (message keepalive_msg) w r = r
init_input-Registered p (message keepalive_reply_msg) w r = r

init_select-Registered :
    (now : Time) (sent listens : Bool) (p : ℕ) (i : Input) (w : Links)
    → Registered w
    → Registered (init_select now sent listens p i w).links
unfolding init_select
init_select-Registered now sent listens p i w r =
    init_input-Registered p i (set_link p (begin_init now sent listens (w.link p)) w) (
      set_link-Registered p (begin_init now sent listens (w.link p)) w r
        (begin_init-live now sent listens (w.link p))
        (begin_init-remote now sent listens (w.link p)))

main_select-Registered :
    (now : Time) (p : ℕ) (i : Input) (w : Links)
    → Registered w
    → Registered (main_select now p i w).links
unfolding main_select
main_select-Registered now p done w r = r
main_select-Registered now p timer w r = r
main_select-Registered now p unreadable w r = r
main_select-Registered now p (message (init_msg a)) w r =
    elim (Bool-cases (ltb ((w.link p).last_init + 2 * second) now)) [
      | inl t ↦ rw t (set_link-Registered p (record (w.link p) { state = init }) w r (λ h. h) refl)
      | inr t ↦ rw t r
    ]
main_select-Registered now p (message (packet b)) w r = r
main_select-Registered now p (message (route_oob_msg m)) w r = r
main_select-Registered now p (message (oob_msg m)) w r = r
main_select-Registered now p (message keepalive_msg) w r = r
main_select-Registered now p (message keepalive_reply_msg) w r = r

select_run-Registered :
    (s : ConnectionState) (now : Time) (sent listens : Bool) (p : ℕ) (i : Input) (w : Links)
    → Registered w
    → Registered (select_run s now sent listens p i w).links
unfolding select_run
select_run-Registered connected now sent listens p i w r = main_select-Registered now p i w r
select_run-Registered init now sent listens p i w r =
    init_select-Registered now sent listens p i w r
select_run-Registered connecting now sent listens p i w r =
    init_select-Registered now sent listens p i w r

proto_turn-Registered :
    (now : Time) (sent listens : Bool) (p : ℕ) (i : Input) (w : Links)
    → Registered w
    → Registered (proto_turn now sent listens p i w).links
unfolding proto_turn
proto_turn-Registered now sent listens p i w r =
    let ran = select_run (w.link p).state now sent listens p i w in
    let kept = select_run-Registered (w.link p).state now sent listens p i w r in
    elim (Bool-cases ran.activity) [
      | inl t ↦
          rw (t, proto_turn)
            (set_link-Registered p (record (ran.links.link p) { last_activity = now }) ran.links
              kept (λ h. h) refl)
      | inr t ↦ rw (t, proto_turn) kept
    ]

get-forget :
    (p q : ℕ) (a : Ip) (s : GoMap Ip ℕ) → p ≢ q → get a s ≡ some q → get a (forget p s) ≡ some q
unfolding get forget
get-forget p q a [] other g = cc
get-forget p q a ((k, v) ∷ s) other g = elim (==-cases k a) [
  | inl (t, _) ↦
      let held : some v ≡ some q = rw (t, get) at g in
      let same : v ≡ q = cc in
      elim (==-cases v p) [
        | inl (_, is_p) ↦ absurd (other (sym is_p ∙ same))
        | inr (u, _) ↦ rw (u, t) held
      ]
  | inr (t, _) ↦
      let rest = get-forget p q a s other (rw (t, get) at g) in
      elim (==-cases v p) [ inl (u, _) ↦ rw u rest | inr (u, _) ↦ rw (u, t) rest ]
]

end_protocol-Registered : (p : ℕ) (w : Links) → Registered w → Registered (end_protocol p w)
unfolding end_protocol
end_protocol-Registered p w r q a live remote = elim (==-cases p q) [
  | inl (t, e) ↦
      let dead : ((cancel p w).link q).live ≡ false =
        rw (← e) (ap (λ l. l.live) (update_self w.link p (record (w.link p) { live = false }))) in
      absurd (cc)
  | inr (t, other) ↦ get-forget p q a w.session_info other (cancel-Registered p w r q a live remote)
]

run_protocol-Registered :
    (cost : Cost) (server : Bool) (p : ℕ) (w : Links)
    → Registered w
    → Registered (run_protocol cost server p w)
unfolding run_protocol
run_protocol-Registered cost server p w r q a live remote = elim (==-cases p q) [
  | inl (t, e) ↦
      let fresh : ((run_protocol cost server p w).link q).remote_addr ≡ none =
        rw (← e) (ap (λ l. l.remote_addr) (update_self w.link p (new_link cost server))) in
      absurd (cc)
  | inr (t, other) ↦
      let now = update_ne w.link p q (new_link cost server) other in
      r q a (rw now at live) (rw now at remote)
]

-- What the sessions do, in every order: turns of protoLoop, the ends of the attempts to open the
-- routing connection, ticks of the watch, begins and ends of RunProtocol. A session whose context is
-- done may still take a turn, since select chooses freely.
pub data Step : Links → Links → Type 0 where
  turn :
      {w : Links} (now : Time) (sent listens : Bool) (p : ℕ) (i : Input)
      → Step w (proto_turn now sent listens p i w).links
  opened : {w : Links} (p : ℕ) → Step w (finalize_conn p w)
  failed : {w : Links} (cancels : Bool) (p : ℕ) → Step w (route_conn_failed cancels p w)
  watched : {w : Links} (now : Time) (p : ℕ) → Step w (watch now p w).0
  began : {w : Links} (cost : Cost) (server : Bool) (p : ℕ) → Step w (run_protocol cost server p w)
  ended : {w : Links} (p : ℕ) → Step w (end_protocol p w)

pub data Reach : Links → Type 0 where
  start : {w : Links} → ((p : ℕ) → (w.link p).live ≡ false) → Reach w
  then_ : {w v : Links} → Reach w → Step w v → Reach v

Step-Registered : {w v : Links} → Step w v → Registered w → Registered v
unfolding finalize_conn route_conn_failed watch
Step-Registered (turn {w} now sent listens p i) r = proto_turn-Registered now sent listens p i w r
Step-Registered (opened {w} p) r =
    set_link-Registered p (record (w.link p) { state = connected; has_route_conn = true }) w r
      (λ h. h) refl
Step-Registered (failed {w} true p) r =
    set_link-Registered p (record (w.link p) { state = init; live = false }) w r (λ h. cc) refl
Step-Registered (failed {w} false p) r =
    set_link-Registered p (record (w.link p) { state = init }) w r (λ h. h) refl
Step-Registered (watched {w} now p) r =
    elim (Bool-cases (ltb ((w.link p).last_activity + 7 * second) now)) [
      | inl t ↦ rw t (cancel-Registered p w r)
      | inr t ↦ elim (Bool-cases (ltb ((w.link p).last_activity + 3 * second) now)) [
        | inl u ↦ rw (t, u) r
        | inr u ↦ rw (t, u) r
      ]
    ]
Step-Registered (began {w} cost server p) r = run_protocol-Registered cost server p w r
Step-Registered (ended {w} p) r = end_protocol-Registered p w r

Reach-Registered : {w : Links} → Reach w → Registered w
Reach-Registered (start {w} dead) = λ p a live remote. absurd (let d = dead p in cc)
Reach-Registered (then_ h s) = Step-Registered s (Reach-Registered h)

-- After every sequence of steps that starts without live sessions, a live session that knows the
-- address of its neighbour is the one that sessionInfo holds for it, and so no two live sessions
-- know the same address.
pub live_session_unique :
    (w : Links) (p q : ℕ) (a : Ip)
    → Reach w
    → (w.link p).live ≡ true
    → (w.link p).remote_addr ≡ some a
    → (get a w.session_info ≡ some p)
      × ((w.link q).live ≡ true → (w.link q).remote_addr ≡ some a → q ≡ p)
live_session_unique w p q a h live remote =
    let here = Reach-Registered h p a live remote in
    (here, λ live' remote'. let there = Reach-Registered h q a live' remote' in cc)
