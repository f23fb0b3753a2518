-- ===== src/Netopus/Sessions/Registry.antt =====
-- Which session sessionInfo holds for an address, over everything that the sessions can do.
use connectopus.Prelude.{
  ℕ, ◌≡◌, ◌≢◌, refl, sym, ap, ◌∙◌, inl, inr, true, false, Option, none, some, bytes_eq, nat_eq, get,
  get-put_self, get-put_ne, update, update_self, update_ne, ==-cases, Option-cases,
}
use connectopus.Proto.Ip.{Ip}
use connectopus.Netopus.Node.{connecting}
use connectopus.Netopus.Sessions.{Link, Links, set_link, cancel, close_old, accept_init}

-- A live session that knows its neighbour's address stands in sessionInfo under that address.
abbrev pub Registered : Links → Type 0
Registered w =
    (p : ℕ) (a : Ip)
    → (w.link p).live ≡ true
    → (w.link p).remote_addr ≡ some a
    → get a w.session_info ≡ some p

pub set_link-Registered :
    (p : ℕ) (l : Link) (w : Links)
    → Registered w
    → (l.live ≡ true → (w.link p).live ≡ true)
    → l.remote_addr ≡ (w.link p).remote_addr
    → Registered (set_link p l w)
set_link-Registered p l w r alive same q a live remote = elim (==-cases p q) [
  | inl (t, e) ↦
      let now : update w.link p l q ≡ l = rw (← e) (update_self w.link p l) in
      rw (← e) (r p a (alive (rw now at live)) (sym same ∙ (rw now at remote)))
  | inr (t, other) ↦
      let now = update_ne w.link p q l other in r q a (rw now at live) (rw now at remote)
]

pub cancel-Registered : (p : ℕ) (w : Links) → Registered w → Registered (cancel p w)
cancel-Registered p w r =
    set_link-Registered p (record (w.link p) { live = false }) w r (λ f. cc) refl

-- After the old session to the address is cancelled, no other live session claims it.
close_old-alone :
    (p q : ℕ) (a : Ip) (w : Links)
    → Registered w
    → p ≢ q
    → ((close_old p (get a w.session_info) w).link q).live ≡ true
    → ((close_old p (get a w.session_info) w).link q).remote_addr ≢ some a
unfolding close_old
close_old-alone p q a w r other live remote = elim (Option-cases (get a w.session_info)) [
  | inl free ↦
      let here = r q a (rw (free, close_old) at live) (rw (free, close_old) at remote) in cc
  | inr (old, held) ↦ elim (==-cases old p) [
    | inl (t, e) ↦
        let here = r q a (rw (held, t, close_old) at live) (rw (held, t, close_old) at remote) in
        let same : old ≡ q = cc in other (sym e ∙ same)
    | inr (t, _) ↦
        let here =
          cancel-Registered old w r q a (rw (held, t, close_old) at live)
            (rw (held, t, close_old) at remote) in
        let same : old ≡ q = cc in
        let dead : (update w.link old (record (w.link old) { live = false }) q).live ≡ false =
          rw (← same)
            (ap (λ l. l.live) (update_self w.link old (record (w.link old) { live = false }))) in
        let alive = rw (held, t, close_old) at live in cc
  ]
]

close_old-Registered :
    (p : ℕ) (o : Option ℕ) (w : Links) → Registered w → Registered (close_old p o w)
unfolding close_old
close_old-Registered p none w r = r
close_old-Registered p (some old) w r = elim (==-cases old p) [
  | inl (t, _) ↦ rw t r
  | inr (t, _) ↦ rw t (cancel-Registered old w r)
]

close_old-info :
    (p : ℕ) (o : Option ℕ) (w : Links) → (close_old p o w).session_info ≡ w.session_info
unfolding close_old
close_old-info p none w = refl
close_old-info p (some old) w = elim (==-cases old p) [
  | inl (t, _) ↦ rw t refl
  | inr (t, _) ↦ rw t refl
]

pub accept_init-Registered :
    (p : ℕ) (a : Ip) (w : Links) → Registered w → Registered (accept_init p a w)
unfolding accept_init
accept_init-Registered p a w r q b live remote =
    let closed = close_old p (get a w.session_info) w in
    let l : Link = record (w.link p) { state = connecting; remote_addr = some a } in
    elim (==-cases p q) [
      | inl (t, e) ↦
          let now : update closed.link p l q ≡ l = rw (← e) (update_self closed.link p l) in
          let is_a : some a ≡ some b = rw now at remote in
          let same : a ≡ b = cc in rw (← same, ← e) (get-put_self a p closed.session_info)
      | inr (t, other) ↦
          let now = update_ne closed.link p q l other in
          let live' : (closed.link q).live ≡ true = rw now at live in
          let remote' : (closed.link q).remote_addr ≡ some b = rw now at remote in
          elim (==-cases a b) [
            | inl (_, same) ↦
                absurd (close_old-alone p q a w r other live' (remote' ∙ ap some (sym same)))
            | inr (_, ne) ↦
                get-put_ne a b p closed.session_info ne
                ∙ close_old-Registered p (get a w.session_info) w r q b live' remote'
          ]
    ]
