-- ===== src/Socket/Laws.antt =====
-- What every state that the connection of frontend/src/useWebSocket.ts reaches has.
use remoteterm_meshcore.Prelude.{
  ℕ, ◌≡◌, ◌⊎◌, ap, eq_iff, refl, inl, inr, Bool, true, false, not, ◌&&◌, ◌||◌, Option, none, some,
  List, [], ◌∷◌, arith, keep, nat_eq, list_eq, option_eq, ◌==◌, eq_refl, contains, Bool-cases,
}
use mathlib.Core.Path.{subst}
use remoteterm_meshcore.Socket.{
  Connection, unmounted_connection, without, clear_timeout, connect, on_open, on_close, on_timeout,
  mount, unmount, ◌⟶◌, opens, closes, fires, unmounts, mounts, ◌⟶*◌, stay, next,
}

abbrev pub nonempty : List ℕ → Bool
nonempty [] = false
nonempty (n ∷ ns) = true

-- No timer is set, or the one that the ref names.
abbrev pub follows : Option ℕ → List ℕ → Bool
follows timeout [] = true
follows timeout (timer ∷ timers) = not (nonempty timers) && timeout == some timer

-- While it is mounted, there is a socket that has not closed or a timer that will make one.
abbrev pub is_trying : Connection → Bool
is_trying c = not c.should_reconnect || nonempty c.live || nonempty c.timers

without_self : (n : ℕ) → without n (n ∷ []) ≡ []
unfolding keep
without_self n = rw (eq_refl n) refl

cleared :
    (timeout : Option ℕ) (timers : List ℕ)
    → follows timeout timers ≡ true
    → clear_timeout timeout timers ≡ []
unfolding keep
cleared none [] h = refl
cleared (some t) [] h = refl
cleared none (timer ∷ timers) h = ground arith
cleared (some t) (timer ∷ []) h = ground (arith, eq_refl timer)
cleared (some t) (timer ∷ u ∷ timers) h = cc

fired :
    (timeout : Option ℕ) (timers : List ℕ) (timer : ℕ)
    → follows timeout timers ≡ true
    → contains timers timer ≡ true
    → without timer timers ≡ []
unfolding keep contains
fired timeout [] timer h k = refl
fired timeout (t ∷ []) timer h k = ground arith
fired timeout (t ∷ u ∷ timers) timer h k = cc

contains-nonempty : (ns : List ℕ) (n : ℕ) → contains ns n ≡ true → nonempty ns ≡ true
unfolding contains
contains-nonempty [] n h = h
contains-nonempty (m ∷ ns) n h = refl

-- The two facts about a state that every step keeps.
pub record IsConnection (c : Connection) : Type 0 where
  pub follows_ref : follows c.reconnect_timeout c.timers ≡ true
  pub trying : is_trying c ≡ true

step-IsConnection : {c d : Connection} → c ⟶ d → IsConnection c → IsConnection d
unfolding on_open on_close on_timeout mount unmount connect
step-IsConnection {c} (opens socket live) h = record {
  follows_ref = rw (cleared c.reconnect_timeout c.timers h.follows_ref) refl;
  trying = ground (arith, contains-nonempty c.live socket live);
}
step-IsConnection {c} (closes socket live) h = elim (Bool-cases c.should_reconnect) [
  | inl mounted ↦
      rw (mounted, on_close)
        (record {
          follows_ref =
              rw (cleared c.reconnect_timeout c.timers h.follows_ref) (eq_refl c.next_timer);
          trying = ground arith;
        })
  | inr gone ↦ rw (gone, on_close) (record { follows_ref = h.follows_ref; trying = refl })
]
step-IsConnection {c} (fires timer set_) h = record {
  follows_ref = rw (fired c.reconnect_timeout c.timers timer h.follows_ref set_) refl;
  trying = ground arith;
}
step-IsConnection {c} (unmounts mounted) h = record {
  follows_ref = rw (cleared c.reconnect_timeout c.timers h.follows_ref) refl;
  trying = refl;
}
step-IsConnection {c} (mounts gone) h = record { follows_ref = h.follows_ref; trying = refl }

-- In every state that is reached from the first mount by any steps, at most one reconnect timer is
-- set, it is the one that the ref names, and while the component is mounted there is a socket that
-- has not closed or a timer that will open one.
pub run-IsConnection : (c : Connection) → mount unmounted_connection ⟶* c → IsConnection c
unfolding mount connect
run-IsConnection c stay = record { follows_ref = refl; trying = refl }
run-IsConnection c (next {d} steps last) = step-IsConnection last (run-IsConnection d steps)

-- The one timer that is set, when the connection is lost.
waiting_timer :
    (c : Connection)
    → IsConnection c
    → c.should_reconnect ≡ true
    → c.live ≡ []
    → (timer : ℕ) × (c.timers ≡ timer ∷ [])
waiting_timer c h mounted lost = go c.timers refl
  where
    go : (timers : List ℕ) → c.timers ≡ timers → (timer : ℕ) × (c.timers ≡ timer ∷ [])
    go [] e = let trying : is_trying c ≡ true = h.trying in absurd (ground arith)
    go (timer ∷ []) e = (timer, e)
    go (timer ∷ other ∷ timers) e =
        let one : follows c.reconnect_timeout (timer ∷ other ∷ timers) ≡ true =
          subst (λ ts. follows c.reconnect_timeout ts ≡ true) e h.follows_ref in
        absurd (cc one)

-- What may happen next while the connection is lost.
next_when_lost :
    {c d : Connection} (timer : ℕ)
    → c ⟶ d
    → c.should_reconnect ≡ true
    → c.live ≡ []
    → c.timers ≡ timer ∷ []
    → (d ≡ on_timeout timer c) ⊎ (d ≡ unmount c)
unfolding contains
next_when_lost {c} timer (opens socket live) mounted lost one = absurd (ground arith)
next_when_lost {c} timer (closes socket live) mounted lost one = absurd (ground arith)
next_when_lost {c} timer (fires other set_) mounted lost one =
    let same : other ≡ timer = ground (arith, eq_iff timer other) in
    inl (ap (λ t. on_timeout t c) same)
next_when_lost {c} timer (unmounts was) mounted lost one = inr refl
next_when_lost {c} timer (mounts gone) mounted lost one = absurd (cc)

-- In every state that is reached from the first mount, in which the component is mounted and no
-- socket is left that has not closed, a timer is set that may fire and whose firing makes a socket
-- anew. Nothing can happen before it fires but that the component is unmounted.
pub run_reconnects :
    (c : Connection)
    → mount unmounted_connection ⟶* c
    → c.should_reconnect ≡ true
    → c.live ≡ []
    → (timer : ℕ) × (c ⟶ on_timeout timer c)
      × ((on_timeout timer c).live ≡ c.next_socket ∷ [])
      × ((on_timeout timer c).ws ≡ some c.next_socket)
      × ((d : Connection) → c ⟶ d → (d ≡ on_timeout timer c) ⊎ (d ≡ unmount c))
unfolding on_timeout connect contains
run_reconnects c steps mounted lost =
    let (timer, one) = waiting_timer c (run-IsConnection c steps) mounted lost in
    (
      timer,
      fires timer (rw one (ground (arith, eq_refl timer))),
      rw lost refl,
      refl,
      λ d step. next_when_lost timer step mounted lost one,
    )
