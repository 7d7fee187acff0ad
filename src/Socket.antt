-- ===== src/Socket.antt =====
-- The connection of frontend/src/useWebSocket.ts: the sockets, the reconnect timer and the handlers
-- of their events, as a state machine. What a message of the socket carries is handed to the other
-- parts of the client; pings and logging are left out.
pub mod Laws
use remoteterm_meshcore.Prelude.{
  ℕ, suc, ◌+◌, ◌≡◌, Bool, true, false, not, Option, none, some, List, [], ◌∷◌, keep, nat_eq,
  if◌then◌else◌, ◌==◌, contains,
}

-- Sockets and timers are numbered in the order they are made. `live` are the sockets that have not
-- closed, `timers` the timeouts that are set and have neither fired nor been cleared;
-- `reconnect_timeout` is the ref, which keeps the number of a timer that has fired.
pub record Connection : Type 0 where
  pub ws : Option ℕ
  pub live : List ℕ
  pub reconnect_timeout : Option ℕ
  pub timers : List ℕ
  pub should_reconnect : Bool
  pub has_connected : Bool
  pub reconnects : ℕ
  pub next_socket : ℕ
  pub next_timer : ℕ

abbrev pub unmounted_connection : Connection
unmounted_connection = record {
  ws = none;
  live = [];
  reconnect_timeout = none;
  timers = [];
  should_reconnect = true;
  has_connected = false;
  reconnects = 0;
  next_socket = 0;
  next_timer = 0;
}

abbrev pub without : ℕ → List ℕ → List ℕ
without n ns = keep (λ m. not (m == n)) ns

-- `if (reconnectTimeoutRef.current) clearTimeout(reconnectTimeoutRef.current)`
abbrev pub clear_timeout : Option ℕ → List ℕ → List ℕ
clear_timeout none timers = timers
clear_timeout (some timer) timers = without timer timers

unfoldable pub connect : Connection → Connection
connect c = record c {
  ws = some c.next_socket;
  live = c.next_socket ∷ c.live;
  next_socket = suc c.next_socket;
}

-- `ws.onopen`; `reconnects` counts the calls of `onReconnect`.
unfoldable pub on_open : Connection → Connection
on_open c = record c {
  reconnect_timeout = none;
  timers = clear_timeout c.reconnect_timeout c.timers;
  reconnects = if c.has_connected then suc c.reconnects else c.reconnects;
  has_connected = true;
}

-- `ws.onclose` of a socket
unfoldable pub on_close : ℕ → Connection → Connection
on_close socket c =
    let closed : Connection = record c { ws = none; live = without socket c.live } in
    if not c.should_reconnect then closed else record closed {
      reconnect_timeout = some c.next_timer;
      timers = c.next_timer ∷ clear_timeout c.reconnect_timeout c.timers;
      next_timer = suc c.next_timer;
    }

-- The reconnect timer fires.
unfoldable pub on_timeout : ℕ → Connection → Connection
unfolding connect
on_timeout timer c = connect (record c { timers = without timer c.timers })

-- The effect, and its cleanup. Closing the socket is an event that comes later.
unfoldable pub mount : Connection → Connection
unfolding connect
mount c = connect (record c { should_reconnect = true })

unfoldable pub unmount : Connection → Connection
unmount c = record c {
  should_reconnect = false;
  timers = clear_timeout c.reconnect_timeout c.timers;
  reconnect_timeout = none;
}

-- What the browser may do next: open or close a live socket, fire a timer that is set, unmount the
-- component or mount it again. A socket may open more than once here, which only adds runs.
infix 4 ◌⟶◌
pub data ◌⟶◌ : Connection → Connection → Type 0 where
  opens : {c : Connection} (socket : ℕ) → contains c.live socket ≡ true → c ⟶ on_open c
  closes : {c : Connection} (socket : ℕ) → contains c.live socket ≡ true → c ⟶ on_close socket c
  fires : {c : Connection} (timer : ℕ) → contains c.timers timer ≡ true → c ⟶ on_timeout timer c
  unmounts : {c : Connection} → c.should_reconnect ≡ true → c ⟶ unmount c
  mounts : {c : Connection} → c.should_reconnect ≡ false → c ⟶ mount c

-- The steps after the first mount.
infix 4 ◌⟶*◌
pub data ◌⟶*◌ : Connection → Connection → Type 0 where
  stay : {c : Connection} → c ⟶* c
  next : {c d e : Connection} → c ⟶* d → d ⟶ e → c ⟶* e
