-- ===== src/Tests/Socket.antt =====
-- The theorems about the connection, after it was lost once.
use remoteterm_meshcore.Prelude.{ℕ, ◌≡◌, ◌⊎◌, [], ◌∷◌, some, keep, refl, true, contains, nat_eq}
use remoteterm_meshcore.Socket.{
  Connection, unmounted_connection, connect, mount, on_open, on_close, on_timeout, unmount, ◌⟶◌,
  opens, closes, ◌⟶*◌, stay, next,
}
use remoteterm_meshcore.Socket.Laws.{IsConnection, run-IsConnection, run_reconnects}

abbrev lost : Connection
lost = on_close 0 (on_open (mount unmounted_connection))

lost_steps : mount unmounted_connection ⟶* lost
unfolding mount connect on_open contains
lost_steps = next (next stay (opens 0 refl)) (closes 0 refl)

lost-mounted : lost.should_reconnect ≡ true
unfolding mount connect on_open on_close
lost-mounted = refl

run-IsConnection_example : IsConnection lost
run-IsConnection_example = run-IsConnection lost lost_steps

lost_live : lost.live ≡ []
unfolding mount connect on_open on_close keep
lost_live = refl

run_reconnects_example :
    (timer : ℕ) × (lost ⟶ on_timeout timer lost)
    × ((on_timeout timer lost).live ≡ lost.next_socket ∷ [])
    × ((on_timeout timer lost).ws ≡ some lost.next_socket)
    × ((d : Connection) → lost ⟶ d → (d ≡ on_timeout timer lost) ⊎ (d ≡ unmount lost))
run_reconnects_example = run_reconnects lost lost_steps lost-mounted lost_live
