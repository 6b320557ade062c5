-- ===== src/Monitor/Counters.antt =====
-- The counters of src/lib/monitor.c over the life of the server.
use smtp_protos.Prelude.{ℕ, suc, ◌+◌, ◌%◌, ◌^◌, ◌≡◌, List, [], ◌∷◌, arith}
use smtp_protos.Monitor.{
  Collected, monitor_add_connection, monitor_close_connection, monitor_add_sent_bytes,
}

-- What the server tells the monitor.
pub data Event : Type 0 where
  opened closed : Event
  sent : ℕ → Event

unfoldable pub notify : Event → Collected → Collected
notify opened c = monitor_add_connection c
notify closed c = monitor_close_connection c
notify (sent n) c = monitor_add_sent_bytes n c

unfoldable pub notify_all : List Event → Collected → Collected
notify_all [] c = c
notify_all (v ∷ vs) c = notify_all vs (notify v c)

abbrev pub opens : List Event → ℕ
opens [] = 0
opens (opened ∷ vs) = suc (opens vs)
opens (_ ∷ vs) = opens vs

abbrev pub closes : List Event → ℕ
closes [] = 0
closes (closed ∷ vs) = suc (closes vs)
closes (_ ∷ vs) = closes vs

abbrev pub bytes : List Event → ℕ
bytes [] = 0
bytes (sent n ∷ vs) = n + bytes vs
bytes (_ ∷ vs) = bytes vs

-- Each counter is the number of its events modulo its width; the connections that are open are
-- those opened less those closed.
pub notify_all_lem :
    (vs : List Event) (c : Collected)
    → ((notify_all vs c).total_connections % 2 ^ 32 ≡ (c.total_connections + opens vs) % 2 ^ 32)
      × (((notify_all vs c).curr_connections + closes vs) % 2 ^ 32
          ≡ (c.curr_connections + opens vs) % 2 ^ 32)
      × ((notify_all vs c).sent_bytes % 2 ^ 64 ≡ (c.sent_bytes + bytes vs) % 2 ^ 64)
unfolding notify_all notify monitor_add_connection monitor_close_connection monitor_add_sent_bytes
notify_all_lem [] c = omega arith
notify_all_lem (opened ∷ vs) c = omega (arith, notify_all_lem vs (monitor_add_connection c))
notify_all_lem (closed ∷ vs) c = omega (arith, notify_all_lem vs (monitor_close_connection c))
notify_all_lem (sent n ∷ vs) c = omega (arith, notify_all_lem vs (monitor_add_sent_bytes n c))
