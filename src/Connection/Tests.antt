-- ===== src/Connection/Tests.antt =====
-- A connection that closes once.
use aapda_sync.Base.{◌+◌, ◌*◌, false, some, min, ◌≡◌, arith}
use aapda_sync.Connection.{Live, live_connect, on_open, on_close, ceiling}
use aapda_sync.Connection.Backoff.{ceiling-suc}
use aapda_sync.Connection.Steps.{Step, Reach, start, Shown, Soon, Reach-shown, failed_in_a_row}

abbrev connected : Live
connected = live_connect 1000 (some "wss://example/ws") false 1 2 start

abbrev closed : Live
closed = on_close 1 2 (on_open connected).0

run : Reach start closed
run =
    Reach.next
      (Reach.next
        (Reach.next Reach.here
          (Step.connects 1000 (some "wss://example/ws") false 1 2 (omega arith)))
        Step.opens)
      (Step.closes 1 2 (omega arith))

Reach-shown_example : Shown closed.state (failed_in_a_row run) × Soon closed.timer
Reach-shown_example = Reach-shown closed run

ceiling-suc_example : (ceiling 4 ≡ min (2 * ceiling 3) 30000) × (ceiling (3 + 6) ≡ 30000)
ceiling-suc_example = ceiling-suc 3
