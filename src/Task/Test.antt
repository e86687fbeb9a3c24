-- ===== src/Task/Test.antt =====
-- The test task of kernel/task/task.c: the body of its endless loop, and what the loop prints
-- for one tick after another.
use aosis.Base.{ℕ, ◌+◌, ◌^◌, ◌<◌, ◌≡◌, arith, [], ◌∷◌, leb, if◌then◌else◌, u32, Result, ok, ◌>>=◌}
use aosis.Terminal.Tty.{Tty}
use aosis.Terminal.Tty.Print.{num, kprintf}
use aosis.Interrupt.Idt.{codes}

-- One round, at the tick that `pic_get_tick` returns: the new `previous_tick`, and the
-- terminal.
unfoldable task_test_round : ℕ → ℕ → Tty → Result (ℕ × Tty)
task_test_round tick previous_tick t =
    if leb (u32 (previous_tick + 2)) tick
    then (kprintf (codes "Task_test: %d (SWITCHING TASK)\n") (num tick ∷ []) t >>= λ (_, t').
        ok (tick, t'))
    else ok (previous_tick, t)

-- A round less than two ticks after the last message prints nothing.
task_test_round-waits :
    (tick previous_tick : ℕ) (t : Tty)
    → previous_tick + 2 < 2 ^ 32
    → tick < previous_tick + 2
    → task_test_round tick previous_tick t ≡ ok (previous_tick, t)
unfolding task_test_round
task_test_round-waits tick previous_tick t top early = ground arith
