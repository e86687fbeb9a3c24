-- ===== src/Tests/Keyboard.antt =====
-- The keyboard ring of kernel/interrupt/keyboard.c, and its decoder.
use aosis.Base.{
  ℕ, ◌≤◌, ◌≡◌, refl, true, false, none, some, List, [], ◌∷◌, ◌++◌, arith, length, set, replicate,
  length-replicate, ok, fault,
}
use aosis.Terminal.Tty.{Tty}
use aosis.Libc.Ctype.{isalpha}
use aosis.Interrupt.Keyboard.Layout.{shift}
use aosis.Interrupt.Keyboard.{KbState, Key, Keyboard, Driver, no_key, add_key}
use aosis.Interrupt.Keyboard.Queue.{
  IsLinear, contents, event, Op, press, read, run, run_queue, presses, run-overflows, run_refines,
}
use aosis.Interrupt.Keyboard.Decode.{is_letter}

unfoldable empty_buff : List Key
empty_buff = replicate 4096 no_key

length-empty_buff : length empty_buff ≡ 4096
unfolding empty_buff
length-empty_buff = length-replicate 4096 no_key

-- The ring after `n` events, all of which have been read.
abbrev drained : ℕ → Keyboard
drained n = record { buff = empty_buff; len = 0; head = n; tail = n }

drained-IsLinear : (n : ℕ) → n ≤ 4096 → IsLinear (drained n)
drained-IsLinear n h = record { size = length-empty_buff; span = omega arith; room = h }

abbrev plain : KbState
plain = no_key.state

abbrev script : List Op
script = press b'h' plain ∷ press b'i' plain ∷ read ∷ read ∷ read ∷ []

run_refines_example : run (drained 4000) script ≡ ok (run_queue (contents (drained 4000)) script)
run_refines_example =
    run_refines script (drained 4000) (drained-IsLinear 4000 (omega arith))
      (unfold presses in omega arith)

replies :
    run_queue [] script
    ≡ (true, some (event b'h' plain)) ∷ (true, some (event b'i' plain)) ∷ (false, none) ∷ []
unfolding run_queue
replies = refl

run-overflows_example : run (drained 4094) (script ++ (press b'x' plain ∷ [])) ≡ fault
run-overflows_example =
    run-overflows script b'x' plain (drained 4094) (drained-IsLinear 4094 (omega arith))
      (unfold presses in refl)

q_is_letter : is_letter 0x10 ≡ true
unfolding isalpha shift
q_is_letter = refl

unfoldable screen : Tty
screen = record { tty_xpos = 0; tty_ypos = 0; tty_color = 15; tty_buffer = []; ports = [] }

abbrev driver : Driver
driver = record { keyboard = drained 0; kb_state = plain; tty = screen }

abbrev stored : Keyboard
stored = record {
  buff = set empty_buff 0 (event (shift 0x10) (record plain { shift = true }));
  len = 1;
  head = 0;
  tail = 1;
}

stores : add_key (shift 0x10) (record plain { shift = true }) (drained 0) ≡ ok stored
unfolding add_key
stores = ground (arith, length-empty_buff)
