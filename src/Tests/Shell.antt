-- ===== src/Tests/Shell.antt =====
-- The console of kernel/terminal/kshell.c with events in its keyboard ring.
use aosis.Base.{
  ℕ, zero, suc, ◌+◌, ◌≡◌, refl, true, none, some, List, [], ◌∷◌, ◌++◌, arith, length, get_or,
  replicate, length-append, length-replicate, get_or-replicate, ok,
}
use aosis.Libc.Ctype.{isspace}
use aosis.Terminal.Tty.{Tty, tty_putc}
use aosis.Interrupt.Idt.{codes}
use aosis.Interrupt.Keyboard.{Key, Keyboard, no_key}
use aosis.Interrupt.Keyboard.Queue.{IsLinear, contents, event, window}
use aosis.Shell.{Shell, cmd_demo, command_run, command_start, kshell_round, kshell_rounds}
use aosis.Shell.Strip.{Holds}
use aosis.Shell.Names.{reply, command_run-named}
use aosis.Shell.Edit.{Edits, kshell_round-Edits}
use aosis.Shell.Session.{kshell_rounds-typed, kshell_round-enter}

-- A buffer with a line, and `rest` zeros.
padded : (line : List ℕ) (rest i : ℕ) → get_or (line ++ replicate rest 0) i 0 ≡ get_or line i 0
padded [] rest i = get_or-replicate rest i 0
padded (c ∷ line) rest zero = refl
padded (c ∷ line) rest (suc i) = padded line rest i

padded-Holds :
    (line : List ℕ) (rest : ℕ) → length line + rest ≡ 1024 → Holds line (line ++ replicate rest 0)
padded-Holds line rest e = record {
  size = omega (arith, length-append line (replicate rest 0), length-replicate {A = ℕ} rest 0);
  fits = omega arith;
  bytes = padded line rest;
}

abbrev key : ℕ → Key
key c = event c no_key.state

abbrev screen : Tty
screen = record { tty_xpos = 0; tty_ypos = 0; tty_color = 15; tty_buffer = []; ports = [] }

-- A ring that holds these events from its start on.
abbrev ring : List Key → ℕ → Keyboard
ring events rest = record {
  buff = events ++ replicate rest no_key;
  len = length events;
  head = 0;
  tail = length events;
}

ring-IsLinear :
    (events : List Key) (rest : ℕ) → length events + rest ≡ 4096 → IsLinear (ring events rest)
ring-IsLinear events rest e = record {
  size = omega (arith, length-append events (replicate rest no_key), length-replicate rest no_key);
  span = omega arith;
  room = omega arith;
}

abbrev shell : List ℕ → ℕ → List Key → ℕ → Shell
shell line zeros events places = record {
  cmd = line ++ replicate zeros 0;
  cmd_len = length line;
  keyboard = ring events places;
  tty = screen;
  running = true;
}

shell-Edits :
    (line : List ℕ) (zeros : ℕ) (events : List Key) (places : ℕ)
    → length line + zeros ≡ 1024
    → length events + places ≡ 4096
    → contents (ring events places) ≡ events
    → Edits line events (shell line zeros events places)
shell-Edits line zeros events places e g q = record {
  holds = padded-Holds line zeros e;
  count = refl;
  linear = ring-IsLinear events places g;
  queue = q;
  runs = refl;
}

-- A backspace, the event of its release, and a letter.
abbrev erasing : List Key
erasing = key 8 ∷ key 0 ∷ key b'a' ∷ []

erasing-queue : contents (ring erasing 4093) ≡ erasing
unfolding window
erasing-queue = refl

kshell_round-Edits_example :
    (s' : Shell) × (kshell_round 7 (shell (codes "he") 1022 erasing 4093) ≡ ok s')
    × Edits (codes "h") (key b'a' ∷ []) s'
kshell_round-Edits_example =
    kshell_round-Edits 7 (codes "he") erasing (shell (codes "he") 1022 erasing 4093)
      (shell-Edits (codes "he") 1022 erasing 4093 refl refl erasing-queue) refl

abbrev typing : List Key
typing = key b'm' ∷ key b'o' ∷ key 10 ∷ []

typing-queue : contents (ring typing 4093) ≡ typing
unfolding window
typing-queue = refl

kshell_rounds-typed_example :
    (s' : Shell) × (kshell_rounds (7 ∷ 8 ∷ []) (shell (codes "de") 1022 typing 4093) ≡ ok s')
    × Edits (codes "demo") (key 10 ∷ []) s'
kshell_rounds-typed_example =
    kshell_rounds-typed (7 ∷ 8 ∷ []) (codes "de") (key b'm' ∷ key b'o' ∷ []) (key 10 ∷ [])
      (shell (codes "de") 1022 typing 4093)
      (shell-Edits (codes "de") 1022 typing 4093 refl refl typing-queue) refl refl (omega arith)

abbrev entering : List Key
entering = key 10 ∷ key b'x' ∷ []

entering-queue : contents (ring entering 4094) ≡ entering
unfolding window
entering-queue = refl

kshell_round-enter_example :
    (s1 s2 s' : Shell) × Holds (codes "demo") s1.cmd
    × (s1.tty ≡ tty_putc 10 screen)
    × (reply 7 4 (some cmd_demo) s1 ≡ ok s2)
    × (kshell_round 7 (shell (codes "demo ") 1019 entering 4094) ≡ ok s')
    × (s'.tty ≡ command_start s2.tty)
    × Edits [] (key b'x' ∷ []) s'
unfolding isspace
kshell_round-enter_example =
    kshell_round-enter 7 (codes "demo") (codes " ") (key 10) (key b'x' ∷ [])
      (shell (codes "demo ") 1019 entering 4094)
      (shell-Edits (codes "demo ") 1019 entering 4094 refl refl entering-queue) refl refl refl
      (refl, tt) refl

command_run-named_example :
    (cmd' : List ℕ) × Holds (codes "ls -l") cmd'
    × (command_run 7 (shell (codes "ls -l  ") 1017 [] 4096)
        ≡ reply 7 5 none (record (shell (codes "ls -l  ") 1017 [] 4096) { cmd = cmd' }))
unfolding isspace
command_run-named_example =
    command_run-named 7 (codes "ls -l") (codes "  ") (shell (codes "ls -l  ") 1017 [] 4096) refl
      refl (refl, (refl, tt)) (padded-Holds (codes "ls -l  ") 1017 refl) refl
