-- ===== src/Shell.antt =====
-- kernel/terminal/kshell.c: the console's line editor and its commands. One round of the endless loop is a step
-- on the command line, the keyboard and the terminal; `halt` waits for an interrupt.
pub mod Strip
pub mod Names
pub mod Edit
pub mod Session
use aosis.Base.{
  ℕ, zero, suc, ◌+◌, ◌-◌, ◌%◌, ◌^◌, Bool, true, false, not, ◌&&◌, ◌||◌, Option, none, some, List,
  [], ◌∷◌, ltb, leb, ◌==◌, if◌then◌else◌, length, get_or, set, replicate, u8, Result, ok, fault,
  ◌>>=◌,
}
use aosis.Libc.Ctype.{isprint, isspace, nonzero}
use aosis.Libc.Mem.{Bytes}
use aosis.Libc.Str.{strcmp}
use aosis.Terminal.Tty.{Tty, outb, tty_putc, tty_clear, tty_deleteprev}
use aosis.Terminal.Tty.Print.{Arg, tty_printstr, tty_write, kprintf}
use aosis.Interrupt.Idt.{codes}
use aosis.Interrupt.Keyboard.{Keyboard, Key, kb_get_key}
use aosis.Interrupt.Keyboard.Layout.{key_backspace, key_enter}

-- The functions that the table `commands` names.
pub data Command : Type 0 where
  cmd_help cmd_clear cmd_exit cmd_demo cmd_amogus cmd_print_tick cmd_reboot : Command

-- struct shell_command
pub record ShellCommand : Type 0 where
  pub name : List ℕ
  pub msg : List ℕ
  pub run : Command

abbrev command : List ℕ → List ℕ → Command → ShellCommand
command name msg run = record { name = name; msg = msg; run = run }

abbrev pub commands : List ShellCommand
commands =
    command (codes "help") (codes "prints this message") cmd_help
    ∷ command (codes "clear") (codes "clears the screen") cmd_clear
    ∷ command (codes "exit") (codes "exit the console") cmd_exit
    ∷ command (codes "demo") (codes "run a demo") cmd_demo
    ∷ command (codes "amogus") (codes "sus") cmd_amogus
    ∷ command (codes "tick") (codes "print timer tick") cmd_print_tick
    ∷ command (codes "reboot") (codes "reboot computer") cmd_reboot
    ∷ []

abbrev amogus : List ℕ
amogus =
    codes
      "   ###            \n  ##--            \n==##---         ==\n==##---      $  ==\n==#####      $  ==\n==#####    #####==\n  ## ##    ## ##  \n  ## ##    ## ##  \n"

-- The variables of `kshell`, with the keyboard and the terminal. `running` is false once `cmd_exit` loops for good.
pub record Shell : Type 0 where
  pub cmd : List ℕ
  pub cmd_len : ℕ
  pub keyboard : Keyboard
  pub tty : Tty
  pub running : Bool

-- sizeof(cmd)
abbrev pub sizeof_cmd : ℕ
sizeof_cmd = 1024

-- The loop of `cmd_help`.
unfoldable pub help_loop : List ShellCommand → Tty → Tty
help_loop [] t = t
help_loop (c ∷ cs) t = help_loop cs (
    tty_putc 10
      (tty_printstr c.msg (tty_printstr (codes "\t") (tty_printstr c.name (tty_putc 9 t)))))

-- The call `run_cmd()`; `tick` is what `pic_get_tick` returns.
unfoldable pub run_command : ℕ → Command → Shell → Result Shell
run_command tick cmd_help s = ok (record s { tty = help_loop commands s.tty })
run_command tick cmd_clear s = ok (record s { tty = tty_clear s.tty })
run_command tick cmd_exit s =
    ok (record s { tty = tty_printstr (codes "    done!\n") s.tty; running = false })
run_command tick cmd_demo s = ok (record s { tty = tty_printstr (codes "demo\n") s.tty })
run_command tick cmd_amogus s = ok (record s { tty = tty_printstr amogus s.tty })
run_command tick cmd_print_tick s =
    kprintf (codes "Tick: %u\n") (Arg.num tick ∷ []) s.tty >>= λ (_, t). ok (record s { tty = t })
run_command tick cmd_reboot s = ok (record s { tty = outb 0x64 0xFE s.tty })

unfoldable pub command_start : Tty → Tty
command_start t = tty_printstr (codes "$> ") t

-- The first loop of `command_run`: the byte before the buffer is read when nothing is left.
unfoldable pub strip_cmd : List ℕ → ℕ → Result (List ℕ × ℕ)
strip_cmd cmd zero = fault
strip_cmd cmd (suc len) =
    let rest = strip_cmd (set cmd len 0) len in
    if nonzero (isspace (get_or cmd len 0)) then ok (cmd, suc len) else rest

-- A memory with the buffer at 0 and a name, which ends with a zero, at 1024.
abbrev pub cmd_memory : List ℕ → List ℕ → Bytes
cmd_memory cmd name a = if ltb a sizeof_cmd then get_or cmd a 0 else get_or name (a - sizeof_cmd) 0

-- The second loop of `command_run`. The names are so short that 16 rounds of `strcmp` are enough.
unfoldable pub find_command : List ShellCommand → List ℕ → Option Command
find_command [] cmd = none
find_command (c ∷ cs) cmd =
    let rest = find_command cs cmd in
    elim (strcmp 16 sizeof_cmd 0 0 (cmd_memory cmd c.name)) [
      | none ↦ rest
      | some difference ↦ if difference == 0 then some c.run else rest
    ]

-- `command_run` from the stripped line on.
unfoldable pub dispatch_command : ℕ → List ℕ → ℕ → Shell → Result Shell
dispatch_command tick cmd len s = elim (find_command commands cmd) [
  | some run_cmd ↦ run_command tick run_cmd (record s { cmd = cmd })
  | none ↦ ok (record s {
    cmd = cmd;
    tty =
        tty_printstr (codes "'\n")
          (tty_write cmd len (tty_printstr (codes "Unknown command '") s.tty));
  })
]

unfoldable pub command_run : ℕ → Shell → Result Shell
command_run tick s = strip_cmd s.cmd s.cmd_len >>= λ (cmd, len). dispatch_command tick cmd len s

-- The key ENTER.
unfoldable pub enter : ℕ → Shell → Result Shell
enter tick s = command_run tick (record s { tty = tty_putc 10 s.tty }) >>= λ s'.
    if s'.running
    then ok (record s' { cmd = replicate sizeof_cmd 0; cmd_len = 0; tty = command_start s'.tty })
    else ok s'

-- The body of the loop for one key. A store outside `cmd` faults.
unfoldable pub kshell_key : ℕ → ℕ → Shell → Result Shell
kshell_key tick key s =
    let erased = record s {
      cmd = set s.cmd (s.cmd_len - 1) 0;
      cmd_len = s.cmd_len - 1;
      tty = tty_deleteprev s.tty;
    } in
    let stored = record s {
      cmd = set s.cmd s.cmd_len (u8 key);
      cmd_len = s.cmd_len + 1;
      tty = tty_putc (u8 key) s.tty;
    } in
    if key == key_backspace && ltb 0 s.cmd_len
    then (kb_get_key false s.keyboard >>= λ (_, _, k).
        if ltb (s.cmd_len - 1) (length s.cmd) then ok (record erased { keyboard = k }) else fault)
    else if key == key_enter
    then enter tick s
    else if not (nonzero (isprint key)) || not (nonzero (isspace key))
    then (if leb sizeof_cmd s.cmd_len
        then ok s
        else if ltb s.cmd_len (length s.cmd)
        then ok stored
        else fault)
    else ok s

-- One round of the loop of `kshell`.
unfoldable pub kshell_round : ℕ → Shell → Result Shell
kshell_round tick s = kb_get_key true s.keyboard >>= λ (found, key, k). elim key [
  | none ↦ ok (record s { keyboard = k })
  | some e ↦ if s.running then kshell_key tick e.key (record s { keyboard = k }) else ok s
]

-- `kshell` up to its loop.
unfoldable pub kshell_start : Keyboard → Tty → Result Shell
kshell_start k t =
    kprintf (codes "\nWelcome to AOSIS: Run 'help' to get started!\n") [] t >>= λ (_, t').
    ok (record {
      cmd = replicate sizeof_cmd 0;
      cmd_len = 0;
      keyboard = k;
      tty = command_start t';
      running = true;
    })

-- The loop of `kshell` for one interrupt after another, each with the tick at its round.
unfoldable pub kshell_rounds : List ℕ → Shell → Result Shell
kshell_rounds [] s = ok s
kshell_rounds (tick ∷ ticks) s = kshell_round tick s >>= kshell_rounds ticks
