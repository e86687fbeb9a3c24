-- ===== src/Shell/Session.antt =====
-- Whole lines on the console of kernel/terminal/kshell.c: characters are typed, then ENTER runs the line.
use aosis.Base.{
  ℕ, ◌+◌, ◌≤◌, ◌<◌, ◌≡◌, ◌≢◌, ◌∙◌, refl, ap, arith, Bool, true, false, not, ◌&&◌, Option, none,
  some, List, [], ◌∷◌, ◌++◌, map, append_assoc, append-nil, ◌==◌, length, replicate, length-append,
  length-replicate, get_or-replicate, ok,
}
use aosis.Interrupt.Idt.{codes}
use aosis.Interrupt.Keyboard.{Key}
use aosis.Interrupt.Keyboard.Queue.{rest, kb_get_key-front}
use aosis.Terminal.Tty.{Tty, tty_putc}
use aosis.Terminal.Tty.Print.{Arg, kprintf, format_loop, format_char, directive, next_num}
use aosis.Shell.{
  Shell, Command, cmd_help, cmd_clear, cmd_exit, cmd_demo, cmd_amogus, cmd_print_tick, cmd_reboot,
  commands, run_command, command_run, command_start, enter, kshell_key, kshell_round, kshell_rounds,
}
use aosis.Shell.Strip.{Holds, AllBlank, Ends}
use aosis.Shell.Names.{is_text, find_named, reply, command_run-named}
use aosis.Shell.Edit.{Edits, shows, edit, kshell_round-Edits, kshell_round-key}

-- Events that a line takes as they are: characters that show, and not ENTER.
abbrev pub all_typed : List Key → Bool
all_typed [] = true
all_typed (e ∷ es) = (shows e.key && not (e.key == 10)) && all_typed es

all_typed_cons :
    (e : Key) (es : List Key)
    → all_typed (e ∷ es) ≡ true
    → (shows e.key ≡ true) × (e.key ≢ 10) × (all_typed es ≡ true)
all_typed_cons e es h = ground (arith, h)

edit_typed :
    (line : List ℕ) (e : Key) (es : List Key)
    → shows e.key ≡ true
    → length line < 1024
    → edit line (e ∷ es) ≡ (line ++ (e.key ∷ []), es)
edit_typed line e es h room = ground (arith, h)

-- Let a running shell hold a line, with a keyboard ring that has not come round, and let the oldest events be
-- characters that show, ENTER not among them, which the line has room for. As many rounds of the
-- loop as these events add them to the line, in the order in which they were typed.
pub kshell_rounds-typed :
    (ticks : List ℕ) (line : List ℕ) (typed later : List Key) (s : Shell)
    → Edits line (typed ++ later) s
    → all_typed typed ≡ true
    → length ticks ≡ length typed
    → length line + length typed ≤ 1024
    → (s' : Shell) × (kshell_rounds ticks s ≡ ok s')
      × Edits (line ++ map (λ e. e.key) typed) later s'
unfolding kshell_rounds
kshell_rounds-typed [] line [] later s h shown e room = (s, refl, rw (append-nil line) h)
kshell_rounds-typed [] line (t ∷ typed) later s h shown e room = absurd (omega arith)
kshell_rounds-typed (tick ∷ ticks) line [] later s h shown e room = absurd (omega arith)
kshell_rounds-typed (tick ∷ ticks) line (t ∷ typed) later s h shown e room =
    let (shows_t, other, shown') = all_typed_cons t typed shown in
    let edited = edit_typed line t (typed ++ later) shows_t (omega arith) in
    let moved = kshell_round-Edits tick line (t ∷ (typed ++ later)) s h (ground (arith, other)) in
    let (s1, round, h1) = rw edited at moved in
    let (s2, rounds, h2) =
      kshell_rounds-typed ticks (line ++ (t.key ∷ [])) typed later s1 h1 shown' (omega arith)
        (omega (arith, length-append line (t.key ∷ []))) in
    (s2, rw round rounds, rw (append_assoc line (t.key ∷ []) (map (λ e. e.key) typed)) at h2)

-- The commands after which the console goes on.
abbrev pub returns : Command → Bool
returns cmd_exit = false
returns _ = true

print_tick :
    (tick : ℕ) (t : Tty)
    → (n : ℕ) × (t' : Tty) × (kprintf (codes "Tick: %u\n") (Arg.num tick ∷ []) t ≡ ok (n, t'))
unfolding kprintf format_loop format_char directive next_num
print_tick tick t = (_, _, refl)

run_command-returns :
    (tick : ℕ) (c : Command) (s : Shell)
    → returns c ≡ true
    → (t : Tty) × (run_command tick c s ≡ ok (record s { tty = t }))
unfolding run_command
run_command-returns tick cmd_help s h = (_, refl)
run_command-returns tick cmd_clear s h = (_, refl)
run_command-returns tick cmd_exit s h = absurd (ground (arith, h))
run_command-returns tick cmd_demo s h = (_, refl)
run_command-returns tick cmd_amogus s h = (_, refl)
run_command-returns tick cmd_print_tick s h =
    let (n, t, prints) = print_tick tick s.tty in (t, rw prints refl)
run_command-returns tick cmd_reboot s h = (_, refl)

Holds-empty : Holds [] (replicate 1024 0)
Holds-empty = record {
  size = length-replicate {A = ℕ} 1024 0;
  fits = omega arith;
  bytes = λ i. get_or-replicate 1024 i 0;
}

-- No command, or one after which the console goes on.
abbrev pub goes_on : Option Command → Bool
goes_on none = true
goes_on (some c) = returns c

reply-returns :
    (tick len : ℕ) (found : Option Command) (s : Shell)
    → goes_on found ≡ true
    → (t : Tty) × (reply tick len found s ≡ ok (record s { tty = t }))
unfolding reply
reply-returns tick len (some c) s h = run_command-returns tick c s h
reply-returns tick len none s h = (_, refl)

enter-starts_over :
    (tick : ℕ) (s r : Shell)
    → command_run tick (record s { tty = tty_putc 10 s.tty }) ≡ ok r
    → r.running ≡ true
    → enter tick s
      ≡ ok (record r { cmd = replicate 1024 0; cmd_len = 0; tty = command_start r.tty })
unfolding enter
enter-starts_over tick s r h runs = simp (enter, h, runs) refl

kshell_key-enter : (tick : ℕ) (s : Shell) → kshell_key tick 10 s ≡ enter tick s
unfolding kshell_key
kshell_key-enter tick s = refl

-- Let a running shell, with a keyboard ring that has not come round, hold a line that is a text of bytes other
-- than 0, not ending in a blank, and then blanks, and let the oldest event be ENTER. If the
-- text names no command, or one other than `exit`, one round of the loop prints the line end, does what the
-- text names, prints the prompt and leaves an empty line with the events that came after ENTER.
pub kshell_round-enter :
    (tick : ℕ) (text blanks : List ℕ) (e : Key) (events : List Key) (s : Shell)
    → Edits (text ++ blanks) (e ∷ events) s
    → e.key ≡ 10
    → is_text text ≡ true
    → Ends text
    → AllBlank blanks
    → goes_on (find_named commands text) ≡ true
    → (s1 s2 s' : Shell) × Holds text s1.cmd
      × (s1.tty ≡ tty_putc 10 s.tty)
      × (reply tick (length text) (find_named commands text) s1 ≡ ok s2)
      × (kshell_round tick s ≡ ok s')
      × (s'.tty ≡ command_start s2.tty)
      × Edits [] events s'
kshell_round-enter tick text blanks e events s h key t ends blank on =
    let (k', read, linear, queue, _) = kb_get_key-front s.keyboard h.linear in
    let read' = rw h.queue at read in
    let s0 = record s { keyboard = k' } in
    let fed = record s0 { tty = tty_putc 10 s0.tty } in
    let (cmd', holds', runs) =
      command_run-named tick text blanks fed t ends blank h.holds h.count in
    let s1 = record fed { cmd = cmd' } in
    let (tty', replies) = reply-returns tick (length text) (find_named commands text) s1 on in
    let s2 = record s1 { tty = tty' } in
    (
      s1,
      s2,
      record s2 { cmd = replicate 1024 0; cmd_len = 0; tty = command_start s2.tty },
      holds',
      refl,
      replies,
      kshell_round-key tick e k' s read' h.runs
          ∙ ap (λ c. kshell_key tick c s0) key
          ∙ kshell_key-enter tick s0
          ∙ enter-starts_over tick s0 s2 (runs ∙ replies) h.runs,
      refl,
      record {
        holds = Holds-empty;
        count = refl;
        linear = linear;
        queue = queue ∙ ap rest h.queue;
        runs = h.runs;
      },
    )
