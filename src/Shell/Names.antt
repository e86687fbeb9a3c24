-- ===== src/Shell/Names.antt =====
-- The second loop of `command_run` in kernel/terminal/kshell.c, which looks a stripped line up in the table
-- of commands.
use aosis.Base.{
  ℕ, zero, suc, ◌+◌, ◌≤◌, ◌<◌, ◌≡◌, ◌≢◌, ◌∙◌, inl, inr, refl, ap, arith, Bool, true, false, not,
  ◌&&◌, ◌||◌, Bool-cases, Option, none, some, List, [], ◌∷◌, ◌++◌, ltb, ◌==◌, if◌then◌else◌, length,
  get_or, sub32, Result, ok,
}
use aosis.Libc.Mem.{Bytes, int_of_char}
use aosis.Libc.Mem.Laws.{difference-zero}
use aosis.Libc.Str.{strcmp}
use aosis.Shell.{
  Shell, Command, ShellCommand, commands, strip_cmd, cmd_memory, find_command, command_run,
  dispatch_command, run_command,
}
use aosis.Interrupt.Idt.{codes}
use aosis.Terminal.Tty.Print.{tty_printstr, tty_write}
use aosis.Shell.Strip.{Holds, AllBlank, Ends, strip_cmd-text}

-- The bytes of a C string.
abbrev pub is_text : List ℕ → Bool
is_text [] = true
is_text (c ∷ cs) = ltb 0 c && (ltb c 256 && is_text cs)

is_text_cons :
    (c : ℕ) (cs : List ℕ) → is_text (c ∷ cs) ≡ true → (0 < c) × (c < 256) × (is_text cs ≡ true)
is_text_cons c cs h = ground (arith, h)

abbrev pub same_text : List ℕ → List ℕ → Bool
same_text [] [] = true
same_text [] (y ∷ ys) = false
same_text (x ∷ xs) [] = false
same_text (x ∷ xs) (y ∷ ys) = (x == y) && same_text xs ys

strcmp-stops :
    (x y fuel s1 s2 i : ℕ) (m : Bytes)
    → m (s1 + i) ≡ x
    → m (s2 + i) ≡ y
    → x < 256
    → y < 256
    → (x == 0 || (y == 0 || not (x == y))) ≡ true
    → (difference : ℕ) × (strcmp (suc fuel) s1 s2 i m ≡ some difference)
      × ((difference == 0) ≡ (x == y))
unfolding strcmp
strcmp-stops x y fuel s1 s2 i m first second a b h = (
  sub32 (int_of_char x) (int_of_char y),
  rw (first, second) (ground (arith, h)),
  ground (arith, difference-zero x y a b),
)

strcmp-goes :
    (x fuel s1 s2 i : ℕ) (m : Bytes)
    → m (s1 + i) ≡ x
    → m (s2 + i) ≡ x
    → x ≢ 0
    → strcmp (suc fuel) s1 s2 i m ≡ strcmp fuel s1 s2 (i + 1) m
unfolding strcmp
strcmp-goes x fuel s1 s2 i m first second h = rw (first, second) (ground (arith, h))

at_first : (s i x : ℕ) (m : Bytes) → m (s + (i + 0)) ≡ x → m (s + i) ≡ x
at_first s i x m h = let e : i + 0 ≡ i = omega arith in rw e at h

at_next : (s i k x : ℕ) (m : Bytes) → m (s + (i + suc k)) ≡ x → m (s + (i + 1 + k)) ≡ x
at_next s i k x m h = let e : i + suc k ≡ i + 1 + k = omega arith in rw e at h

-- `strcmp` from index `i` on tells whether the strings there are the same.
strcmp-same_text :
    (name text : List ℕ) (fuel s1 s2 i : ℕ) (m : Bytes)
    → length name < fuel
    → is_text name ≡ true
    → is_text text ≡ true
    → ((k : ℕ) → k ≤ length name → m (s1 + (i + k)) ≡ get_or name k 0)
    → ((k : ℕ) → k ≤ length name → m (s2 + (i + k)) ≡ get_or text k 0)
    → (difference : ℕ) × (strcmp fuel s1 s2 i m ≡ some difference)
      × ((difference == 0) ≡ same_text name text)
strcmp-same_text name text zero s1 s2 i m h a b at_name at_text = absurd (omega arith)
strcmp-same_text [] [] (suc fuel) s1 s2 i m h a b at_name at_text =
    strcmp-stops 0 0 fuel s1 s2 i m (at_first s1 i _ m (at_name 0 (omega arith)))
      (at_first s2 i _ m (at_text 0 (omega arith))) (omega arith) (omega arith) refl
strcmp-same_text [] (y ∷ ys) (suc fuel) s1 s2 i m h a b at_name at_text =
    let (nonzero_y, byte_y, _) = is_text_cons y ys b in
    let (d, stops, same) =
      strcmp-stops 0 y fuel s1 s2 i m (at_first s1 i _ m (at_name 0 (omega arith)))
        (at_first s2 i _ m (at_text 0 (omega arith))) (omega arith) byte_y refl in
    (d, stops, same ∙ ground (arith, nonzero_y))
strcmp-same_text (x ∷ xs) [] (suc fuel) s1 s2 i m h a b at_name at_text =
    let (nonzero_x, byte_x, _) = is_text_cons x xs a in
    let (d, stops, same) =
      strcmp-stops x 0 fuel s1 s2 i m (at_first s1 i _ m (at_name 0 (omega arith)))
        (at_first s2 i _ m (at_text 0 (omega arith))) byte_x (omega arith) (ground arith) in
    (d, stops, same ∙ ground (arith, nonzero_x))
strcmp-same_text (x ∷ xs) (y ∷ ys) (suc fuel) s1 s2 i m h a b at_name at_text =
    let (nonzero_x, byte_x, a') = is_text_cons x xs a in
    let (nonzero_y, byte_y, b') = is_text_cons y ys b in
    let first = at_first s1 i x m (at_name 0 (omega arith)) in
    let second = at_first s2 i y m (at_text 0 (omega arith)) in
    elim (Bool-cases (x == y)) [
      | inr differ ↦
          let (d, stops, same) =
            strcmp-stops x y fuel s1 s2 i m first second byte_x byte_y (ground (arith, differ)) in
          (d, stops, same ∙ rw differ refl)
      | inl equal ↦
          let xy : y ≡ x = ground (arith, equal) in
          let (d, goes, same) =
            strcmp-same_text xs ys fuel s1 s2 (i + 1) m (omega arith) a' b'
              (λ k l. at_next s1 i k _ m (at_name (suc k) (omega arith)))
              (λ k l. at_next s2 i k _ m (at_text (suc k) (omega arith))) in
          (d, strcmp-goes x fuel s1 s2 i m first (second ∙ xy) (omega arith) ∙ goes, rw equal same)
    ]

abbrev pub find_named : List ShellCommand → List ℕ → Option Command
find_named [] text = none
find_named (c ∷ cs) text = if same_text c.name text then some c.run else find_named cs text

-- Names that fit the rounds of `strcmp`.
abbrev pub all_names : List ShellCommand → Bool
all_names [] = true
all_names (c ∷ cs) = ltb (length c.name) 16 && (is_text c.name && all_names cs)

all_names_cons :
    (c : ShellCommand) (cs : List ShellCommand)
    → all_names (c ∷ cs) ≡ true
    → (length c.name < 16) × (is_text c.name ≡ true) × (all_names cs ≡ true)
all_names_cons c cs h = ground (arith, h)

find_command-named :
    (cs : List ShellCommand) (text cmd : List ℕ)
    → all_names cs ≡ true
    → is_text text ≡ true
    → Holds text cmd
    → find_command cs cmd ≡ find_named cs text
unfolding find_command
find_command-named [] text cmd names t holds = refl
find_command-named (c ∷ cs) text cmd names t holds =
    let (short, n, names') = all_names_cons c cs names in
    let (d, compared, same) =
      strcmp-same_text c.name text 16 1024 0 0 (cmd_memory cmd c.name) short n t
        (λ k l. ground arith) (λ k l. ground (arith, holds.bytes k)) in
    rw (find_command, compared, find_command-named cs text cmd names' t holds, same) refl

-- What a stripped line of `len` characters does: the command that it names runs, or it is reported as unknown.
unfoldable pub reply : ℕ → ℕ → Option Command → Shell → Result Shell
reply tick len (some run_cmd) s = run_command tick run_cmd s
reply tick len none s = ok (record s {
  tty =
      tty_printstr (codes "'\n")
        (tty_write s.cmd len (tty_printstr (codes "Unknown command '") s.tty));
})

dispatch_command-reply :
    (tick len : ℕ) (found : Option Command) (cmd : List ℕ) (s : Shell)
    → find_command commands cmd ≡ found
    → dispatch_command tick cmd len s ≡ reply tick len found (record s { cmd = cmd })
unfolding dispatch_command reply
dispatch_command-reply tick len (some c) cmd s found = rw (dispatch_command, found) refl
dispatch_command-reply tick len none cmd s found = rw (dispatch_command, found) refl

-- Let the command line hold a text of bytes other than 0, not ending in a blank, and then blanks. Then
-- `command_run` runs the first command whose name is the text, or else reports the text as unknown, with a
-- buffer that holds the text alone.
pub command_run-named :
    (tick : ℕ) (text blanks : List ℕ) (s : Shell)
    → is_text text ≡ true
    → Ends text
    → AllBlank blanks
    → Holds (text ++ blanks) s.cmd
    → s.cmd_len ≡ length (text ++ blanks)
    → (cmd' : List ℕ) × Holds text cmd'
      × (command_run tick s
          ≡ reply tick (length text) (find_named commands text) (record s { cmd = cmd' }))
unfolding command_run
command_run-named tick text blanks s t ends h holds e =
    let (cmd', stripped, holds') = strip_cmd-text text blanks s.cmd ends h holds in
    let found = find_command-named commands text cmd' refl t holds' in
    (
      cmd',
      holds',
      rw (command_run, ap (strip_cmd s.cmd) e ∙ stripped)
          (dispatch_command-reply tick (length text) (find_named commands text) cmd' s found),
    )
