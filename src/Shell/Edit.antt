-- ===== src/Shell/Edit.antt =====
-- The line editor of `kshell` in kernel/terminal/kshell.c against a list of characters and a queue of events.
use aosis.Base.{
  ℕ, zero, suc, ◌+◌, ◌-◌, ◌≤◌, ◌<◌, ◌≡◌, ◌≢◌, ◌∙◌, inl, inr, refl, ap, sym, arith, Bool, true,
  false, not, ◌&&◌, ◌||◌, Bool-cases, none, some, List, [], ◌∷◌, ◌++◌, ltb, leb, ◌==◌,
  if◌then◌else◌, length, get_or, set, take, length-set, length-append, get_or-set, get_or-outside,
  u8, ok, ◌>>=◌,
}
use aosis.Libc.Ctype.{isprint, isspace, nonzero}
use aosis.Terminal.Tty.{tty_putc, tty_deleteprev}
use aosis.Interrupt.Keyboard.{Key, Keyboard, kb_get_key}
use aosis.Interrupt.Keyboard.Queue.{IsLinear, contents, front, rest, kb_get_key-front}
use aosis.Shell.{Shell, kshell_key, kshell_round}
use aosis.Shell.Strip.{Holds}

get_or-snoc :
    (xs : List ℕ) (i c : ℕ)
    → get_or (xs ++ (c ∷ [])) i 0 ≡ (if length xs == i then c else get_or xs i 0)
get_or-snoc [] zero c = refl
get_or-snoc [] (suc i) c = ground arith
get_or-snoc (x ∷ xs) zero c = ground arith
get_or-snoc (x ∷ xs) (suc i) c = ground (arith, get_or-snoc xs i c)

Holds-append :
    (line cmd : List ℕ) (c : ℕ)
    → Holds line cmd
    → length line < 1024
    → Holds (line ++ (c ∷ [])) (set cmd (length line) c)
Holds-append line cmd c h room =
    let written = λ (i : ℕ). get_or-set cmd (length line) i c 0 (omega (arith, h.size)) in
    record {
      size = length-set cmd (length line) c ∙ h.size;
      fits = omega (arith, length-append line (c ∷ []));
      bytes = λ i. ground (arith, written i, h.bytes i, get_or-snoc line i c);
    }

length-take : (n : ℕ) (xs : List ℕ) → n ≤ length xs → length (take n xs) ≡ n
length-take zero xs h = refl
length-take (suc n) [] h = absurd (omega arith)
length-take (suc n) (x ∷ xs) h = ap suc (length-take n xs (omega arith))

get_or-take :
    (n i : ℕ) (xs : List ℕ) → get_or (take n xs) i 0 ≡ (if ltb i n then get_or xs i 0 else 0)
get_or-take zero i xs = ground arith
get_or-take (suc n) i [] = ground arith
get_or-take (suc n) zero (x ∷ xs) = ground arith
get_or-take (suc n) (suc i) (x ∷ xs) = ground (arith, get_or-take n i xs)

Holds-drop :
    (n : ℕ) (line cmd : List ℕ)
    → Holds line cmd
    → length line ≡ suc n
    → Holds (take n line) (set cmd n 0)
Holds-drop n line cmd h e =
    let fits = h.fits in
    let written = λ (i : ℕ). get_or-set cmd n i 0 0 (omega (arith, h.size, fits)) in
    record {
      size = length-set cmd n 0 ∙ h.size;
      fits = omega (arith, fits, length-take n line (omega arith));
      bytes =
          λ i. ground (arith, written i, h.bytes i, get_or-take n i line, get_or-outside line i 0);
    }

-- The characters that a line takes.
abbrev pub shows : ℕ → Bool
shows c = (leb 32 c && leb c 126) || (leb 9 c && leb c 13)

-- What an event makes of a line and the events behind it: a backspace takes the last character and drops one
-- more event, a character that shows is appended if there is room, and nothing else counts.
abbrev pub edit : List ℕ → List Key → List ℕ × List Key
edit line [] = (line, [])
edit line (e ∷ es) =
    if e.key == 8 && ltb 0 (length line)
    then (take (length line - 1) line, rest es)
    else if shows e.key && ltb (length line) 1024
    then (line ++ (e.key ∷ []), es)
    else (line, es)

-- A running shell with this line and these events.
pub record Edits (line : List ℕ) (events : List Key) (s : Shell) : Type 0 where
  pub holds : Holds line s.cmd
  pub count : s.cmd_len ≡ length line
  pub linear : IsLinear s.keyboard
  pub queue : contents s.keyboard ≡ events
  pub runs : s.running ≡ true

-- The oldest event is ENTER.
abbrev pub is_enter : List Key → Bool
is_enter [] = false
is_enter (e ∷ es) = e.key == 10

key_shows : (c : ℕ) → c ≢ 10 → (not (nonzero (isprint c)) || not (nonzero (isspace c))) ≡ shows c
unfolding isprint isspace
key_shows c h = ground arith

-- A read into NULL removes the same event.
kb_get_key-same :
    (k : Keyboard)
    → IsLinear k
    → kb_get_key false k ≡ (kb_get_key true k >>= λ (found, _, k'). ok (found, none, k'))
unfolding kb_get_key
kb_get_key-same k v = ground (arith, v.size, v.span, v.room)

kb_get_key-null :
    (k : Keyboard)
    → IsLinear k
    → (k' : Keyboard) × (kb_get_key false k ≡ ok ((front (contents k)).0, none, k'))
      × IsLinear k'
      × (contents k' ≡ rest (contents k))
kb_get_key-null k v =
    let (k', read, linear, queue, _) = kb_get_key-front k v in
    (k', kb_get_key-same k v ∙ rw read refl, linear, queue)

key-ignored :
    (tick key : ℕ) (line : List ℕ) (events : List Key) (s : Shell)
    → Edits line events s
    → key ≢ 10
    → (key == 8 && ltb 0 (length line)) ≡ false
    → (shows key && ltb (length line) 1024) ≡ false
    → kshell_key tick key s ≡ ok s
unfolding kshell_key
key-ignored tick key line events s h other a b = ground (arith, h.count, key_shows key other, a, b)

-- The branch of a stored character.
key-stored :
    (tick key : ℕ) (line : List ℕ) (events : List Key) (s : Shell)
    → Edits line events s
    → shows key ≡ true
    → key ≢ 10
    → length line < 1024
    → (s' : Shell) × (kshell_key tick key s ≡ ok s') × Edits (line ++ (key ∷ [])) events s'
unfolding kshell_key
key-stored tick key line events s h shown other room =
    let byte : u8 key ≡ key = ground (arith, shown) in
    (
      record s {
        cmd = set s.cmd s.cmd_len (u8 key);
        cmd_len = s.cmd_len + 1;
        tty = tty_putc (u8 key) s.tty;
      },
      ground (arith, h.count, h.holds.size, key_shows key other, shown),
      record {
        holds = rw (h.count, byte) (Holds-append line s.cmd key h.holds room);
        count = omega (arith, h.count, length-append line (key ∷ []));
        linear = h.linear;
        queue = h.queue;
        runs = h.runs;
      },
    )

kshell_key-backspace :
    (tick key : ℕ) (s : Shell)
    → key ≡ 8
    → 0 < s.cmd_len
    → s.cmd_len ≤ length s.cmd
    → kshell_key tick key s ≡ (
        kb_get_key false s.keyboard >>= λ (_, _, k). ok (record s {
          cmd = set s.cmd (s.cmd_len - 1) 0;
          cmd_len = s.cmd_len - 1;
          tty = tty_deleteprev s.tty;
          keyboard = k;
        }))
unfolding kshell_key
kshell_key-backspace tick key s e h fits = ground arith

-- The branch of the backspace.
key-erased :
    (tick key n : ℕ) (line : List ℕ) (events : List Key) (s : Shell)
    → Edits line events s
    → key ≡ 8
    → length line ≡ suc n
    → (s' : Shell) × (kshell_key tick key s ≡ ok s') × Edits (take n line) (rest events) s'
unfolding kshell_key
key-erased tick key n line events s h e full =
    let (k', read, linear, queue) = kb_get_key-null s.keyboard h.linear in
    let last : s.cmd_len - 1 ≡ n = omega (arith, h.count, full) in
    let erased = record s {
      cmd = set s.cmd (s.cmd_len - 1) 0;
      cmd_len = s.cmd_len - 1;
      tty = tty_deleteprev s.tty;
    } in
    (
      record erased { keyboard = k' },
      kshell_key-backspace tick key s e (omega (arith, h.count, full))
            (omega (arith, h.count, h.holds.fits, h.holds.size))
          ∙ rw read refl,
      record {
        holds = rw last (Holds-drop n line s.cmd h.holds full);
        count = last ∙ sym (length-take n line (omega (arith, full)));
        linear = linear;
        queue = queue ∙ ap rest h.queue;
        runs = h.runs;
      },
    )

kshell_key-Edits :
    (tick : ℕ) (e : Key) (line : List ℕ) (events : List Key) (s : Shell)
    → Edits line events s
    → e.key ≢ 10
    → let (line', events') = edit line (e ∷ events) in
      (s' : Shell) × (kshell_key tick e.key s ≡ ok s') × Edits line' events' s'
kshell_key-Edits tick e line events s h other =
    elim (Bool-cases (e.key == 8 && ltb 0 (length line))) [
      | inl erase ↦
          let n : length line ≡ suc (length line - 1) = ground (arith, erase) in
          rw erase
            (key-erased tick e.key (length line - 1) line events s h (ground (arith, erase)) n)
      | inr a ↦ elim (Bool-cases (shows e.key && ltb (length line) 1024)) [
        | inl store ↦
            rw (a, store)
              (key-stored tick e.key line events s h (ground (arith, store)) other
                (ground (arith, store)))
        | inr b ↦ rw (a, b) (s, key-ignored tick e.key line events s h other a b, h)
      ]
    ]

pub kshell_round-key :
    (tick : ℕ) (e : Key) (k' : Keyboard) (s : Shell)
    → kb_get_key true s.keyboard ≡ ok (true, some e, k')
    → s.running ≡ true
    → kshell_round tick s ≡ kshell_key tick e.key (record s { keyboard = k' })
unfolding kshell_round
kshell_round-key tick e k' s read runs = rw (kshell_round, read) (simp runs refl)

-- Let a running shell hold a line of at most 1024 characters, with a keyboard ring that has not come round.
-- One round of the loop edits them as `edit` does a line and a queue of events, unless the oldest event is ENTER:
-- the oldest event is read and takes its effect, and the round does not fault, so no store is outside the
-- command buffer.
pub kshell_round-Edits :
    (tick : ℕ) (line : List ℕ) (events : List Key) (s : Shell)
    → Edits line events s
    → is_enter events ≡ false
    → let (line', events') = edit line events in
      (s' : Shell) × (kshell_round tick s ≡ ok s') × Edits line' events' s'
unfolding kshell_round
kshell_round-Edits tick line [] s h other =
    let (k', read, linear, queue, _) = kb_get_key-front s.keyboard h.linear in
    let read' = rw h.queue at read in
    (
      record s { keyboard = k' },
      rw read' refl,
      record {
        holds = h.holds;
        count = h.count;
        linear = linear;
        queue = queue ∙ ap rest h.queue;
        runs = h.runs;
      },
    )
kshell_round-Edits tick line (e ∷ events) s h other =
    let (k', read, linear, queue, _) = kb_get_key-front s.keyboard h.linear in
    let read' = rw h.queue at read in
    let (s', keyed, edits) =
      kshell_key-Edits tick e line events (record s { keyboard = k' })
        (record {
          holds = h.holds;
          count = h.count;
          linear = linear;
          queue = queue ∙ ap rest h.queue;
          runs = h.runs;
        })
        (ground (arith, other)) in
    (s', kshell_round-key tick e k' s read' h.runs ∙ keyed, edits)
