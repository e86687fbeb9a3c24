-- ===== src/Shell/Strip.antt =====
-- The first loop of `command_run` in kernel/terminal/kshell.c, which takes the blanks off the end of a line.
use aosis.Base.{
  ℕ, zero, suc, ◌+◌, ◌-◌, ◌≤◌, ◌<◌, ◌≡◌, ◌∙◌, refl, ap, arith, Bool, true, false, not, ◌&&◌, List,
  [], ◌∷◌, ◌++◌, ltb, leb, if◌then◌else◌, length, get_or, set, length-set, length-append,
  get_or-set, get_or-outside, get_or-append_left, get_or-append_right, ok, fault,
}
use aosis.Libc.Ctype.{isspace, nonzero}
use aosis.Shell.{Shell, strip_cmd, command_run}

abbrev pub is_blank : ℕ → Bool
is_blank c = not (nonzero (isspace c))

-- The buffer holds a line: its bytes, then zeros.
pub record Holds (line cmd : List ℕ) : Type 0 where
  pub size : length cmd ≡ 1024
  pub fits : length line ≤ 1024
  pub bytes : (i : ℕ) → get_or cmd i 0 ≡ get_or line i 0

abbrev pub AllBlank : List ℕ → Type 0
AllBlank [] = Unit
AllBlank (c ∷ cs) = (is_blank c ≡ true) × AllBlank cs

-- A text that does not end in a blank.
abbrev pub Ends : List ℕ → Type 0
Ends [] = ⊥
Ends (c ∷ []) = is_blank c ≡ false
Ends (c ∷ d ∷ cs) = Ends (d ∷ cs)

blank_at :
    (blanks : List ℕ) (i : ℕ)
    → AllBlank blanks
    → i < length blanks
    → is_blank (get_or blanks i 0) ≡ true
blank_at [] i h l = absurd (omega arith)
blank_at (c ∷ cs) zero h l = h.0
blank_at (c ∷ cs) (suc i) h l = blank_at cs i h.1 (omega arith)

last_at :
    (text : List ℕ)
    → Ends text
    → (n : ℕ) × (length text ≡ suc n) × (is_blank (get_or text n 0) ≡ false)
last_at [] h = absurd h
last_at (c ∷ []) h = (0, omega arith, h)
last_at (c ∷ d ∷ cs) h = let (n, e, b) = last_at (d ∷ cs) h in (suc n, omega (arith, e), b)

strip_cmd-suc :
    (cmd : List ℕ) (len : ℕ)
    → is_blank (get_or cmd len 0) ≡ true
    → strip_cmd cmd (suc len) ≡ strip_cmd (set cmd len 0) len
unfolding strip_cmd
strip_cmd-suc cmd len h = ground (arith, h)

-- The strip loop passes blanks, and stops at another byte.
strip_cmd-passes :
    (k n : ℕ) (cmd : List ℕ)
    → ((i : ℕ) → n ≤ i → i < n + k → is_blank (get_or cmd i 0) ≡ true)
    → n + k ≤ length cmd
    → (cmd' : List ℕ) × (strip_cmd cmd (n + k) ≡ strip_cmd cmd' n)
      × (length cmd' ≡ length cmd)
      × ((i : ℕ) → get_or cmd' i 0 ≡ (if leb n i && ltb i (n + k) then 0 else get_or cmd i 0))
strip_cmd-passes zero n cmd h l =
    let e : n + 0 ≡ n = omega arith in (cmd, rw e refl, refl, λ i. ground arith)
strip_cmd-passes (suc k) n cmd h l =
    let e : n + suc k ≡ suc (n + k) = omega arith in
    let blank = h (n + k) (omega arith) (omega arith) in
    let cut = set cmd (n + k) 0 in
    let same = length-set cmd (n + k) 0 in
    let after = λ (i : ℕ). get_or-set cmd (n + k) i 0 0 (omega arith) in
    let (cmd', more, size, bytes) =
      strip_cmd-passes k n cut (λ i a b. ground (arith, after i, h i a)) (omega (arith, same)) in
    (
      cmd',
      rw e (strip_cmd-suc cmd (n + k) blank ∙ more),
      size ∙ same,
      λ i. ground (arith, bytes i, after i),
    )

-- The bytes of a line that blanks end.
line_blank :
    (text blanks : List ℕ) (i : ℕ)
    → AllBlank blanks
    → length text ≤ i
    → i < length text + length blanks
    → is_blank (get_or (text ++ blanks) i 0) ≡ true
line_blank text blanks i h a b =
    let e : i ≡ length text + (i - length text) = omega arith in
    rw e (
      rw (get_or-append_right text blanks (i - length text) 0)
        (blank_at blanks (i - length text) h (omega arith)))

line_cut :
    (text blanks : List ℕ) (i : ℕ)
    → (if leb (length text) i && ltb i (length text + length blanks)
        then 0
        else get_or (text ++ blanks) i 0)
      ≡ get_or text i 0
line_cut text blanks i = ground (
  arith,
  get_or-append_left text blanks i 0,
  get_or-outside text i 0,
  get_or-outside (text ++ blanks) i 0,
  length-append text blanks,
)

-- Whatever blanks follow it, the strip loop leaves the text.
strip_line :
    (text blanks cmd : List ℕ)
    → AllBlank blanks
    → Holds (text ++ blanks) cmd
    → (cmd' : List ℕ) × (strip_cmd cmd (length (text ++ blanks)) ≡ strip_cmd cmd' (length text))
      × Holds text cmd'
strip_line text blanks cmd h holds =
    let total = length-append text blanks in
    let fits = holds.fits in
    let (cmd', more, size, bytes) =
      strip_cmd-passes (length blanks) (length text) cmd
        (λ i a b. rw (holds.bytes i) (line_blank text blanks i h a b))
        (omega (arith, total, fits, holds.size)) in
    let cut =
      λ (i b : ℕ). if leb (length text) i && ltb i (length text + length blanks) then 0 else b in
    (
      cmd',
      rw total more,
      record {
        size = size ∙ holds.size;
        fits = omega (arith, total, fits);
        bytes = λ i. bytes i ∙ ap (cut i) (holds.bytes i) ∙ line_cut text blanks i;
      },
    )

-- If the command line is empty or holds blanks only, `command_run` reads the byte before its buffer.
command_run-blank :
    (tick : ℕ) (blanks : List ℕ) (s : Shell)
    → AllBlank blanks
    → Holds blanks s.cmd
    → s.cmd_len ≡ length blanks
    → command_run tick s ≡ fault
unfolding command_run strip_cmd
command_run-blank tick blanks s h holds e =
    let (cmd', stripped, _) = strip_line [] blanks s.cmd h holds in rw e (rw stripped refl)

pub strip_cmd-text :
    (text blanks cmd : List ℕ)
    → Ends text
    → AllBlank blanks
    → Holds (text ++ blanks) cmd
    → (cmd' : List ℕ) × (strip_cmd cmd (length (text ++ blanks)) ≡ ok (cmd', length text))
      × Holds text cmd'
unfolding strip_cmd
strip_cmd-text text blanks cmd ends h holds =
    let (cmd', stripped, holds') = strip_line text blanks cmd h holds in
    let (n, e, last) = last_at text ends in
    let stays : strip_cmd cmd' (suc n) ≡ ok (cmd', suc n) = ground (arith, last, holds'.bytes n) in
    (cmd', stripped ∙ rw e stays, holds')
