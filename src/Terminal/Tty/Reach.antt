-- ===== src/Terminal/Tty/Reach.antt =====
-- The functions of kernel/terminal/tty.c and `kprintf`, but `tty_scroll`, called in any order: what a
-- terminal is after any number of calls. `tty_scroll` is for the other functions: it takes the cursor up
-- a row and leaves the hardware's where it is.
use aosis.Base.{
  ℕ, zero, suc, ◌+◌, ◌*◌, ◌<◌, ◌≡◌, refl, arith, false, ◌||◌, List, [], ◌∷◌, ◌==◌, length,
  length-set, set, get_or, if_both, ◌∙◌, ◌-◌, for_range-keeps, Result, ok, ◌>>=◌, Always,
  Always-bind,
}
use aosis.Terminal.Vga.{vga_entry}
use aosis.Terminal.Tty.{
  Tty, update_cursor, sync_cursor, tty_clear, tty_putentryat, initialize_terminal, tty_putc,
  tty_deleteprev, outb,
}
use aosis.Terminal.Tty.Bounds.{
  IsValid, IsSynced, update_cursor-IsSynced, sync_cursor-IsValid, sync_cursor-IsSynced,
  tty_clear_lem, tty_putc-IsValid,
}
use aosis.Terminal.Tty.Print.{
  Arg, num, str, Printf, tty_write, tty_printstr, int_digits, put_digits, tty_printint, hex_loop,
  tty_printhex, next_num, next_str, directive, format_char, format_loop, kprintf,
}

-- The cursor is on the screen, and the hardware's is at the same place.
pub record IsReady (s : Tty) : Type 0 where
  pub valid : IsValid s
  pub synced : IsSynced s

putc-IsReady : (c : ℕ) (s : Tty) → IsReady s → IsReady (tty_putc c s)
putc-IsReady c s r =
    let (valid, synced) = tty_putc-IsValid c s r.valid in record { valid = valid; synced = synced }

tty_write-IsReady : (text : List ℕ) (len : ℕ) (s : Tty) → IsReady s → IsReady (tty_write text len s)
unfolding tty_write
tty_write-IsReady text len s r =
    for_range-keeps (λ _ t. IsReady t) (λ i t. tty_putc (get_or text i 0) t) len 0 len s
      (omega arith) (λ k t _ _ h. putc-IsReady (get_or text k 0) t h) r

pub tty_printstr-IsReady : (text : List ℕ) (s : Tty) → IsReady s → IsReady (tty_printstr text s)
unfolding tty_printstr
tty_printstr-IsReady [] s r = r
tty_printstr-IsReady (c ∷ text) s r =
    if_both IsReady (c == 0) _ _ r (tty_printstr-IsReady text (tty_putc c s) (putc-IsReady c s r))

-- Text that is not empty needs no more than a valid terminal.
pub tty_printstr_starts :
    (c : ℕ) (text : List ℕ) (s : Tty)
    → (c == 0) ≡ false
    → IsValid s
    → IsReady (tty_printstr (c ∷ text) s)
unfolding tty_printstr
tty_printstr_starts c text s real v =
    let (valid, synced) = tty_putc-IsValid c s v in
    rw real (tty_printstr-IsReady text (tty_putc c s) (record { valid = valid; synced = synced }))

put_digits-IsReady : (digits : List ℕ) (s : Tty) → IsReady s → IsReady (put_digits digits s)
unfolding put_digits
put_digits-IsReady [] s r = r
put_digits-IsReady (d ∷ digits) s r =
    putc-IsReady _ (put_digits digits s) (put_digits-IsReady digits s r)

pub tty_printint-IsReady : (n : ℕ) (s : Tty) → IsReady s → IsReady (tty_printint n s)
unfolding tty_printint
tty_printint-IsReady n s r =
    if_both IsReady (n == 0) _ _ (putc-IsReady b'0' s r) (put_digits-IsReady (int_digits 32 n) s r)

hex_loop-IsReady : (left n : ℕ) (s : Tty) → IsReady s → IsReady (hex_loop left n s)
unfolding hex_loop
hex_loop-IsReady zero n s r = r
hex_loop-IsReady (suc left) n s r = hex_loop-IsReady left _ _ (putc-IsReady _ s r)

tty_printhex-IsReady : (n : ℕ) (s : Tty) → IsReady s → IsReady (tty_printhex n s)
unfolding tty_printhex
tty_printhex-IsReady n s r =
    if_both IsReady (n == 0) _ _ (putc-IsReady b'0' s r) (hex_loop-IsReady 8 n s r)

abbrev Prints : Result Printf → Type 0
Prints = Always (λ p. IsReady p.tty)

num-Prints :
    (f : ℕ → Tty → Tty) (args : List Arg) (p : Printf)
    → ((n : ℕ) → IsReady (f n p.tty))
    → Prints (next_num args >>= λ (n, rest). ok (record p { args = rest; tty = f n p.tty }))
unfolding next_num
num-Prints f [] p keep = tt
num-Prints f (num n ∷ args) p keep = keep n
num-Prints f (str t ∷ args) p keep = tt

str-Prints :
    (args : List Arg) (p : Printf)
    → IsReady p.tty
    → Prints
        (next_str args >>= λ (t, rest). ok (record p { args = rest; tty = tty_printstr t p.tty }))
unfolding next_str
str-Prints [] p r = tt
str-Prints (num n ∷ args) p r = tt
str-Prints (str t ∷ args) p r = tty_printstr-IsReady t p.tty r

directive-Prints : (c : ℕ) (p : Printf) → IsReady p.tty → Prints (directive c p)
unfolding directive
directive-Prints c p r = if_both Prints (c == b'%') _ _ (putc-IsReady b'%' p.tty r) (
    if_both Prints (c == b'd' || (c == b'u' || c == b'i')) _ _
      (num-Prints tty_printint p.args p (λ n. tty_printint-IsReady n p.tty r))
      (if_both Prints (c == b'x' || c == b'X') _ _
        (num-Prints tty_printhex p.args p (λ n. tty_printhex-IsReady n p.tty r))
        (if_both Prints (c == b's') _ _ (str-Prints p.args p r) r)))

format_char-Prints : (c : ℕ) (p : Printf) → IsReady p.tty → Prints (format_char c p)
unfolding format_char
format_char-Prints c p r =
    if_both Prints p.fmt_flag _ _
      (Always-bind (λ q. IsReady q.tty) (λ q. IsReady q.tty) (directive c p) _
        (directive-Prints c p r) (λ q h. h))
      (if_both Prints (c == b'%') _ _ r (putc-IsReady c p.tty r))

format_loop-Prints :
    (format : List ℕ) (i : ℕ) (p : Printf)
    → IsReady p.tty
    → Always (λ (q, _). IsReady q.tty) (format_loop format i p)
unfolding format_loop
format_loop-Prints [] i p r = r
format_loop-Prints (c ∷ format) i p r = if_both (Always (λ (q, _). IsReady q.tty)) (c == 0) _ _ r (
    Always-bind (λ q. IsReady q.tty) (λ (q, _). IsReady q.tty) (format_char c p) _
      (format_char-Prints c p r) (λ q h. format_loop-Prints format (i + 1) q h))

kprintf-IsReady :
    (format : List ℕ) (args : List Arg) (s : Tty)
    → IsReady s
    → Always (λ (_, t). IsReady t) (kprintf format args s)
unfolding kprintf
kprintf-IsReady format args s r =
    Always-bind (λ (q, _). IsReady q.tty) (λ (_, t). IsReady t)
      (format_loop format 0 (record { args = args; printed = 0; fmt_flag = false; tty = s })) _
      (format_loop-Prints format 0 _ r) (λ a h. h)

-- A call of one of the functions, `kprintf` one that returns, `tty_putentryat` and `update_cursor` for a place
-- on the screen.
pub data Call (s t : Tty) : Type 0 where
  putc : (c : ℕ) → t ≡ tty_putc c s → Call s t
  deleteprev : t ≡ tty_deleteprev s → Call s t
  clear : t ≡ tty_clear s → Call s t
  putentryat : (c color x y : ℕ) → x < 80 → y < 25 → t ≡ tty_putentryat c color x y s → Call s t
  move_cursor : (x y : ℕ) → x < 80 → y < 25 → t ≡ update_cursor x y s → Call s t
  write : (text : List ℕ) (len : ℕ) → t ≡ tty_write text len s → Call s t
  printstr : (text : List ℕ) → t ≡ tty_printstr text s → Call s t
  printint : (n : ℕ) → t ≡ tty_printint n s → Call s t
  printhex : (n : ℕ) → t ≡ tty_printhex n s → Call s t
  printf :
      (format : List ℕ) (args : List Arg) (n : ℕ) → kprintf format args s ≡ ok (n, t) → Call s t

-- What calls in any order and number lead to.
pub data Reach (s : Tty) : Tty → Type 0 where
  here : Reach s s
  next : {t u : Tty} → Reach s t → Call t u → Reach s u

erased-IsReady :
    (x y : ℕ) (s : Tty)
    → IsReady s
    → x < 80
    → y < 25
    → IsReady (
        sync_cursor (tty_putentryat b' ' s.tty_color x y (record s { tty_xpos = x; tty_ypos = y })))
unfolding tty_putentryat
erased-IsReady x y s r h g =
    let cells = set s.tty_buffer (y * 80 + x) (vga_entry b' ' s.tty_color) in
    let erased = record s { tty_xpos = x; tty_ypos = y; tty_buffer = cells } in
    let valid : IsValid erased = record {
      xpos_in = h;
      ypos_in = g;
      size = length-set s.tty_buffer (y * 80 + x) (vga_entry b' ' s.tty_color) ∙ r.valid.size;
    } in
    record { valid = sync_cursor-IsValid erased valid; synced = sync_cursor-IsSynced erased valid }

tty_deleteprev-IsReady : (s : Tty) → IsReady s → IsReady (tty_deleteprev s)
unfolding tty_deleteprev
tty_deleteprev-IsReady s r =
    if_both IsReady (s.tty_xpos == 0) _ _
      (if_both IsReady (s.tty_ypos == 0) _ _ r
        (erased-IsReady 79 (s.tty_ypos - 1) s r (omega arith) (omega (arith, r.valid.ypos_in))))
      (erased-IsReady (s.tty_xpos - 1) s.tty_ypos s r (omega (arith, r.valid.xpos_in))
        r.valid.ypos_in)

tty_clear-IsReady : (s : Tty) → length s.tty_buffer ≡ 2000 → IsReady (tty_clear s)
tty_clear-IsReady s e =
    let cleared = tty_clear_lem s 0 e (omega arith) in
    record { valid = cleared.0; synced = cleared.1 }

putentryat-IsReady :
    (c color x y : ℕ) (s : Tty) → IsReady s → IsReady (tty_putentryat c color x y s)
unfolding tty_putentryat
putentryat-IsReady c color x y s r = record {
  valid = record {
    xpos_in = r.valid.xpos_in;
    ypos_in = r.valid.ypos_in;
    size = length-set s.tty_buffer (y * 80 + x) (vga_entry c color) ∙ r.valid.size;
  };
  synced = r.synced;
}

update_cursor-IsReady :
    (x y : ℕ) (s : Tty) → IsReady s → x < 80 → y < 25 → IsReady (update_cursor x y s)
update_cursor-IsReady x y s r h g = record {
  valid = unfold update_cursor in record { xpos_in = h; ypos_in = g; size = r.valid.size };
  synced = update_cursor-IsSynced x y s h g;
}

Call-IsReady : (s t : Tty) → IsReady s → Call s t → IsReady t
Call-IsReady s t r (putc c e) = rw e (putc-IsReady c s r)
Call-IsReady s t r (deleteprev e) = rw e (tty_deleteprev-IsReady s r)
Call-IsReady s t r (clear e) = rw e (tty_clear-IsReady s r.valid.size)
Call-IsReady s t r (putentryat c color x y h g e) = rw e (putentryat-IsReady c color x y s r)
Call-IsReady s t r (move_cursor x y h g e) = rw e (update_cursor-IsReady x y s r h g)
Call-IsReady s t r (write text len e) = rw e (tty_write-IsReady text len s r)
Call-IsReady s t r (printstr text e) = rw e (tty_printstr-IsReady text s r)
Call-IsReady s t r (printint n e) = rw e (tty_printint-IsReady n s r)
Call-IsReady s t r (printhex n e) = rw e (tty_printhex-IsReady n s r)
Call-IsReady s t r (printf format args n e) =
    let kept = kprintf-IsReady format args s r in rw e at kept

Reach-IsReady : {s t : Tty} → IsReady s → Reach s t → IsReady t
Reach-IsReady r here = r
Reach-IsReady r (next {t} {u} reached call) = Call-IsReady t u (Reach-IsReady r reached) call

pub initialize_terminal-IsReady :
    (inb : List (ℕ × ℕ) → ℕ → ℕ) (s : Tty)
    → length s.tty_buffer ≡ 2000
    → IsReady (initialize_terminal inb s)
unfolding initialize_terminal outb update_cursor
initialize_terminal-IsReady inb s e = record {
  valid = record {
    xpos_in = omega arith;
    ypos_in = omega arith;
    size = (tty_clear-IsReady s e).valid.size;
  };
  synced = (_, refl);
}

-- Let the screen's buffer have 2000 cells. After `initialize_terminal` and any number of calls
-- of `tty_putc`, `tty_deleteprev`, `tty_clear`, `tty_write`, `tty_printstr`, `tty_printint`,
-- `tty_printhex`, of `tty_putentryat` and `update_cursor` for places on the screen, and of `kprintf`
-- as far as it returns, in any order, with any characters, strings, numbers and formats, the cursor
-- is on the screen, the buffer has its 2000 cells, and the hardware's cursor is at the terminal's.
pub initialize_terminal-Reach :
    (inb : List (ℕ × ℕ) → ℕ → ℕ) (s t : Tty)
    → length s.tty_buffer ≡ 2000
    → Reach (initialize_terminal inb s) t
    → IsValid t × IsSynced t
initialize_terminal-Reach inb s t e reached =
    let r = Reach-IsReady (initialize_terminal-IsReady inb s e) reached in (r.valid, r.synced)
