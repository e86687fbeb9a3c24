-- ===== src/Interrupt/Keyboard/Decode.antt =====
-- Which key the scan codes of kernel/interrupt/keyboard.c stand for, and what the interrupt stores.
use aosis.Base.{
  ℕ, ◌+◌, ◌≤◌, ◌<◌, ◌≡◌, ◌≢◌, refl, ◌∙◌, Bool, true, false, ◌&&◌, arith, ltb, leb, ◌==◌,
  if◌then◌else◌, all_below, all_below_sound, ok, ◌>>=◌,
}
use mathlib.Core.Bool.{xor}
use aosis.Libc.Ctype.{isalpha, nonzero}
use aosis.Terminal.Tty.{outb}
use aosis.Interrupt.Keyboard.Layout.{unshift, shift, key_shift, key_shift_release}
use aosis.Interrupt.Keyboard.{
  KbState, Keyboard, Driver, add_key, decode_scancode, handle_key, isr_key_press,
}

-- A scan code whose shifted key is a letter.
abbrev pub is_letter : ℕ → Bool
is_letter scancode = nonzero (isalpha (shift scancode))

abbrev letter_entry : ℕ → Bool
letter_entry c =
    if is_letter c
    then (leb b'A' (shift c) && leb (shift c) b'Z') && (unshift c == shift c + 32)
    else true

letter_table : all_below 256 letter_entry ≡ true
unfolding all_below isalpha shift unshift
letter_table = refl

letter :
    (scancode : ℕ)
    → scancode < 256
    → is_letter scancode ≡ true
    → (b'A' ≤ shift scancode) × (shift scancode ≤ b'Z') × (unshift scancode ≡ shift scancode + 32)
letter scancode h e = ground (arith, all_below_sound 256 letter_entry scancode letter_table h)

-- On a letter's key, exactly one of shift and caps lock gives the capital, and both or neither the
-- small letter.
decode_scancode-letter :
    (s : KbState) (scancode : ℕ)
    → scancode < 256
    → is_letter scancode ≡ true
    → (b'A' ≤ shift scancode)
      × (shift scancode ≤ b'Z')
      × (decode_scancode s scancode
          ≡ (if xor s.shift s.caps then shift scancode else shift scancode + 32))
unfolding decode_scancode
decode_scancode-letter s scancode h e =
    let entry = letter scancode h e in (entry.0, entry.1, ground (arith, entry))

no_entry :
    (scancode : ℕ)
    → 0x7f ≤ scancode
    → scancode ≢ 0x9d
    → scancode ≢ 0xaa
    → scancode ≢ 0xb6
    → scancode ≢ 0xb8
    → (shift scancode ≡ 0) × (unshift scancode ≡ 0)
unfolding shift unshift
no_entry scancode h a b c e =
    let out : ltb scancode 0x7f ≡ false = ground arith in rw out (ground arith)

decode_scancode-no_entry :
    (s : KbState) (scancode : ℕ)
    → (shift scancode ≡ 0) × (unshift scancode ≡ 0)
    → decode_scancode s scancode ≡ 0
unfolding decode_scancode isalpha
decode_scancode-no_entry s scancode e = rw (e.0, e.1) (ground arith)

-- A key with a code below 127 is stored.
handle_key-plain :
    (key : ℕ) (d : Driver)
    → key < 127
    → handle_key key d ≡ (add_key key d.kb_state d.keyboard >>= λ k. ok (record d { keyboard = k }))
unfolding handle_key
handle_key-plain key d h = ground arith

-- The code that the keyboard sends when an ordinary key is let go, which is one without an entry in the tables, is
-- stored as an event with key 0.
pub isr_key_press-release :
    (scancode : ℕ) (d : Driver)
    → 0x7f ≤ scancode
    → scancode ≢ 0x9d
    → scancode ≢ 0xaa
    → scancode ≢ 0xb6
    → scancode ≢ 0xb8
    → scancode ≢ 0xe0
    → isr_key_press scancode d ≡ (
        add_key 0 d.kb_state d.keyboard >>= λ k.
        ok (record d { keyboard = k; tty = outb 0x20 0x20 d.tty }))
unfolding isr_key_press
isr_key_press-release scancode d h a b c e f =
    rw
      (
        decode_scancode-no_entry d.kb_state scancode (no_entry scancode h a b c e),
        handle_key-plain 0 d (omega arith),
      )
      (ground arith)

decode_shift :
    (s : KbState)
    → (decode_scancode s 0x2a ≡ key_shift) × (decode_scancode s 0xaa ≡ key_shift_release)
unfolding decode_scancode shift unshift isalpha
decode_shift s = ground arith

press_shift :
    (d : Driver)
    → (isr_key_press 0x2a d
        ≡ ok (record d {
          kb_state = record d.kb_state { shift = true };
          tty = outb 0x20 0x20 d.tty;
        }))
      × (isr_key_press 0xaa d
          ≡ ok (record d {
            kb_state = record d.kb_state { shift = false };
            tty = outb 0x20 0x20 d.tty;
          }))
unfolding isr_key_press handle_key
press_shift d = rw ((decode_shift d.kb_state).0, (decode_shift d.kb_state).1) (refl, refl)

type_letter :
    (scancode : ℕ) (d : Driver) (k : Keyboard)
    → scancode < 0x7f
    → is_letter scancode ≡ true
    → d.kb_state.caps ≡ false
    → d.kb_state.shift ≡ true
    → add_key (shift scancode) d.kb_state d.keyboard ≡ ok k
    → isr_key_press scancode d ≡ ok (record d { keyboard = k; tty = outb 0x20 0x20 d.tty })
unfolding isr_key_press
type_letter scancode d k h e caps sh added =
    let decoded = decode_scancode-letter d.kb_state scancode (omega arith) e in
    let capital : decode_scancode d.kb_state scancode ≡ shift scancode =
      decoded.2 ∙ rw (sh, caps) (unfold xor in refl) in
    rw (capital, handle_key-plain (shift scancode) d (omega (arith, decoded.1)), added)
      (ground (arith, decoded.1))

-- Holding shift and typing a letter, with caps lock off, stores one event, the capital
-- with shift marked, and leaves the modifiers as they were, if the ring takes the event.
isr_key_press-capital :
    (scancode : ℕ) (d : Driver) (k : Keyboard)
    → scancode < 0x7f
    → is_letter scancode ≡ true
    → d.kb_state.caps ≡ false
    → d.kb_state.shift ≡ false
    → add_key (shift scancode) (record d.kb_state { shift = true }) d.keyboard ≡ ok k
    → (isr_key_press 0x2a d >>= λ d₁. isr_key_press scancode d₁ >>= λ d₂. isr_key_press 0xaa d₂)
      ≡ ok (record d { keyboard = k; tty = outb 0x20 0x20 (outb 0x20 0x20 (outb 0x20 0x20 d.tty)) })
isr_key_press-capital scancode d k h e caps sh added =
    let held = record d {
      kb_state = record d.kb_state { shift = true };
      tty = outb 0x20 0x20 d.tty;
    } in
    rw ((press_shift d).0, type_letter scancode held k h e caps refl added, (press_shift _).1)
      (ground arith)
