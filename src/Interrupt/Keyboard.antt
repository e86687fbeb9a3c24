-- ===== src/Interrupt/Keyboard.antt =====
-- kernel/interrupt/keyboard.c: the ring of key events, the modifiers and the keyboard interrupt.
pub mod Layout
pub mod Decode
pub mod Queue
use aosis.Base.{
  ℕ, zero, suc, ◌+◌, ◌-◌, ◌*◌, ◌/◌, ◌%◌, ◌^◌, Bool, true, false, not, ◌&&◌, ◌||◌, Option, none,
  some, List, [], ◌∷◌, ltb, leb, ◌==◌, if◌then◌else◌, length, get_or, set, Result, ok, fault, ◌>>=◌,
}
use mathlib.Core.Bool.{xor}
use aosis.Libc.Ctype.{isalpha, nonzero}
use aosis.Terminal.Tty.{Tty, tty_clear, outb}
use aosis.Interrupt.Keyboard.Layout.{
  unshift, shift, key_shift, key_shift_release, key_capslock, key_ctrl, key_ctrl_release, key_alt,
  key_alt_release, key_delete,
}

-- struct keyboard_state
pub record KbState : Type 0 where
  pub shift : Bool
  pub alt : Bool
  pub ctrl : Bool
  pub caps : Bool
  pub numlock : Bool
  pub scrlock : Bool
  pub esc : Bool

-- struct key
pub record Key : Type 0 where
  pub state : KbState
  pub key : ℕ

-- struct keyboard; `buff` has 4096 places
pub record Keyboard : Type 0 where
  pub buff : List Key
  pub len : ℕ
  pub head : ℕ
  pub tail : ℕ

-- `sizeof(keyboard.buff)`: it counts bytes, and a struct key takes 8 of them.
abbrev pub sizeof_buff : ℕ
sizeof_buff = 4096 * 8

abbrev pub no_key : Key
no_key = record {
  state = record {
    shift = false;
    alt = false;
    ctrl = false;
    caps = false;
    numlock = false;
    scrlock = false;
    esc = false;
  };
  key = 0;
}

-- `want` says that the pointer is not NULL. The key is what is stored through it; a read outside the
-- buffer is undefined.
unfoldable pub kb_get_key : Bool → Keyboard → Result (Bool × Option Key × Keyboard)
kb_get_key want k =
    let k' = record k { head = (k.head + 1) % sizeof_buff; len = k.len - 1 } in
    if k.len == 0
    then ok (false, none, k)
    else if want
    then (if ltb k.head (length k.buff)
        then ok (true, some (get_or k.buff k.head no_key), k')
        else fault)
    else ok (true, none, k')

-- A write outside the buffer is undefined.
unfoldable pub add_key : ℕ → KbState → Keyboard → Result Keyboard
add_key key state k =
    let new : Key = record { state = state; key = key } in
    let k' = record k {
      len = k.len + 1;
      buff = set k.buff k.tail new;
      tail = (k.tail + 1) % sizeof_buff;
    } in
    if ltb k.len sizeof_buff then (if ltb k.tail (length k.buff) then ok k' else fault) else ok k

unfoldable pub decode_scancode : KbState → ℕ → ℕ
decode_scancode s scancode =
    if nonzero (isalpha (shift scancode))
    then (if xor s.shift s.caps then shift scancode else unshift scancode)
    else if s.shift
    then shift scancode
    else unshift scancode

-- The state of the driver, with the terminal that its shortcut clears and whose log has the ports.
pub record Driver : Type 0 where
  pub keyboard : Keyboard
  pub kb_state : KbState
  pub tty : Tty

-- The `switch` of `isr_key_press`
unfoldable pub handle_key : ℕ → Driver → Result Driver
handle_key key d =
    let s = d.kb_state in
    if key == key_shift
    then ok (record d { kb_state = record s { shift = true } })
    else if key == key_shift_release
    then ok (record d { kb_state = record s { shift = false } })
    else if key == key_capslock
    then ok (record d { kb_state = record s { caps = not s.caps } })
    else if key == key_ctrl
    then ok (record d { kb_state = record s { ctrl = true } })
    else if key == key_ctrl_release
    then ok (record d { kb_state = record s { ctrl = false } })
    else if key == key_alt
    then ok (record d { kb_state = record s { alt = true } })
    else if key == key_alt_release
    then ok (record d { kb_state = record s { alt = false } })
    else if key == key_delete
    then ok d
    else (add_key key s d.keyboard >>= λ k. ok (record d { keyboard = k }))

-- `isr_key_press` with the byte that it reads from port 0x60.
unfoldable pub isr_key_press : ℕ → Driver → Result Driver
isr_key_press scancode d =
    let key = decode_scancode d.kb_state scancode in
    if scancode == 0xe0
    then ok d
    else if key == b'l' && d.kb_state.ctrl
    then ok (record d { tty = tty_clear d.tty })
    else (handle_key key d >>= λ d'. ok (record d' { tty = outb 0x20 0x20 d'.tty }))

-- `isr` is the address of `isr_key_press`.
unfoldable pub keyboard_init : ℕ → List ℕ → List ℕ
keyboard_init isr idt_handlers = set idt_handlers 33 isr
