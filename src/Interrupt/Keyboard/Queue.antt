-- ===== src/Interrupt/Keyboard/Queue.antt =====
-- The ring of kernel/interrupt/keyboard.c against a queue of key events. Its indices are taken modulo
-- `sizeof(keyboard.buff)`, which counts bytes: it is a queue until its 4096th event is stored, and
-- the event after that one is written outside the buffer.
use aosis.Base.{
  ℕ, zero, suc, ◌+◌, ◌%◌, ◌≤◌, ◌<◌, ◌≡◌, refl, ap, ap₂, ◌∙◌, Bool, true, false, Option, none, some,
  List, [], ◌∷◌, ◌++◌, arith, length, get_or, set, length-set, get_or-set_self, get_or-set_ne,
  Result, ok, fault, ◌>>=◌,
}
use aosis.Interrupt.Keyboard.{KbState, Key, Keyboard, no_key, sizeof_buff, kb_get_key, add_key}

-- The `n` events from place `h` on.
unfoldable pub window : List Key → ℕ → ℕ → List Key
window buff h zero = []
window buff h (suc n) = get_or buff h no_key ∷ window buff (h + 1) n

-- The events that wait, the oldest first.
abbrev pub contents : Keyboard → List Key
contents k = window k.buff k.head k.len

-- The ring has not come round: `tail` counts the events since boot.
pub record IsLinear (k : Keyboard) : Type 0 where
  pub size : length k.buff ≡ 4096
  pub span : k.head + k.len ≡ k.tail
  pub room : k.tail ≤ 4096

abbrev pub event : ℕ → KbState → Key
event key state = record { state = state; key = key }

-- A bounded read of a queue: what `kb_get_key` returns and stores, and what stays.
abbrev pub front : List Key → Bool × Option Key
front [] = (false, none)
front (x ∷ q) = (true, some x)

abbrev pub rest : List Key → List Key
rest [] = []
rest (x ∷ q) = q

window-set :
    (buff : List Key) (i h n : ℕ) (v : Key)
    → h + n ≤ i
    → window (set buff i v) h n ≡ window buff h n
unfolding window
window-set buff i h zero v p = refl
window-set buff i h (suc n) v p =
    ap₂ ◌∷◌ (get_or-set_ne buff i h v no_key (omega arith))
      (window-set buff i (h + 1) n v (omega arith))

window-snoc :
    (buff : List Key) (h n : ℕ)
    → window buff h (suc n) ≡ window buff h n ++ (get_or buff (h + n) no_key ∷ [])
unfolding window
window-snoc buff h zero = ap (λ i. get_or buff i no_key ∷ []) (omega arith)
window-snoc buff h (suc n) =
    ap (λ q. get_or buff h no_key ∷ q)
      (window-snoc buff (h + 1) n
        ∙ ap (λ i. window buff (h + 1) n ++ (get_or buff i no_key ∷ [])) (omega arith))

-- While fewer than 4096 events have come since boot, `add_key` appends its event to the queue, and
-- no event is lost.
pub add_key-append :
    (key : ℕ) (state : KbState) (k : Keyboard)
    → IsLinear k
    → k.tail < 4096
    → (k' : Keyboard) × (add_key key state k ≡ ok k')
      × IsLinear k'
      × (contents k' ≡ contents k ++ (event key state ∷ []))
      × (k'.tail ≡ k.tail + 1)
unfolding add_key
add_key-append key state k v h = (
  added,
  ground (arith, v.size, v.span),
  record {
    size = length-set k.buff k.tail (event key state) ∙ v.size;
    span = omega (arith, v.span);
    room = omega arith;
  },
  appended,
  omega arith,
)
  where
    added : Keyboard
    added = record {
      buff = set k.buff k.tail (event key state);
      len = k.len + 1;
      head = k.head;
      tail = (k.tail + 1) % sizeof_buff;
    }

    appended : contents added ≡ contents k ++ (event key state ∷ [])
    appended =
        ap (window added.buff k.head) (omega arith)
        ∙ window-snoc added.buff k.head k.len
        ∙ ap₂ (λ q x. q ++ (x ∷ []))
            (window-set k.buff k.tail k.head k.len (event key state) (omega (arith, v.span)))
            (ap (λ i. get_or added.buff i no_key) v.span
              ∙ get_or-set_self k.buff k.tail (event key state) no_key (omega (arith, v.size)))

get_key-front :
    (buff : List Key) (len head tail : ℕ)
    → let k : Keyboard = record { buff = buff; len = len; head = head; tail = tail } in
      IsLinear k
      → (k' : Keyboard) × (kb_get_key true k
          ≡ ok ((front (contents k)).0, (front (contents k)).1, k'))
        × IsLinear k'
        × (contents k' ≡ rest (contents k))
        × (k'.tail ≡ k.tail)
unfolding kb_get_key window
get_key-front buff zero head tail v =
    (record { buff = buff; len = 0; head = head; tail = tail }, refl, v, refl, refl)
get_key-front buff (suc n) head tail v =
    let next : (head + 1) % sizeof_buff ≡ head + 1 = omega (arith, v.span, v.room) in
    (
      record { buff = buff; len = n; head = head + 1; tail = tail },
      ground (arith, v.span, v.room, v.size),
      record { size = v.size; span = omega (arith, v.span); room = v.room },
      refl,
      refl,
    )

-- On such a ring `kb_get_key` stores and removes the oldest event, or returns false if there is none.
pub kb_get_key-front :
    (k : Keyboard)
    → IsLinear k
    → (k' : Keyboard) × (kb_get_key true k
        ≡ ok ((front (contents k)).0, (front (contents k)).1, k'))
      × IsLinear k'
      × (contents k' ≡ rest (contents k))
      × (k'.tail ≡ k.tail)
kb_get_key-front k v = get_key-front k.buff k.len k.head k.tail v

add_key-overflows :
    (key : ℕ) (state : KbState) (k : Keyboard)
    → IsLinear k
    → k.tail ≡ 4096
    → add_key key state k ≡ fault
unfolding add_key
add_key-overflows key state k v full = ground (arith, v.size, v.span)

-- The calls of the interrupt handler and of the shell, in any order.
pub data Op : Type 0 where
  press : ℕ → KbState → Op
  read : Op

-- The replies of the reads, from the ring and from the queue.
unfoldable pub run : Keyboard → List Op → Result (List (Bool × Option Key))
run k [] = ok []
run k (press key state ∷ ops) = add_key key state k >>= λ k'. run k' ops
run k (read ∷ ops) =
    kb_get_key true k >>= λ (found, out, k'). run k' ops >>= λ replies. ok ((found, out) ∷ replies)

unfoldable pub run_queue : List Key → List Op → List (Bool × Option Key)
run_queue q [] = []
run_queue q (press key state ∷ ops) = run_queue (q ++ (event key state ∷ [])) ops
run_queue q (read ∷ ops) = front q ∷ run_queue (rest q) ops

unfoldable pub presses : List Op → ℕ
presses [] = 0
presses (press key state ∷ ops) = presses ops + 1
presses (read ∷ ops) = presses ops

-- From a ring that has not come round, and as long as at most 4096 events come since boot, no
-- sequence of key presses and reads faults or returns anything else than an unbounded queue of
-- events does.
pub run_refines :
    (ops : List Op) (k : Keyboard)
    → IsLinear k
    → k.tail + presses ops ≤ 4096
    → run k ops ≡ ok (run_queue (contents k) ops)
unfolding run run_queue presses
run_refines [] k v h = refl
run_refines (press key state ∷ ops) k v h =
    let (k', returns, valid, same, count) = add_key-append key state k v (omega arith) in
    rw (returns, run_refines ops k' valid (omega (arith, count)), same) refl
run_refines (read ∷ ops) k v h =
    let (k', returns, valid, same, count) = kb_get_key-front k v in
    rw (returns, run_refines ops k' valid (omega (arith, count)), same) refl

-- From a ring that has not come round, let a sequence of key presses and reads bring the number of
-- events since boot, which `tail` counts, to 4096, however many of them it reads. Then one more
-- press at its end writes outside the buffer.
pub run-overflows :
    (ops : List Op) (key : ℕ) (state : KbState) (k : Keyboard)
    → IsLinear k
    → k.tail + presses ops ≡ 4096
    → run k (ops ++ (press key state ∷ [])) ≡ fault
unfolding run presses
run-overflows [] key state k v h = rw (add_key-overflows key state k v (omega arith)) refl
run-overflows (press c st ∷ ops) key state k v h =
    let (k', returns, valid, _, count) = add_key-append c st k v (omega arith) in
    rw (returns, run-overflows ops key state k' valid (omega (arith, count))) refl
run-overflows (read ∷ ops) key state k v h =
    let (k', returns, valid, _, count) = kb_get_key-front k v in
    rw (returns, run-overflows ops key state k' valid (omega (arith, count))) refl
