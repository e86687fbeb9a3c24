-- ===== src/Terminal/Tty/Print/Decimal.antt =====
-- The numbers that `tty_printint` of kernel/terminal/tty.c prints, read back.
use aosis.Base.{
  ℕ, zero, suc, ◌+◌, ◌-◌, ◌*◌, ◌/◌, ◌^◌, ◌≤◌, ◌<◌, ◌≡◌, ◌≢◌, refl, ◌∙◌, List, [], ◌∷◌, ◌++◌, arith,
  ◌==◌, if◌then◌else◌, length, length-append, Bool-cases, inl, inr,
}
use native.Mathlib.Nat.{pow-suc}
use aosis.Terminal.Tty.{Tty, tty_putc}
use aosis.Terminal.Tty.Print.{tty_printstr, int_digits, put_digits, tty_printint}

-- Reading decimal text, from the left.
unfoldable pub parse_from : ℕ → List ℕ → ℕ
parse_from acc [] = acc
parse_from acc (c ∷ text) = parse_from (acc * 10 + (c - b'0')) text

abbrev pub AllDigits : List ℕ → Type 0
AllDigits [] = Unit {0}
AllDigits (c ∷ text) = (b'0' ≤ c) × (c ≤ b'9') × AllDigits text

-- The characters that `put_digits` prints, in their order.
text_of : List ℕ → List ℕ
text_of [] = []
text_of (d ∷ ds) = text_of ds ++ ((b'0' + d) ∷ [])

abbrev Below : ℕ → List ℕ → Type 0
Below n [] = Unit {0}
Below n (d ∷ ds) = (d < n) × Below n ds

value : List ℕ → ℕ
value [] = 0
value (d ∷ ds) = value ds * 10 + d

AllDigits-snoc :
    (text : List ℕ) (c : ℕ) → AllDigits text → b'0' ≤ c → c ≤ b'9' → AllDigits (text ++ (c ∷ []))
AllDigits-snoc [] c h p q = (p, q, tt)
AllDigits-snoc (x ∷ text) c h p q = (h.0, h.1, AllDigits-snoc text c h.2 p q)

printstr-snoc :
    (text : List ℕ) (c : ℕ) (s : Tty)
    → AllDigits text
    → c ≢ 0
    → tty_printstr (text ++ (c ∷ [])) s ≡ tty_putc c (tty_printstr text s)
unfolding tty_printstr
printstr-snoc [] c s h p = ground arith
printstr-snoc (x ∷ text) c s h p = ground (arith, printstr-snoc text c (tty_putc x s) h.2 p)

parse_from-snoc :
    (text : List ℕ) (c acc : ℕ)
    → parse_from acc (text ++ (c ∷ [])) ≡ parse_from acc text * 10 + (c - b'0')
unfolding parse_from
parse_from-snoc [] c acc = refl
parse_from-snoc (x ∷ text) c acc = parse_from-snoc text c (acc * 10 + (x - b'0'))

text_of-AllDigits : (ds : List ℕ) → Below 10 ds → AllDigits (text_of ds)
unfolding text_of
text_of-AllDigits [] h = tt
text_of-AllDigits (d ∷ ds) h =
    AllDigits-snoc (text_of ds) (b'0' + d) (text_of-AllDigits ds h.1) (omega arith) (omega arith)

put_digits-text :
    (ds : List ℕ) (s : Tty) → Below 10 ds → put_digits ds s ≡ tty_printstr (text_of ds) s
unfolding put_digits text_of
put_digits-text [] s h = unfold tty_printstr in refl
put_digits-text (d ∷ ds) s h =
    rw
      (
        printstr-snoc (text_of ds) (b'0' + d) s (text_of-AllDigits ds h.1) (omega arith),
        put_digits-text ds s h.1,
      )
      refl

parse_text : (ds : List ℕ) → Below 10 ds → parse_from 0 (text_of ds) ≡ value ds
unfolding text_of value
parse_text [] h = unfold parse_from in refl
parse_text (d ∷ ds) h = omega (arith, parse_from-snoc (text_of ds) (b'0' + d) 0, parse_text ds h.1)

length-text_of : (ds : List ℕ) → length (text_of ds) ≡ length ds
unfolding text_of
length-text_of [] = refl
length-text_of (d ∷ ds) =
    omega (arith, length-append (text_of ds) ((b'0' + d) ∷ []), length-text_of ds)

int_digits-Below : (room num : ℕ) → Below 10 (int_digits room num)
unfolding int_digits
int_digits-Below zero num = tt
int_digits-Below (suc room) num = elim (Bool-cases (num == 0)) [
  | inl e ↦ rw e tt
  | inr e ↦ rw e (omega arith, int_digits-Below room (num / 10))
]

int_digits-value : (room num : ℕ) → num < 2 ^ room → value (int_digits room num) ≡ num
unfolding int_digits value
int_digits-value zero num h = omega arith
int_digits-value (suc room) num h =
    ground (arith, pow-suc 2 room, int_digits-value room (num / 10) (omega (arith, pow-suc 2 room)))

length-int_digits : (room k num : ℕ) → num < 10 ^ k → length (int_digits room num) ≤ k
unfolding int_digits
length-int_digits zero k num h = omega arith
length-int_digits (suc room) zero num h = ground arith
length-int_digits (suc room) (suc k) num h =
    ground (arith, pow-suc 10 k, length-int_digits room k (num / 10) (omega (arith, pow-suc 10 k)))

-- The text that `tty_printint` prints.
unfoldable pub decimal : ℕ → List ℕ
unfolding text_of
decimal num = if num == 0 then b'0' ∷ [] else text_of (int_digits 32 num)

-- `tty_printint` prints each 32-bit number as a text of at most 10 decimal digits that reads back as that
-- number; so it never needs more than 10 of the 32 places of its array.
pub tty_printint-parse :
    (num : ℕ) (s : Tty)
    → num < 2 ^ 32
    → (tty_printint num s ≡ tty_printstr (decimal num) s)
      × AllDigits (decimal num)
      × (length (decimal num) ≤ 10)
      × (parse_from 0 (decimal num) ≡ num)
unfolding tty_printint decimal
tty_printint-parse num s h = elim (Bool-cases (num == 0)) [
  | inl e ↦ rw e (
    unfold tty_printstr in ground arith,
    omega arith,
    omega arith,
    unfold parse_from in ground arith,
  )
  | inr e ↦
      let ds = int_digits 32 num in
      let below = int_digits-Below 32 num in
      rw e (
        put_digits-text ds s below,
        text_of-AllDigits ds below,
        omega (arith, length-text_of ds, length-int_digits 32 10 num (omega arith)),
        parse_text ds below ∙ int_digits-value 32 num h,
      )
]
