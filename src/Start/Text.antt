-- ===== src/Start/Text.antt =====
-- The messages of kernel/kernel.c.
use aosis.Base.{
  ℕ, ◌≡◌, refl, arith, Bool, true, false, not, ◌&&◌, List, [], ◌∷◌, append-nil, ◌==◌, ok,
}
use aosis.Terminal.Tty.Bounds.{IsValid}
use aosis.Terminal.Tty.Reach.{tty_printstr_starts}
use aosis.Terminal.Tty.Print.{tty_printstr}
use aosis.Terminal.Tty.Print.Format.{
  Piece, text, IsPlain, AllPlain, format_of, args_of, show, kprintf-pieces,
}
use aosis.Start.Kmain.{Kernel, with_tty, say}

-- Text that `kprintf` copies, as a test.
unfoldable pub is_plain : List ℕ → Bool
is_plain [] = true
is_plain (c ∷ t) = not (c == 0) && not (c == b'%') && is_plain t

pub is_plain_lem : (t : List ℕ) → is_plain t ≡ true → IsPlain t
unfolding is_plain
is_plain_lem [] e = tt
is_plain_lem (c ∷ t) e = (ground (arith, e), ground (arith, e), is_plain_lem t (ground (arith, e)))

-- A `kprintf` of `kmain` with the pieces that it prints.
pub say-pieces :
    (ps : List Piece) (k : Kernel)
    → AllPlain ps
    → say (format_of ps) (args_of ps) k ≡ ok (with_tty (show ps k.pic.interrupts.tty) k)
unfolding say
say-pieces ps k h = rw (kprintf-pieces ps k.pic.interrupts.tty h) refl

-- The kernel after a message.
abbrev pub said : List ℕ → Kernel → Kernel
said t k = with_tty (tty_printstr t k.pic.interrupts.tty) k

-- On a valid terminal a message leaves a valid one.
pub said-IsValid :
    (c : ℕ) (t : List ℕ) (k : Kernel)
    → (c == 0) ≡ false
    → IsValid k.pic.interrupts.tty
    → IsValid (said (c ∷ t) k).pic.interrupts.tty
said-IsValid c t k real v = (tty_printstr_starts c t k.pic.interrupts.tty real v).valid

-- A message without directives.
pub say-plain : (t : List ℕ) (k : Kernel) → is_plain t ≡ true → say t [] k ≡ ok (said t k)
unfolding format_of args_of show
say-plain t k e = rw (append-nil t) at (say-pieces (text t ∷ []) k (is_plain_lem t e, tt))
