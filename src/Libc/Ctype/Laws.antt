-- ===== src/Libc/Ctype/Laws.antt =====
-- What the character tests of libc/ctype decide, against the classes of the C locale.
use aosis.Base.{ℕ, ◌+◌, ◌<◌, ◌≡◌, ◌&&◌, ◌||◌, arith, leb, ◌==◌, if◌then◌else◌}
use aosis.Libc.Ctype.{
  isalpha, isdigit, isalnum, isxdigit, isprint, isgraph, ispunct, iscntrl, nonzero,
}

-- The digit test holds of every character, and with it `isalnum`; so `isxdigit` returns 0 for
-- every character.
isdigit-always : (c : ℕ) → (isdigit c ≡ 1) × (isalnum c ≡ 1) × (isxdigit c ≡ 0)
unfolding isdigit isalnum isxdigit isalpha
isdigit-always c = ground arith

-- The ASCII characters fall into the classes of the C locale as the return values of these tests
-- say, where 0 means a member: each character is a control character or a printing one and not
-- both, the printing ones are the space and those of `isgraph`, and the latter are the letters, the
-- digits, those of `ispunct`, and the characters from `[` to the grave accent, which C also
-- counts as punctuation and `ispunct` leaves out.
ctype_classes :
    (c : ℕ)
    → c < 128
    → (iscntrl c + isprint c ≡ 1)
      × (isprint c ≡ (if c == b' ' then 0 else isgraph c))
      × (isgraph c ≡ (
          if (nonzero (isalpha c) || (leb b'0' c && leb c b'9')) || (leb 91 c && leb c 96)
          then 0
          else ispunct c))
unfolding isalpha ispunct iscntrl isprint isgraph
ctype_classes c h = ground arith
