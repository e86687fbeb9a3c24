-- ===== src/Interrupt/Keyboard/Layout.antt =====
-- include/kernel/interrupt/keyboard.h and keyboard_lut.h: the key codes, and the two tables from
-- scan codes to key codes.
use aosis.Base.{ℕ, List, [], ◌∷◌, ltb, ◌==◌, ◌||◌, if◌then◌else◌, get_or}

-- enum KEYCODE; a character stands for its own code.
abbrev pub key_backspace : ℕ
key_backspace = 8

abbrev pub key_tab : ℕ
key_tab = 9

abbrev pub key_enter : ℕ
key_enter = 10

abbrev pub key_escape : ℕ
key_escape = 27

abbrev pub key_delete : ℕ
key_delete = 127

abbrev pub key_shift : ℕ
key_shift = 0x80

abbrev pub key_shift_release : ℕ
key_shift_release = 0x81

abbrev pub key_capslock : ℕ
key_capslock = 0x82

abbrev pub key_capslock_release : ℕ
key_capslock_release = 0x83

abbrev pub key_ctrl : ℕ
key_ctrl = 0x84

abbrev pub key_ctrl_release : ℕ
key_ctrl_release = 0x85

abbrev pub key_alt : ℕ
key_alt = 0x86

abbrev pub key_alt_release : ℕ
key_alt_release = 0x87

abbrev pub key_prtscr : ℕ
key_prtscr = 0x88

abbrev pub key_numlock : ℕ
key_numlock = 0x89

abbrev pub key_scrlock : ℕ
key_scrlock = 0x8a

abbrev pub key_insert : ℕ
key_insert = 0x8b

abbrev pub key_end : ℕ
key_end = 0x8c

abbrev pub key_down : ℕ
key_down = 0x8d

abbrev pub key_pgdwn : ℕ
key_pgdwn = 0x8e

abbrev pub key_left : ℕ
key_left = 0x8f

abbrev pub key_center : ℕ
key_center = 0x90

abbrev pub key_right : ℕ
key_right = 0x91

abbrev pub key_home : ℕ
key_home = 0x92

abbrev pub key_up : ℕ
key_up = 0x93

abbrev pub key_pgup : ℕ
key_pgup = 0x94

abbrev pub key_f1 : ℕ
key_f1 = 0x95

abbrev pub key_f2 : ℕ
key_f2 = 0x96

abbrev pub key_f3 : ℕ
key_f3 = 0x97

abbrev pub key_f4 : ℕ
key_f4 = 0x98

abbrev pub key_f5 : ℕ
key_f5 = 0x99

abbrev pub key_f6 : ℕ
key_f6 = 0x9a

abbrev pub key_f7 : ℕ
key_f7 = 0x9b

abbrev pub key_f8 : ℕ
key_f8 = 0x9c

abbrev pub key_f9 : ℕ
key_f9 = 0x9d

abbrev pub key_f10 : ℕ
key_f10 = 0x9e

abbrev pub key_f11 : ℕ
key_f11 = 0x9f

abbrev pub key_f12 : ℕ
key_f12 = 0xa0

abbrev pub key_scanesc : ℕ
key_scanesc = 0xa1

abbrev pub key_ignore : ℕ
key_ignore = 0xa2

-- ps2_layout.unshift for the scan codes 0x00 to 0x7e
abbrev unshift_codes : List ℕ
unshift_codes =
    key_ignore ∷ key_escape ∷ 49 ∷ 50 ∷ 51 ∷ 52 ∷ 53 ∷ 54 ∷ 55 ∷ 56 ∷ 57 ∷ 48 ∷ 45 ∷ 61
    ∷ key_backspace ∷ key_tab ∷ 113 ∷ 119 ∷ 101 ∷ 114 ∷ 116 ∷ 121 ∷ 117 ∷ 105 ∷ 111 ∷ 112 ∷ 91 ∷ 93
    ∷ key_enter ∷ key_ctrl ∷ 97 ∷ 115 ∷ 100 ∷ 102 ∷ 103 ∷ 104 ∷ 106 ∷ 107 ∷ 108 ∷ 59 ∷ 39 ∷ 96
    ∷ key_shift ∷ 92 ∷ 122 ∷ 120 ∷ 99 ∷ 118 ∷ 98 ∷ 110 ∷ 109 ∷ 44 ∷ 46 ∷ 47 ∷ key_shift ∷ 42
    ∷ key_alt ∷ 32 ∷ key_capslock ∷ key_f1 ∷ key_f2 ∷ key_f3 ∷ key_f4 ∷ key_f5 ∷ key_f6 ∷ key_f7
    ∷ key_f8 ∷ key_f9 ∷ key_f10 ∷ key_numlock ∷ key_scrlock ∷ key_home ∷ key_up ∷ key_pgup ∷ 45
    ∷ key_left ∷ key_center ∷ key_right ∷ 43 ∷ key_end ∷ key_down ∷ key_pgdwn ∷ key_insert
    ∷ key_delete ∷ key_ignore ∷ key_ignore ∷ key_ignore ∷ key_f11 ∷ key_f12 ∷ key_ignore
    ∷ key_ignore ∷ key_ignore ∷ key_ignore ∷ key_ignore ∷ key_ignore ∷ key_scanesc ∷ key_scanesc
    ∷ key_ignore ∷ key_ignore ∷ key_ignore ∷ key_ignore ∷ key_ignore ∷ key_ignore ∷ key_ignore
    ∷ key_ignore ∷ key_ignore ∷ key_ignore ∷ key_ignore ∷ key_ignore ∷ key_ignore ∷ key_ignore
    ∷ key_ignore ∷ key_ignore ∷ key_ignore ∷ key_ignore ∷ key_ignore ∷ key_ignore ∷ key_ignore
    ∷ key_ignore ∷ key_ignore ∷ key_ignore ∷ key_ignore ∷ key_ignore ∷ key_ignore ∷ key_ignore
    ∷ key_ignore ∷ key_ignore ∷ []

-- ps2_layout.shift for the scan codes 0x00 to 0x7e
abbrev shift_codes : List ℕ
shift_codes =
    key_ignore ∷ key_escape ∷ 33 ∷ 64 ∷ 35 ∷ 36 ∷ 37 ∷ 94 ∷ 38 ∷ 42 ∷ 40 ∷ 41 ∷ 95 ∷ 43
    ∷ key_backspace ∷ key_tab ∷ 81 ∷ 87 ∷ 69 ∷ 82 ∷ 84 ∷ 89 ∷ 85 ∷ 73 ∷ 79 ∷ 80 ∷ 123 ∷ 125
    ∷ key_enter ∷ key_ctrl ∷ 65 ∷ 83 ∷ 68 ∷ 70 ∷ 71 ∷ 72 ∷ 74 ∷ 75 ∷ 76 ∷ 58 ∷ 34 ∷ 126 ∷ key_shift
    ∷ 124 ∷ 90 ∷ 88 ∷ 67 ∷ 86 ∷ 66 ∷ 78 ∷ 77 ∷ 60 ∷ 62 ∷ 63 ∷ key_shift ∷ 42 ∷ key_alt ∷ 32
    ∷ key_capslock ∷ key_f1 ∷ key_f2 ∷ key_f3 ∷ key_f4 ∷ key_f5 ∷ key_f6 ∷ key_f7 ∷ key_f8 ∷ key_f9
    ∷ key_f10 ∷ key_numlock ∷ key_scrlock ∷ key_home ∷ key_up ∷ key_pgup ∷ 45 ∷ key_left
    ∷ key_center ∷ key_right ∷ 43 ∷ key_end ∷ key_down ∷ key_pgdwn ∷ key_insert ∷ key_delete
    ∷ key_ignore ∷ key_ignore ∷ key_ignore ∷ key_f11 ∷ key_f12 ∷ key_ignore ∷ key_ignore
    ∷ key_ignore ∷ key_ignore ∷ key_ignore ∷ key_ignore ∷ key_scanesc ∷ key_scanesc ∷ key_ignore
    ∷ key_ignore ∷ key_ignore ∷ key_ignore ∷ key_ignore ∷ key_ignore ∷ key_ignore ∷ key_ignore
    ∷ key_ignore ∷ key_ignore ∷ key_ignore ∷ key_ignore ∷ key_ignore ∷ key_ignore ∷ key_ignore
    ∷ key_ignore ∷ key_ignore ∷ key_ignore ∷ key_ignore ∷ key_ignore ∷ key_ignore ∷ key_ignore
    ∷ key_ignore ∷ key_ignore ∷ key_ignore ∷ key_ignore ∷ key_ignore ∷ key_ignore ∷ key_ignore
    ∷ key_ignore ∷ []

-- ps2_layout.unshift, whose entries without an initialiser are 0
unfoldable pub unshift : ℕ → ℕ
unshift scancode =
    if ltb scancode 0x7f
    then get_or unshift_codes scancode 0
    else if scancode == 0x9d
    then key_ctrl_release
    else if scancode == 0xaa || scancode == 0xb6
    then key_shift_release
    else if scancode == 0xb8
    then key_alt_release
    else 0

-- ps2_layout.shift
unfoldable pub shift : ℕ → ℕ
shift scancode =
    if ltb scancode 0x7f
    then get_or shift_codes scancode 0
    else if scancode == 0x9d
    then key_ctrl_release
    else if scancode == 0xaa || scancode == 0xb6
    then key_shift_release
    else if scancode == 0xb8
    then key_alt_release
    else 0
