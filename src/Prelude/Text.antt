-- ===== src/Prelude/Text.antt =====
-- Python's `str` operations that the program uses, by recursion on the code points.
pub mod Laws
pub mod Sorted
pub mod Order
use Prim.Native.Nat.{ℕ, zero, suc, ◌+◌, ◌/◌, ◌%◌, Ordering}
use Prim.Native.Char.{Char, code}
use Prim.Native.String.{String, ◌++◌, compare}
use mathlib.Core.Bool.{Bool, true, false, ◌&&◌, ◌||◌}
use mathlib.Core.List.{List, [], ◌∷◌}
use enterprise_databrick_fra.Prelude.Tests.{leb, ltb, is_zero, if◌then◌else◌}

abbrev pub between : ℕ → ℕ → ℕ → Bool
between lo hi c = leb lo c && leb c hi

pub in_ranges : List (ℕ × ℕ) → ℕ → Bool
in_ranges [] c = false
in_ranges ((lo, hi) ∷ rest) c = between lo hi c || in_ranges rest c

-- The code points of `str.isspace`.
abbrev pub space_ranges : List (ℕ × ℕ)
space_ranges =
    (9, 13)
    ∷ (28, 32)
    ∷ (133, 133)
    ∷ (160, 160)
    ∷ (5760, 5760)
    ∷ (8192, 8202)
    ∷ (8232, 8233)
    ∷ (8239, 8239)
    ∷ (8287, 8287)
    ∷ (12288, 12288)
    ∷ []

-- The code points of `str.isdigit`, as in Unicode 14.
abbrev pub digit_ranges : List (ℕ × ℕ)
digit_ranges =
    (48, 57)
    ∷ (178, 179)
    ∷ (185, 185)
    ∷ (1632, 1641)
    ∷ (1776, 1785)
    ∷ (1984, 1993)
    ∷ (2406, 2415)
    ∷ (2534, 2543)
    ∷ (2662, 2671)
    ∷ (2790, 2799)
    ∷ (2918, 2927)
    ∷ (3046, 3055)
    ∷ (3174, 3183)
    ∷ (3302, 3311)
    ∷ (3430, 3439)
    ∷ (3558, 3567)
    ∷ (3664, 3673)
    ∷ (3792, 3801)
    ∷ (3872, 3881)
    ∷ (4160, 4169)
    ∷ (4240, 4249)
    ∷ (4969, 4977)
    ∷ (6112, 6121)
    ∷ (6160, 6169)
    ∷ (6470, 6479)
    ∷ (6608, 6618)
    ∷ (6784, 6793)
    ∷ (6800, 6809)
    ∷ (6992, 7001)
    ∷ (7088, 7097)
    ∷ (7232, 7241)
    ∷ (7248, 7257)
    ∷ (8304, 8304)
    ∷ (8308, 8313)
    ∷ (8320, 8329)
    ∷ (9312, 9320)
    ∷ (9332, 9340)
    ∷ (9352, 9360)
    ∷ (9450, 9450)
    ∷ (9461, 9469)
    ∷ (9471, 9471)
    ∷ (10102, 10110)
    ∷ (10112, 10120)
    ∷ (10122, 10130)
    ∷ (42528, 42537)
    ∷ (43216, 43225)
    ∷ (43264, 43273)
    ∷ (43472, 43481)
    ∷ (43504, 43513)
    ∷ (43600, 43609)
    ∷ (44016, 44025)
    ∷ (65296, 65305)
    ∷ (66720, 66729)
    ∷ (68160, 68163)
    ∷ (68912, 68921)
    ∷ (69216, 69224)
    ∷ (69714, 69722)
    ∷ (69734, 69743)
    ∷ (69872, 69881)
    ∷ (69942, 69951)
    ∷ (70096, 70105)
    ∷ (70384, 70393)
    ∷ (70736, 70745)
    ∷ (70864, 70873)
    ∷ (71248, 71257)
    ∷ (71360, 71369)
    ∷ (71472, 71481)
    ∷ (71904, 71913)
    ∷ (72016, 72025)
    ∷ (72784, 72793)
    ∷ (73040, 73049)
    ∷ (73120, 73129)
    ∷ (92768, 92777)
    ∷ (92864, 92873)
    ∷ (93008, 93017)
    ∷ (120782, 120831)
    ∷ (123200, 123209)
    ∷ (123632, 123641)
    ∷ (125264, 125273)
    ∷ (127232, 127242)
    ∷ (130032, 130041)
    ∷ []

-- `not s`
abbrev pub is_empty : String → Bool
is_empty String.[] = true
is_empty (String.◌∷◌ c s) = false

-- `not s.strip()`
unfoldable pub is_blank : String → Bool
unfolding in_ranges
is_blank String.[] = true
is_blank (String.◌∷◌ c s) = in_ranges space_ranges (code c) && is_blank s

all_digits : String → Bool
unfolding in_ranges
all_digits String.[] = true
all_digits (String.◌∷◌ c s) = in_ranges digit_ranges (code c) && all_digits s

-- `s.isdigit()`
unfoldable pub is_digits : String → Bool
unfolding all_digits
is_digits String.[] = false
is_digits (String.◌∷◌ c s) = all_digits (String.◌∷◌ c s)

-- The class [A-Za-z_].
abbrev pub is_name_start : ℕ → Bool
is_name_start c = between 65 90 c || between 97 122 c || between 95 95 c

-- The class [A-Za-z0-9_].
abbrev pub is_name_char : ℕ → Bool
is_name_char c = is_name_start c || between 48 57 c

unfoldable pub all_name_chars : String → Bool
all_name_chars String.[] = true
all_name_chars (String.◌∷◌ c s) = is_name_char (code c) && all_name_chars s

-- A full match of ^[A-Za-z_][A-Za-z0-9_]*$.
unfoldable pub is_identifier : String → Bool
unfolding all_name_chars
is_identifier String.[] = false
is_identifier (String.◌∷◌ c s) = is_name_start (code c) && all_name_chars s

abbrev pub cons_first : Char → List String → List String
cons_first c [] = String.◌∷◌ c String.[] ∷ []
cons_first c (part ∷ parts) = String.◌∷◌ c part ∷ parts

-- `s.split(".")`
unfoldable pub split_dots : String → List String
split_dots String.[] = String.[] ∷ []
split_dots (String.◌∷◌ c s) =
    let parts = split_dots s in
    if between 46 46 (code c) then String.[] ∷ parts else cons_first c parts

-- `separator.join(parts)`
unfoldable pub join : String → List String → String
join separator [] = String.[]
join separator (part ∷ []) = part
join separator (part ∷ parts) = part ++ (separator ++ join separator parts)

-- re.sub(r"[^A-Za-z0-9_]", "_", s)
unfoldable pub replace_others : String → String
replace_others String.[] = String.[]
replace_others (String.◌∷◌ c s) =
    String.◌∷◌ (if is_name_char (code c) then c else "_") (replace_others s)

abbrev digit_text : ℕ → String
digit_text d =
    if leb d 0
    then "0"
    else if leb d 1
    then "1"
    else if leb d 2
    then "2"
    else if leb d 3
    then "3"
    else if leb d 4
    then "4"
    else if leb d 5
    then "5"
    else if leb d 6
    then "6"
    else if leb d 7
    then "7"
    else if leb d 8
    then "8"
    else "9"

-- The decimal digits of a number below 10 ^ fuel, in front of a text.
decimal_onto : ℕ → ℕ → String → String
decimal_onto zero n rest = rest
decimal_onto (suc fuel) n rest =
    let more = decimal_onto fuel (n / 10) (digit_text (n % 10) ++ rest) in
    if ltb n 10 then digit_text n ++ rest else more

-- `str(n)`; a number has no more digits than n + 1.
unfoldable pub decimal : ℕ → String
unfolding decimal_onto
decimal n = decimal_onto (suc n) n String.[]

insert_sorted : String → List String → List String
insert_sorted s [] = s ∷ []
insert_sorted s (t ∷ ts) =
    let rest = insert_sorted s ts in elim (compare s t) [ Ordering.gt ↦ t ∷ rest | _ ↦ s ∷ t ∷ ts ]

-- `sorted(texts)`
unfoldable pub sorted : List String → List String
unfolding insert_sorted
sorted [] = []
sorted (s ∷ ss) = insert_sorted s (sorted ss)
