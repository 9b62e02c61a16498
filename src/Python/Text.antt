-- ===== src/Python/Text.antt =====
-- Text operations of the program: the characters of a text, its first and last one, and `int(text)`
-- for ASCII texts.
use Prim.Native.Char.{Char, code}
use mathlib.Core.Option
use fiu_data_governance.Prelude.{
  ℕ, ◌+◌, ◌-◌, ◌*◌, String, Bool, true, false, ◌&&◌, ◌||◌, Option, none, some, List, [], ◌∷◌, ◌==◌,
  nat_eq, leb, if◌then◌else◌,
}
use fiu_data_governance.Prelude.Int.{ℤ, pos, ◌-ℤ◌}

-- The one-character texts that `for c in text` yields.
abbrev pub characters : String → List String
characters String.[] = []
characters (String.◌∷◌ c s) = String.◌∷◌ c String.[] ∷ characters s

-- `text[0]`
abbrev pub first_char : String → Option Char
first_char String.[] = none
first_char (String.◌∷◌ c s) = some c

-- `text[1:]`
abbrev pub drop_first : String → String
drop_first String.[] = String.[]
drop_first (String.◌∷◌ c s) = s

-- `text[-1]`, after a first character `c`
abbrev pub last_from : Char → String → Char
last_from c String.[] = c
last_from c (String.◌∷◌ d s) = last_from d s

abbrev pub last_char : String → Option Char
last_char String.[] = none
last_char (String.◌∷◌ c s) = some (last_from c s)

abbrev pub init_from : Char → String → String
init_from c String.[] = String.[]
init_from c (String.◌∷◌ d s) = String.◌∷◌ c (init_from d s)

-- `text[:-1]`
abbrev pub drop_last : String → String
drop_last String.[] = String.[]
drop_last (String.◌∷◌ c s) = init_from c s

abbrev pub is_slash : Char → Bool
is_slash c = code c == b'/'

abbrev pub codes : String → List ℕ
codes String.[] = []
codes (String.◌∷◌ c s) = code c ∷ codes s

abbrev is_digit : ℕ → Bool
is_digit c = leb b'0' c && leb c b'9'

-- What `strip()` takes off, among the ASCII characters.
abbrev is_space : ℕ → Bool
is_space c = (leb 9 c && leb c 13) || (leb 28 c && leb c 32)

abbrev all_spaces : List ℕ → Bool
all_spaces [] = true
all_spaces (c ∷ cs) = is_space c && all_spaces cs

-- Digits, with a single `_` between two of them; `after` says that a digit came just before.
abbrev int_digits : ℕ → Bool → List ℕ → Option ℕ
int_digits acc after [] = if after then some acc else none
int_digits acc after (c ∷ cs) =
    let rest = int_digits (if is_digit c then acc * 10 + (c - b'0') else acc) (is_digit c) cs in
    if is_digit c || (c == b'_' && after)
    then rest
    else if is_space c && after && all_spaces cs
    then some acc
    else none

abbrev int_signed : List ℕ → Option ℤ
int_signed [] = none
int_signed (c ∷ cs) =
    if c == b'-'
    then Option.map (λ n. pos 0 -ℤ pos n) (int_digits 0 false cs)
    else Option.map pos (int_digits 0 false (if c == b'+' then cs else c ∷ cs))

abbrev skip_spaces : List ℕ → List ℕ
skip_spaces [] = []
skip_spaces (c ∷ cs) = let rest = skip_spaces cs in if is_space c then rest else c ∷ cs

-- `int(text)`; `none` is a ValueError.
unfoldable pub parse_int : String → Option ℤ
unfolding ◌-ℤ◌
parse_int s = int_signed (skip_spaces (codes s))
