-- ===== src/Prelude/Texts.antt =====
-- The operations of Python's `str` that the program uses, on native texts.
use Prim.Native.Nat.{ℕ, zero, suc, ◌-◌}
use Prim.Native.Char.{Char, code}
use Prim.Native.String.{String, ◌++◌ as ◌<>◌}
use mathlib.Core.Bool.{Bool, true, false, ◌&&◌, ◌||◌}
use mathlib.Core.Option
use mathlib.Core.Option.{Option, none, some}
use mathlib.Core.List.{List, [], ◌∷◌}
use text.Mathlib.Text.{◌==◌ as str_eq}
use liqi_platform.Prelude.Tests.{leb, nat_beq, if◌then◌else◌}

-- `len(s)`
abbrev pub size : String → ℕ
size String.[] = 0
size (String.◌∷◌ c s) = suc (size s)

-- `s[:n]`
unfoldable pub prefix : ℕ → String → String
prefix zero s = ""
prefix (suc n) String.[] = ""
prefix (suc n) (String.◌∷◌ c s) = String.◌∷◌ c (prefix n s)

-- `s[n:]`
unfoldable pub suffix : ℕ → String → String
suffix zero s = s
suffix (suc n) String.[] = ""
suffix (suc n) (String.◌∷◌ c s) = suffix n s

-- `s[-n:]`, for n > 0
abbrev pub last_part : ℕ → String → String
last_part n s = suffix (size s - n) s

-- `str.isspace` of one character
abbrev pub is_space : Char → Bool
is_space c =
    let n = code c in
    (leb 9 n && leb n 13)
    || (leb 28 n && leb n 32)
    || nat_beq n 133
    || nat_beq n 160
    || nat_beq n 5760
    || (leb 8192 n && leb n 8202)
    || nat_beq n 8232
    || nat_beq n 8233
    || nat_beq n 8239
    || nat_beq n 8287
    || nat_beq n 12288

-- `s.lstrip()`
unfoldable pub left_strip : String → String
left_strip String.[] = ""
left_strip (String.◌∷◌ c s) = let rest = left_strip s in if is_space c then rest else String.◌∷◌ c s

abbrev is_blank : String → Bool
is_blank String.[] = true
is_blank _ = false

-- `s.rstrip()`
unfoldable pub right_strip : String → String
right_strip String.[] = ""
right_strip (String.◌∷◌ c s) =
    let rest = right_strip s in if is_space c && is_blank rest then "" else String.◌∷◌ c rest

-- `s.strip()`
unfoldable pub strip : String → String
unfolding left_strip right_strip
strip s = left_strip (right_strip s)

-- `a or b` of two texts
abbrev pub or_text : String → String → String
or_text String.[] b = b
or_text a b = a

-- `sep.join(parts)`
unfoldable pub join : String → List String → String
join sep [] = ""
join sep (s ∷ []) = s
join sep (s ∷ t ∷ rest) = s <> sep <> join sep (t ∷ rest)

-- `s.startswith(p)`
abbrev pub starts_with : String → String → Bool
starts_with String.[] s = true
starts_with (String.◌∷◌ c p) String.[] = false
starts_with (String.◌∷◌ c p) (String.◌∷◌ d s) = nat_beq (code c) (code d) && starts_with p s

-- `part in s`
abbrev pub occurs : String → String → Bool
occurs part String.[] = is_blank part
occurs part (String.◌∷◌ c s) = starts_with part (String.◌∷◌ c s) || occurs part s

-- `s.replace(old, new)` for an `old` that is not empty, after `skip` characters that stand in a match.
unfoldable pub replace_from : ℕ → String → String → String → String
replace_from skip old new String.[] = ""
replace_from (suc skip) old new (String.◌∷◌ c s) = replace_from skip old new s
replace_from zero old new (String.◌∷◌ c s) =
    let matched = replace_from (size old - 1) old new s in
    let unmatched = replace_from 0 old new s in
    if starts_with old (String.◌∷◌ c s) then new <> matched else String.◌∷◌ c unmatched

unfoldable pub replace : String → String → String → String
unfolding replace_from
replace old new s = replace_from 0 old new s

-- `s.split(sep, 1)`: what stands before the first `sep` and after it.
unfoldable pub cut : String → String → Option (String × String)
cut sep String.[] = none
cut sep (String.◌∷◌ c s) =
    let later = Option.map (λ (r : String × String). (String.◌∷◌ c r.0, r.1)) (cut sep s) in
    if starts_with sep (String.◌∷◌ c s)
    then some ("", suffix (size sep) (String.◌∷◌ c s))
    else later

abbrev on_first : Char → List String → List String
on_first c [] = String.◌∷◌ c "" ∷ []
on_first c (s ∷ rest) = String.◌∷◌ c s ∷ rest

-- `s.split(sep)`, after `skip` characters that stand in a separator.
unfoldable pub split_from : ℕ → String → String → List String
split_from skip sep String.[] = "" ∷ []
split_from (suc skip) sep (String.◌∷◌ c s) = split_from skip sep s
split_from zero sep (String.◌∷◌ c s) =
    let after = split_from (size sep - 1) sep s in
    let further = split_from 0 sep s in
    if starts_with sep (String.◌∷◌ c s) then "" ∷ after else on_first c further

unfoldable pub split : String → String → List String
unfolding split_from
split sep s = split_from 0 sep s

abbrev char_at : ℕ → String → Char → Char
char_at n String.[] c = c
char_at zero (String.◌∷◌ d s) c = d
char_at (suc n) (String.◌∷◌ d s) c = char_at n s c

-- `s.lower()` on ASCII letters; the others stay.
unfoldable pub lower : String → String
lower String.[] = ""
lower (String.◌∷◌ c s) =
    let rest = lower s in
    if leb b'A' (code c) && leb (code c) b'Z'
    then String.◌∷◌ (char_at (code c - b'A') "abcdefghijklmnopqrstuvwxyz" c) rest
    else String.◌∷◌ c rest

-- The first word of `s.split()`, and what stands behind it.
unfoldable pub word : String → String
word String.[] = ""
word (String.◌∷◌ c s) = let rest = word s in if is_space c then "" else String.◌∷◌ c rest

unfoldable pub after_word : String → String
after_word String.[] = ""
after_word (String.◌∷◌ c s) = let rest = after_word s in if is_space c then String.◌∷◌ c s else rest

-- `s.split()[0]`, and the empty text where there is no word.
unfoldable pub first_word : String → String
unfolding left_strip word
first_word s = word (left_strip s)

-- `s.removesuffix(suffix)`
unfoldable pub remove_suffix : String → String → String
remove_suffix end String.[] = ""
remove_suffix end (String.◌∷◌ c s) =
    let rest = remove_suffix end s in if str_eq (String.◌∷◌ c s) end then "" else String.◌∷◌ c rest

-- `s.lstrip("*")`
unfoldable pub strip_stars : String → String
strip_stars String.[] = ""
strip_stars (String.◌∷◌ c s) =
    let rest = strip_stars s in if nat_beq (code c) b'*' then rest else String.◌∷◌ c s

abbrev is_return : Char → Bool
is_return c = nat_beq (code c) 13

abbrev is_break : Char → Bool
is_break c =
    let n = code c in
    (leb 10 n && leb n 13)
    || (leb 28 n && leb n 30)
    || nat_beq n 133
    || nat_beq n 8232
    || nat_beq n 8233

-- A line feed behind a carriage return ends no line of its own.
abbrev is_same_break : Bool → Char → Bool
is_same_break after_return c = after_return && nat_beq (code c) 10

-- The lines with the one at the front closed: `none` where nothing follows the last break.
abbrev close_line : Option String → List String → List String
close_line none rest = []
close_line (some s) rest = s ∷ rest

abbrev extend_line : Char → Option String → String
extend_line c none = String.◌∷◌ c ""
extend_line c (some s) = String.◌∷◌ c s

-- The line at the front, and the ones behind it.
unfoldable pub line_parts : Bool → String → Option String × List String
line_parts r String.[] = (none, [])
line_parts r (String.◌∷◌ c s) =
    let (first, rest) = line_parts (is_return c) s in
    if is_same_break r c
    then (first, rest)
    else if is_break c
    then (some "", close_line first rest)
    else (some (extend_line c first), rest)

-- `s.splitlines()`
unfoldable pub split_lines : String → List String
unfolding line_parts
split_lines s = let (first, rest) = line_parts false s in close_line first rest
