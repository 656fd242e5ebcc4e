-- ===== src/Prelude/Text.antt =====
-- The text methods of Python that the program uses, on `String` as a list of characters.
use Prim.Native.Nat.{ℕ, zero, suc, ◌+◌, ◌/◌, ◌%◌}
use Prim.Native.Char.{Char, code}
use mathlib.Core.Bool.{Bool, true, false, ◌&&◌, ◌||◌}
use mathlib.Core.Option.{Option, none, some}
use mathlib.Core.List.{List, [], ◌∷◌, ◌++◌}
use ai_dev_project.Prelude.Tests.{ltb, leb, eqb, if◌then◌else◌}
pub use Prim.Native.String.{String, ◌++◌ as ◌<>◌}

-- `str.isspace` of one code point.
abbrev pub is_space : ℕ → Bool
is_space c =
    (leb 9 c && leb c 13)
    || (leb 28 c && leb c 32)
    || eqb c 133
    || eqb c 160
    || eqb c 5760
    || (leb 8192 c && leb c 8202)
    || eqb c 8232
    || eqb c 8233
    || eqb c 8239
    || eqb c 8287
    || eqb c 12288

abbrev pub is_blank : String → Bool
is_blank String.[] = true
is_blank (String.◌∷◌ c s) = false

abbrev pub strip_left : String → String
strip_left String.[] = ""
strip_left (String.◌∷◌ c s) = if is_space (code c) then strip_left s else String.◌∷◌ c s

abbrev pub strip_right : String → String
strip_right String.[] = ""
strip_right (String.◌∷◌ c s) =
    let rest = strip_right s in if is_space (code c) && is_blank rest then "" else String.◌∷◌ c rest

-- `s.strip()`
unfoldable pub strip : String → String
strip s = strip_right (strip_left s)

-- `s.startswith(prefix)`
unfoldable pub begins_with : String → String → Bool
begins_with s String.[] = true
begins_with String.[] (String.◌∷◌ d t) = false
begins_with (String.◌∷◌ c s) (String.◌∷◌ d t) = eqb (code c) (code d) && begins_with s t

-- `part in s` for texts.
unfoldable pub has_part : String → String → Bool
unfolding begins_with
has_part String.[] part = is_blank part
has_part (String.◌∷◌ c s) part = begins_with (String.◌∷◌ c s) part || has_part s part

-- `char in s` for one code point.
unfoldable pub has_code : ℕ → String → Bool
has_code d String.[] = false
has_code d (String.◌∷◌ c s) = eqb (code c) d || has_code d s

-- `s.endswith(c)` for one character.
unfoldable pub ends_with_code : ℕ → String → Bool
ends_with_code d String.[] = false
ends_with_code d (String.◌∷◌ c s) = if is_blank s then eqb (code c) d else ends_with_code d s

-- `s[:-1]`
unfoldable pub drop_last : String → String
drop_last String.[] = ""
drop_last (String.◌∷◌ c s) = let rest = drop_last s in if is_blank s then "" else String.◌∷◌ c rest

-- `s[n:]`
unfoldable pub drop_chars : ℕ → String → String
drop_chars zero s = s
drop_chars (suc n) String.[] = ""
drop_chars (suc n) (String.◌∷◌ c s) = drop_chars n s

abbrev pub push : Char → List String → List String
push c [] = (String.◌∷◌ c "") ∷ []
push c (w ∷ ws) = (String.◌∷◌ c w) ∷ ws

-- `s.split(sep)` for one separating character.
unfoldable pub split : ℕ → String → List String
split d String.[] = "" ∷ []
split d (String.◌∷◌ c s) = let rest = split d s in if eqb (code c) d then "" ∷ rest else push c rest

-- `sep.join(parts)`
unfoldable pub join : String → List String → String
join sep [] = ""
join sep (w ∷ []) = w
join sep (w ∷ v ∷ ws) = w <> (sep <> join sep (v ∷ ws))

-- `s.encode("utf-8")`
unfoldable pub utf8 : String → List ℕ
utf8 String.[] = []
utf8 (String.◌∷◌ c s) =
    let n = code c in
    (if ltb n 128
      then n ∷ []
      else if ltb n 2048
      then (192 + n / 64) ∷ (128 + n % 64) ∷ []
      else if ltb n 65536
      then (224 + n / 4096) ∷ (128 + n / 64 % 64) ∷ (128 + n % 64) ∷ []
      else (240 + n / 262144) ∷ (128 + n / 4096 % 64) ∷ (128 + n / 64 % 64) ∷ (128 + n % 64) ∷ [])
    ++ utf8 s

-- Whether `s.encode("ascii")` returns.
unfoldable pub is_ascii : String → Bool
is_ascii String.[] = true
is_ascii (String.◌∷◌ c s) = ltb (code c) 128 && is_ascii s

abbrev digit : ℕ → String
digit d =
    if eqb d 0
    then "0"
    else if eqb d 1
    then "1"
    else if eqb d 2
    then "2"
    else if eqb d 3
    then "3"
    else if eqb d 4
    then "4"
    else if eqb d 5
    then "5"
    else if eqb d 6
    then "6"
    else if eqb d 7
    then "7"
    else if eqb d 8
    then "8"
    else "9"

digits_onto : ℕ → ℕ → String → String
digits_onto zero n acc = acc
digits_onto (suc f) n acc =
    let here = digit (n % 10) <> acc in
    let rest = digits_onto f (n / 10) here in if ltb n 10 then here else rest

-- `str(n)`; the digits are fewer than `n + 1`, so the fuel is never spent.
unfoldable pub decimal : ℕ → String
unfolding digits_onto
decimal n = digits_onto (suc n) n ""

-- `f"{n:04d}"`
unfoldable pub decimal4 : ℕ → String
unfolding decimal
decimal4 n =
    (if ltb n 10 then "000" else if ltb n 100 then "00" else if ltb n 1000 then "0" else "")
    <> decimal n

-- `s.rstrip("=")`
unfoldable pub strip_equals : String → String
strip_equals String.[] = ""
strip_equals (String.◌∷◌ c s) =
    let rest = strip_equals s in
    if eqb (code c) b'=' && is_blank rest then "" else String.◌∷◌ c rest

-- `s.rstrip("/")`
unfoldable pub strip_slashes : String → String
strip_slashes String.[] = ""
strip_slashes (String.◌∷◌ c s) =
    let rest = strip_slashes s in
    if eqb (code c) b'/' && is_blank rest then "" else String.◌∷◌ c rest

-- `s[:n]`
unfoldable pub take_chars : ℕ → String → String
take_chars zero s = ""
take_chars (suc n) String.[] = ""
take_chars (suc n) (String.◌∷◌ c s) = String.◌∷◌ c (take_chars n s)

-- `s.find(c)` for one character.
unfoldable pub find_code : ℕ → String → Option ℕ
find_code d String.[] = none
find_code d (String.◌∷◌ c s) =
    let rest = find_code d s in
    if eqb (code c) d then some 0 else elim rest [ none ↦ none | some n ↦ some (suc n) ]

-- `s.rfind(c)` for one character.
unfoldable pub rfind_code : ℕ → String → Option ℕ
rfind_code d String.[] = none
rfind_code d (String.◌∷◌ c s) = elim (rfind_code d s) [
  | some n ↦ some (suc n)
  | none ↦ if eqb (code c) d then some 0 else none
]

-- The line breaks of `str.splitlines`, of which carriage return and line feed together are one.
abbrev is_break : ℕ → Bool
is_break c =
    (leb 10 c && leb c 13) || (leb 28 c && leb c 30) || eqb c 133 || eqb c 8232 || eqb c 8233

abbrev begins_with_feed : String → Bool
begins_with_feed String.[] = false
begins_with_feed (String.◌∷◌ c s) = eqb (code c) 10

-- `s.splitlines()`
unfoldable pub split_lines : String → List String
split_lines String.[] = []
split_lines (String.◌∷◌ c s) =
    let rest = split_lines s in
    if eqb (code c) 13 && begins_with_feed s
    then rest
    else if is_break (code c)
    then "" ∷ rest
    else push c rest

-- `s.replace(c, t)` for one character.
unfoldable pub replace_code : ℕ → String → String → String
replace_code d t String.[] = ""
replace_code d t (String.◌∷◌ c s) =
    (if eqb (code c) d then t else String.◌∷◌ c "") <> replace_code d t s

-- All characters of the text pass the test.
unfoldable pub all_codes : (ℕ → Bool) → String → Bool
all_codes p String.[] = true
all_codes p (String.◌∷◌ c s) = p (code c) && all_codes p s

-- The text has a first character, which passes the test.
abbrev pub first_code_is : (ℕ → Bool) → String → Bool
first_code_is p String.[] = false
first_code_is p (String.◌∷◌ c s) = p (code c)
