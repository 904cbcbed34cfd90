-- ===== src/Prelude/Text.antt =====
-- Python's texts: `lower`, `in`, `strip`, `str` of a number, and `join`. Letters outside ASCII are left
-- as they are by `lower`; the program's vocabularies are ASCII.
use Prim.Native.Char.{Char, code}
use Prim.Native.String.{String, ◌++◌, char_at}
use Prim.Native.Nat.{ℕ, zero, suc, ◌+◌, ◌-◌, ◌/◌, ◌%◌}
use mathlib.Core.Bool.{Bool, true, false, ◌&&◌, ◌||◌}
use mathlib.Core.List.{List, [], ◌∷◌}
use mathlib.Core.Option.{Option, none, some}
use text.Mathlib.Text.{◌==◌ as str_eq, find?}
use decentralized_agentic_re.Prelude.Tests.{leb, ltb, ◌==◌, is_some, if◌then◌else◌}
use decentralized_agentic_re.Prelude.Int.{ℤ, pos, negsuc}

lower_char : Char → Char
lower_char c =
    if leb b'A' (code c) && leb (code c) b'Z'
    then char_at "abcdefghijklmnopqrstuvwxyz" (code c - b'A')
    else c

-- `s.lower()`
unfoldable pub lower : String → String
unfolding lower_char
lower String.[] = ""
lower (String.◌∷◌ c s) = String.◌∷◌ (lower_char c) (lower s)

-- `part in s`
abbrev pub has_part : String → String → Bool
has_part part s = is_some (find? s part)

between : ℕ → ℕ → ℕ → Bool
between a b n = leb a n && leb n b

-- The characters that `str.strip` takes off, by their code points.
space_code : ℕ → Bool
unfolding between
space_code n =
    between 9 13 n
    || between 28 32 n
    || n == 133
    || n == 160
    || n == 5760
    || between 8192 8202 n
    || between 8232 8233 n
    || n == 8239
    || n == 8287
    || n == 12288

is_space : Char → Bool
unfolding space_code
is_space c = space_code (code c)

-- `not s.strip()`
unfoldable pub is_blank : String → Bool
unfolding is_space
is_blank String.[] = true
is_blank (String.◌∷◌ c s) = is_space c && is_blank s

-- `s.lstrip()`, `s.rstrip()` and `s.strip()`
lstrip : String → String
lstrip String.[] = ""
lstrip (String.◌∷◌ c s) = if is_space c then lstrip s else String.◌∷◌ c s

keep_char : Char → String → String
keep_char c rest = if is_space c && str_eq rest "" then "" else String.◌∷◌ c rest

rstrip : String → String
unfolding keep_char
rstrip String.[] = ""
rstrip (String.◌∷◌ c s) = keep_char c (rstrip s)

unfoldable pub strip : String → String
unfolding lstrip rstrip is_space
strip s = rstrip (lstrip s)

-- `len(s)`
abbrev pub text_length : String → ℕ
text_length String.[] = 0
text_length (String.◌∷◌ c s) = suc (text_length s)

-- `s in (a, b, ...)`
abbrev pub one_of : String → List String → Bool
one_of s [] = false
one_of s (a ∷ as_) = str_eq s a || one_of s as_

infixr 66 ◌<>◌
abbrev pub ◌<>◌ : String → String → String
s <> t = s ++ t

-- `a or b`
abbrev pub text_or : String → String → String
text_or a b = if str_eq a "" then b else a

-- `sep.join(parts)`
unfoldable pub join : String → List String → String
join sep [] = ""
join sep (p ∷ []) = p
join sep (p ∷ q ∷ r) = p <> sep <> join sep (q ∷ r)

digit : ℕ → Char
digit n = char_at "0123456789" n

-- The digits of `n`, in front of what follows; `n + 1` rounds are more than it has digits.
print : ℕ → ℕ → String → String
print zero n rest = rest
print (suc f) n rest =
    let front = print f (n / 10) (String.◌∷◌ (digit (n % 10)) rest) in
    if leb n 9 then String.◌∷◌ (digit n) rest else front

-- `str(n)`
unfoldable pub show : ℤ → String
unfolding print digit
show (pos n) = print (suc n) n ""
show (negsuc n) = "-" <> print (suc (suc n)) (suc n) ""

-- The nearest hundredth of `n` billionths; a tie goes to the even one.
round_hundredths : ℕ → ℕ
round_hundredths n =
    let q = n / 10000000 in
    let r = n % 10000000 in if ltb 5000000 r || (r == 5000000 && q % 2 == 1) then q + 1 else q

-- `f"{x:.2f}"` of a number in billionths
unfoldable pub show_2f : ℤ → String
unfolding print digit round_hundredths
show_2f (pos n) =
    let h = round_hundredths n in
    print (suc h) (h / 100) ""
    <> "."
    <> String.◌∷◌ (digit (h / 10 % 10)) (String.◌∷◌ (digit (h % 10)) "")
show_2f (negsuc n) =
    let h = round_hundredths (suc n) in
    "-"
    <> print (suc h) (h / 100) ""
    <> "."
    <> String.◌∷◌ (digit (h / 10 % 10)) (String.◌∷◌ (digit (h % 10)) "")

-- The nearest tenth of `n` billionths; a tie goes to the even one.
round_tenths : ℕ → ℕ
round_tenths n =
    let q = n / 100000000 in
    let r = n % 100000000 in if ltb 50000000 r || (r == 50000000 && q % 2 == 1) then q + 1 else q

-- `f"{x:.1f}"` of a number in billionths that is not negative
unfoldable pub show_1f : ℕ → String
unfolding print digit round_tenths
show_1f n =
    let h = round_tenths n in print (suc h) (h / 10) "" <> "." <> String.◌∷◌ (digit (h % 10)) ""

-- `list(dict.fromkeys(xs))`, with what was `seen` left out: the first of equal texts stays.
abbrev pub distinct_from : List String → List String → List String
distinct_from seen [] = []
distinct_from seen (x ∷ xs) =
    if one_of x seen then distinct_from seen xs else x ∷ distinct_from (x ∷ seen) xs

-- The parts that are not empty.
abbrev pub nonempty : List String → List String
nonempty [] = []
nonempty (p ∷ ps) = if str_eq p "" then nonempty ps else p ∷ nonempty ps

-- `d.get(key)` of a dict keyed by texts.
unfoldable pub entry {ℓ} : {V : Type ℓ} → String → List (String × V) → Option V
entry k [] = none
entry k ((j, v) ∷ d) = if str_eq j k then some v else entry k d

-- `d[k] = v` and `d.values()` of the same.
unfoldable pub put_entry {ℓ} : {V : Type ℓ} → String → V → List (String × V) → List (String × V)
put_entry k v [] = (k, v) ∷ []
put_entry k v ((j, w) ∷ d) = if str_eq j k then (k, v) ∷ d else (j, w) ∷ put_entry k v d

unfoldable pub entries {ℓ} : {V : Type ℓ} → List (String × V) → List V
entries [] = []
entries ((j, v) ∷ d) = v ∷ entries d
