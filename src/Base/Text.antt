-- ===== src/Base/Text.antt =====
-- The methods of Python's `str` that the services use, over the code points of a text.
use Prim.Native.Char.{code}
use Prim.Native.Nat.{ℕ, zero, suc}
use Prim.Native.String.{String, ◌++◌ as append}
use mathlib.Core.Bool.{Bool, true, false, ◌&&◌, ◌||◌}
use mathlib.Core.List.{List, [], ◌∷◌}
use text.Mathlib.Text.{◌==◌ as str_eq}
use dolphin_vc.Base.Tests.{leb, ◌==◌, if◌then◌else◌}

-- `len(text)`
unfoldable pub char_count : String → ℕ
char_count String.[] = 0
char_count (String.◌∷◌ c s) = suc (char_count s)

-- `text.split("@", 1)[0]`
unfoldable pub before_at : String → String
before_at String.[] = ""
before_at (String.◌∷◌ c s) =
    let rest = before_at s in if code c == b'@' then "" else String.◌∷◌ c rest

unfoldable pub is_prefix : String → String → Bool
is_prefix String.[] t = true
is_prefix (String.◌∷◌ c s) String.[] = false
is_prefix (String.◌∷◌ c s) (String.◌∷◌ d t) = (code c == code d) && is_prefix s t

-- `needle in text`
unfoldable pub contains : String → String → Bool
unfolding is_prefix
contains needle String.[] = is_prefix needle ""
contains needle (String.◌∷◌ c s) = is_prefix needle (String.◌∷◌ c s) || contains needle s

-- `text.endswith(suffix)`
unfoldable pub ends_with : String → String → Bool
ends_with suffix String.[] = str_eq suffix ""
ends_with suffix (String.◌∷◌ c s) = str_eq suffix (String.◌∷◌ c s) || ends_with suffix s

-- `str.isspace` of one character
unfoldable is_space : ℕ → Bool
is_space c =
    (leb 9 c && leb c 13)
    || ((leb 28 c && leb c 32)
        || (c == 133
            || (c == 160
                || (c == 5760
                    || ((leb 8192 c && leb c 8202)
                        || (c == 8232
                            || (c == 8233 || (c == 8239 || (c == 8287 || c == 12288)))))))))

-- `word` in front of the words that follow, if there is one.
abbrev push_word : String → List String → List String
push_word String.[] ws = ws
push_word (String.◌∷◌ c s) ws = String.◌∷◌ c s ∷ ws

-- The first word of a text that continues one, and the words behind it.
split_from : String → String × List String
unfolding is_space
split_from String.[] = ("", [])
split_from (String.◌∷◌ c s) =
    let (word, rest) = split_from s in
    if is_space (code c) then ("", push_word word rest) else (String.◌∷◌ c word, rest)

-- `text.split()`
unfoldable pub split : String → List String
unfolding split_from
split s = let (word, rest) = split_from s in push_word word rest

module _ {ℓ} {A : Type ℓ} where
  -- `items[:n]`
  unfoldable pub take : ℕ → List A → List A
  take zero xs = []
  take (suc n) [] = []
  take (suc n) (x ∷ xs) = x ∷ take n xs

-- `text.lstrip()` and `text.rstrip()`
abbrev left_strip : String → String
left_strip String.[] = ""
left_strip (String.◌∷◌ c s) =
    let rest = left_strip s in if is_space (code c) then rest else String.◌∷◌ c s

-- The rest of a text is blank, as is the character before it.
abbrev all_blank : Bool → String → Bool
all_blank blank String.[] = blank
all_blank blank (String.◌∷◌ _ _) = false

abbrev right_strip : String → String
right_strip String.[] = ""
right_strip (String.◌∷◌ c s) =
    let rest = right_strip s in if all_blank (is_space (code c)) rest then "" else String.◌∷◌ c rest

-- `text.strip()`
unfoldable pub strip : String → String
unfolding is_space
strip s = left_strip (right_strip s)

-- `text[:n]`
unfoldable pub first_chars : ℕ → String → String
first_chars zero s = ""
first_chars (suc n) String.[] = ""
first_chars (suc n) (String.◌∷◌ c s) = String.◌∷◌ c (first_chars n s)

-- The characters at which `splitlines` breaks.
abbrev is_break : ℕ → Bool
is_break c =
    (leb 10 c && leb c 13) || ((leb 28 c && leb c 30) || (c == 133 || (c == 8232 || c == 8233)))

lines_from : String → String × List String
lines_from String.[] = ("", [])
lines_from (String.◌∷◌ c s) =
    let (line, rest) = lines_from s in
    if is_break (code c) then ("", line ∷ rest) else (String.◌∷◌ c line, rest)

-- `text.splitlines()`, with an empty line more where a text ends in a break or breaks twice in a
-- row; the callers skip empty lines.
unfoldable pub split_lines : String → List String
unfolding lines_from
split_lines s = let (line, rest) = lines_from s in line ∷ rest

-- `separator.join(parts)`
unfoldable pub join : String → List String → String
join separator [] = ""
join separator (s ∷ []) = s
join separator (s ∷ t ∷ rest) = append s (append separator (join separator (t ∷ rest)))
