-- ===== src/Scanner/Text.antt =====
-- The texts of scanner/main.cpp, as lists of bytes: camelize, capitalize, uppercase, and what the
-- file uses of std::format.
use Prim.Native.Char.{code}
use Prim.Native.String.{String}
use hyprwire_debian.Base.{
  ℕ, ◌-◌, true, false, not, ◌&&◌, ◌||◌, List, [], ◌∷◌, ◌++◌, leb, ◌==◌, if◌then◌else◌, length, take,
  map,
}

abbrev pub Text : Type 0
Text = List ℕ

-- A literal. It is ASCII, so that its code points are its bytes.
abbrev pub codes : String → Text
codes String.[] = []
codes (String.◌∷◌ c s) = code c ∷ codes s

-- A raw literal, line by line.
abbrev pub lines : List String → Text
lines [] = []
lines (l ∷ []) = codes l
lines (l ∷ ls) = codes l ++ 10 ∷ lines ls

-- ::toupper in the C locale
unfoldable pub to_upper : ℕ → ℕ
to_upper c = if leb b'a' c && leb c b'z' then c - 32 else c

abbrev pub underscore : ℕ
underscore = b'_'

-- The loop of camelize from the second character on.
unfoldable pub camel_tail : Text → Text
unfolding to_upper
camel_tail [] = []
camel_tail (c ∷ []) = c ∷ []
camel_tail (c ∷ d ∷ cs) = elim (c == underscore && not (d == underscore)) [
  | true ↦ to_upper d ∷ camel_tail cs
  | false ↦ c ∷ camel_tail (d ∷ cs)
]

unfoldable pub camelize : Text → Text
unfolding camel_tail
camelize [] = []
camelize (c ∷ cs) = c ∷ camel_tail cs

unfoldable pub capitalize : Text → Text
unfolding to_upper
capitalize [] = []
capitalize (c ∷ cs) = to_upper c ∷ cs

unfoldable pub uppercase : Text → Text
unfolding to_upper
uppercase s = map to_upper s

-- `s.substr(0, s.size() - 2)`; of a text without two characters, whose size minus two wraps, it is
-- the whole text.
unfoldable pub drop_separator : Text → Text
drop_separator s = if leb 2 (length s) then take (length s - 2) s else s

-- The next argument, and those behind it.
abbrev pub next_arg : List Text → Text
next_arg [] = []
next_arg (a ∷ as_) = a

abbrev pub later_args : List Text → List Text
later_args [] = []
later_args (a ∷ as_) = as_

-- std::format with the fields `{}` only; `{{` and `}}` stand for the braces. That there are as many
-- arguments as fields is checked when the program is compiled.
unfoldable pub format : Text → List Text → Text
format [] args = []
format (c ∷ []) args = c ∷ []
format (c ∷ d ∷ cs) args = elim (c == b'{' && d == b'}') [
  | true ↦ next_arg args ++ format cs (later_args args)
  | false ↦ elim ((c == b'{' || c == b'}') && c == d) [
    | true ↦ c ∷ format cs args
    | false ↦ c ∷ format (d ∷ cs) args
  ]
]

-- `for (const auto& x : xs) text += f(x);`
abbrev pub each {ℓ} : {A : Type ℓ} → (A → Text) → List A → Text
each f [] = []
each f (x ∷ xs) = f x ++ each f xs

-- pop_back
unfoldable pub drop_last : Text → Text
drop_last s = take (length s - 1) s
