-- ===== src/Prelude/Text.antt =====
-- Python's `str.split`, `str.strip` and slices on native texts.
use Prim.Native.Nat.{ℕ, zero, suc}
use Prim.Native.Char.{code}
use Prim.Native.String.{String, [], ◌∷◌, ◌++◌}
use mathlib.Core.Bool.{Bool, true, false, ◌&&◌, ◌||◌}
use mathlib.Core.List.{List}
use tabayyun.Prelude.Tests.{leb, ◌==◌, if◌then◌else◌}

-- `str.isspace`, the characters at which `split` and `strip` cut.
unfoldable pub is_space : ℕ → Bool
is_space c =
    leb 9 c && leb c 13
    || leb 28 c && leb c 32
    || c == 133
    || c == 160
    || c == 5760
    || leb 8192 c && leb c 8202
    || c == 8232
    || c == 8233
    || c == 8239
    || c == 8287
    || c == 12288

unfoldable pub is_empty : String → Bool
is_empty [] = true
is_empty (c ∷ s) = false

unfoldable pub chars : String → ℕ
chars [] = 0
chars (c ∷ s) = suc (chars s)

flush : String → List String → List String
flush [] words = words
flush (c ∷ s) words = List.◌∷◌ (c ∷ s) words

-- The word that the text begins with, up to the first space, and the words behind it.
split_word : String → String × List String
unfolding is_space flush
split_word [] = ("", List.[])
split_word (c ∷ s) =
    let (word, words) = split_word s in
    if is_space (code c) then ("", flush word words) else (c ∷ word, words)

-- `s.split()`
unfoldable pub split : String → List String
unfolding split_word
split s = let (word, words) = split_word s in flush word words

-- `" ".join(words)`
unfoldable pub join : List String → String
join List.[] = ""
join (List.◌∷◌ w ws) = elim ws [ List.[] ↦ w | List.◌∷◌ v vs ↦ w ++ " " ++ join ws ]

unfoldable pub rstrip : String → String
unfolding is_space is_empty
rstrip [] = ""
rstrip (c ∷ s) = let rest = rstrip s in if is_empty rest && is_space (code c) then "" else c ∷ rest

unfoldable pub lstrip : String → String
unfolding is_space
lstrip [] = ""
lstrip (c ∷ s) = if is_space (code c) then lstrip s else c ∷ s

-- `s.strip()`
unfoldable pub strip : String → String
unfolding lstrip rstrip
strip s = rstrip (lstrip s)

-- `s[:n]`
unfoldable pub clip : ℕ → String → String
clip zero s = ""
clip (suc n) [] = ""
clip (suc n) (c ∷ s) = c ∷ clip n s
