-- ===== src/Scanner/Naming.antt =====
-- camelize of scanner/main.cpp, on a name that is made of words.
use mathlib.Core.List.{append-nil}
use hyprwire_debian.Base.{
  sym, ◌∙◌, ℕ, true, false, ◌≡◌, refl, ap, List, [], ◌∷◌, ◌++◌, ◌==◌, All, arith,
}
use hyprwire_debian.Scanner.Text.{Text, underscore, to_upper, camel_tail, camelize, capitalize}

-- A word: a first character and others, none of them an underscore.
abbrev pub Plain : ℕ → Type 0
Plain c = (c == underscore) ≡ false

abbrev pub IsWord : Text → Type 0
IsWord [] = (true ≡ false)
IsWord (c ∷ cs) = Plain c × All Plain cs

-- Words behind the first, each with an underscore in front; and capitalised.
unfoldable pub snake : List Text → Text
snake [] = []
snake (w ∷ ws) = underscore ∷ (w ++ snake ws)

unfoldable pub capitals : List Text → Text
capitals [] = []
capitals (w ∷ ws) = capitalize w ++ capitals ws

camel_tail-step :
    (c d : ℕ) (cs : Text) → Plain c → camel_tail (c ∷ d ∷ cs) ≡ c ∷ camel_tail (d ∷ cs)
unfolding camel_tail
camel_tail-step c d cs h = rw (h, camel_tail) refl

camel_tail-turn :
    (d : ℕ) (cs : Text) → Plain d → camel_tail (underscore ∷ d ∷ cs) ≡ to_upper d ∷ camel_tail cs
unfolding camel_tail
camel_tail-turn d cs h = rw (h, camel_tail) refl

-- The tail's loop goes over plain characters, and turns to the next word.
camel_tail-Plain :
    (cs : Text) (d : ℕ) (rest : Text)
    → All Plain cs
    → Plain d
    → camel_tail (cs ++ underscore ∷ d ∷ rest) ≡ cs ++ to_upper d ∷ camel_tail rest
camel_tail-Plain [] d rest h k = camel_tail-turn d rest k
camel_tail-Plain (c ∷ []) d rest h k =
    camel_tail-step c underscore (d ∷ rest) h.0 ∙ ap (λ l. c ∷ l) (camel_tail-turn d rest k)
camel_tail-Plain (c ∷ e ∷ cs) d rest h k =
    camel_tail-step c e (cs ++ underscore ∷ d ∷ rest) h.0
    ∙ ap (λ l. c ∷ l) (camel_tail-Plain (e ∷ cs) d rest h.1 k)

camel_tail-end : (cs : Text) → All Plain cs → camel_tail cs ≡ cs
unfolding camel_tail
camel_tail-end [] h = refl
camel_tail-end (c ∷ []) h = refl
camel_tail-end (c ∷ e ∷ cs) h =
    camel_tail-step c e cs h.0 ∙ ap (λ l. c ∷ l) (camel_tail-end (e ∷ cs) h.1)

camel_tail-words :
    (cs : Text) (ws : List Text)
    → All Plain cs
    → All IsWord ws
    → camel_tail (cs ++ snake ws) ≡ cs ++ capitals ws
unfolding snake capitals capitalize
camel_tail-words cs [] h k =
    ap camel_tail (append-nil cs) ∙ camel_tail-end cs h ∙ sym (append-nil cs)
camel_tail-words cs ([] ∷ ws) h k = ground (arith, k.0)
camel_tail-words cs ((d ∷ ds) ∷ ws) h k =
    camel_tail-Plain cs d (ds ++ snake ws) h k.0.0
    ∙ ap (λ l. cs ++ to_upper d ∷ l) (camel_tail-words ds ws k.0.1 k.1)

-- camelize of words without underscores that are not empty, joined by underscores, is the first
-- word and then the others with their first letters in upper case.
pub camelize-words :
    (w : Text) (ws : List Text)
    → IsWord w
    → All IsWord ws
    → camelize (w ++ snake ws) ≡ w ++ capitals ws
unfolding camelize
camelize-words [] ws h k = ground (arith, h)
camelize-words (c ∷ cs) ws h k = ap (λ l. c ∷ l) (camel_tail-words cs ws h.1 k)
