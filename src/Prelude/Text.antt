-- ===== src/Prelude/Text.antt =====
-- `split` and `trim` of JavaScript, over the code points of a text.
use Prim.Native.Char.{Char, code}
use Prim.Native.String.{String, ◌++◌ as ◌<>◌}
use Prim.Native.Nat.{ℕ}
use mathlib.Core.Path.{◌≡◌, refl, ap, ◌∙◌}
use mathlib.Core.Logic.{◌≢◌}
use mathlib.Core.Bool.{Bool, true, false, ◌&&◌, ◌||◌, not}
use mathlib.Core.Option.{Option, none, some}
use mathlib.Core.List.{List, [], ◌∷◌}
use native.Mathlib.Omega.{arith}
use text.Mathlib.TextLemmas.{nil-append, cons-append}
use workflowhub.Prelude.Tests.{nat_beq, leb, truthy, if◌then◌else◌}

-- The character in front of a text's first part.
abbrev pub prepend : Char → List String → List String
prepend c [] = String.◌∷◌ c "" ∷ []
prepend c (w ∷ ws) = String.◌∷◌ c w ∷ ws

-- `text.split(sep)`, for a separator of one character.
unfoldable pub split_on : ℕ → String → List String
split_on sep String.[] = "" ∷ []
split_on sep (String.◌∷◌ c s) =
    let rest = split_on sep s in if nat_beq (code c) sep then "" ∷ rest else prepend c rest

-- `parts.join(sep)`, for a first part and more.
unfoldable pub join_with : Char → String → List String → String
join_with sep part [] = part
join_with sep part (next ∷ parts) = part <> String.◌∷◌ sep (join_with sep next parts)

-- `parts[0]`, which is there, and `parts[1]`.
abbrev pub first : List String → String
first [] = ""
first (a ∷ rest) = a

abbrev pub second : List String → Option String
second (a ∷ b ∷ rest) = some b
second _ = none

-- The white space and the line terminators of JavaScript.
abbrev pub is_space : Char → Bool
is_space c =
    (leb 9 (code c) && leb (code c) 13)
    || nat_beq (code c) 32
    || nat_beq (code c) 160
    || nat_beq (code c) 5760
    || (leb 8192 (code c) && leb (code c) 8202)
    || nat_beq (code c) 8232
    || nat_beq (code c) 8233
    || nat_beq (code c) 8239
    || nat_beq (code c) 8287
    || nat_beq (code c) 12288
    || nat_beq (code c) 65279

trim_start : String → String
trim_start String.[] = ""
trim_start (String.◌∷◌ c s) = if is_space c then trim_start s else String.◌∷◌ c s

trim_end : String → String
trim_end String.[] = ""
trim_end (String.◌∷◌ c s) =
    let rest = trim_end s in if is_space c && not (truthy rest) then "" else String.◌∷◌ c rest

unfoldable pub trim : String → String
unfolding trim_start trim_end
trim s = trim_end (trim_start s)

-- The separator does not occur in the text.
abbrev pub Lacks : ℕ → String → Type 0
Lacks sep String.[] = Unit
Lacks sep (String.◌∷◌ c s) = (code c ≢ sep) × Lacks sep s

pub split_on-Lacks : (sep : ℕ) (s : String) → Lacks sep s → split_on sep s ≡ s ∷ []
unfolding split_on
split_on-Lacks sep String.[] h = refl
split_on-Lacks sep (String.◌∷◌ c s) (n, h) =
    let other : nat_beq (code c) sep ≡ false = ground arith in rw (other, split_on-Lacks sep s h)

pub split_on-append :
    (sep : ℕ) (c : Char) (w s : String)
    → code c ≡ sep
    → Lacks sep w
    → split_on sep (w <> String.◌∷◌ c s) ≡ w ∷ split_on sep s
unfolding split_on
split_on-append sep c String.[] s e h =
    let same : nat_beq (code c) sep ≡ true = ground arith in rw (nil-append, split_on, same)
split_on-append sep c (String.◌∷◌ d w) s e (n, h) =
    let other : nat_beq (code d) sep ≡ false = ground arith in
    rw (cons-append, split_on, other, split_on-append sep c w s e h)

abbrev pub AllLack : ℕ → List String → Type 0
AllLack sep [] = Unit
AllLack sep (part ∷ parts) = Lacks sep part × AllLack sep parts

pub split_on-join_with :
    (sep : Char) (part : String) (parts : List String)
    → AllLack (code sep) (part ∷ parts)
    → split_on (code sep) (join_with sep part parts) ≡ part ∷ parts
unfolding join_with
split_on-join_with sep part [] (whole, rest) = split_on-Lacks (code sep) part whole
split_on-join_with sep part (next ∷ parts) (whole, rest) =
    split_on-append (code sep) sep part (join_with sep next parts) refl whole
    ∙ ap (λ ws. part ∷ ws) (split_on-join_with sep next parts rest)

pub truthy-append : (w s : String) → truthy w ≡ true → truthy (w <> s) ≡ true
truthy-append String.[] s h = absurd (cc)
truthy-append (String.◌∷◌ c w) s h = rw cons-append
