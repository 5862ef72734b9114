-- ===== src/Common/Text.antt =====
-- Texts as JavaScript tests and takes them apart. A text is falsy when it is absent or empty.
use Prim.Native.Char.{code}
use Prim.Native.String
use Prim.Native.String.{String}
use mathlib.Core.Path.{◌≡◌}
use mathlib.Core.Bool.{Bool, true, false}
use mathlib.Core.List.{List, [], ◌∷◌}
use mathlib.Core.Option.{Option, none, some}
use native.Mathlib.Omega.{arith}
use text.Mathlib.TextEquality.{Char-path}
use text.Mathlib.TextLemmas.{nil-append, cons-append}
use aiself_healer.Common.Tests.{nat_eq, if◌then◌else◌}

abbrev pub is_empty : String → Bool
is_empty s = elim s [ String.[] ↦ true | String.◌∷◌ c t ↦ false ]

-- `Boolean(a)`
abbrev pub truthy : Option String → Bool
truthy none = false
truthy (some a) = elim (is_empty a) [ true ↦ false | false ↦ true ]

-- `a || b`, where both may be absent
abbrev pub or_else : Option String → Option String → Option String
or_else none b = b
or_else (some a) b = elim (is_empty a) [ true ↦ b | false ↦ some a ]

-- `a || "d"`
abbrev pub text_or : Option String → String → String
text_or none d = d
text_or (some a) d = elim (is_empty a) [ true ↦ d | false ↦ a ]

infixr 65 ◌<>◌
abbrev pub ◌<>◌ : String → String → String
s <> t = String.◌++◌ s t

-- `s.startsWith(p)`, with `s.slice(p.length)` where it does.
unfoldable pub after_prefix : String → String → Option String
after_prefix String.[] s = some s
after_prefix (String.◌∷◌ c p) String.[] = none
after_prefix (String.◌∷◌ c p) (String.◌∷◌ d s) =
    if nat_eq (code c) (code d) then after_prefix p s else none

pub after_prefix-append : (p s : String) → after_prefix p (p <> s) ≡ some s
unfolding after_prefix
after_prefix-append String.[] s = rw (nil-append s)
after_prefix-append (String.◌∷◌ c p) s =
    rw (cons-append c p s, after_prefix) (ground (arith, after_prefix-append p s))

-- What is left over, put behind the prefix again, is the text.
pub append-after_prefix : (p s rest : String) → after_prefix p s ≡ some rest → s ≡ p <> rest
unfolding after_prefix
append-after_prefix String.[] s rest h = ground (arith, nil-append rest)
append-after_prefix (String.◌∷◌ c p) String.[] rest h = ground arith
append-after_prefix (String.◌∷◌ c p) (String.◌∷◌ d s) rest h =
    ground (arith, cons-append c p rest, Char-path c d, append-after_prefix p s rest)

-- `parts.join(",")`
unfoldable pub join_commas : List String → String
join_commas [] = ""
join_commas (s ∷ []) = s
join_commas (s ∷ t ∷ rest) = s <> "," <> join_commas (t ∷ rest)

-- `s.includes(p)`
unfoldable pub contains : String → String → Bool
unfolding after_prefix
contains p String.[] = is_empty p
contains p (String.◌∷◌ c s) =
    let later = contains p s in
    elim (after_prefix p (String.◌∷◌ c s)) [ some rest ↦ true | none ↦ later ]

-- `s.replace(p, "")`, which takes out the first occurrence of the text
unfoldable pub remove_first : String → String → String
unfolding after_prefix
remove_first p String.[] = String.[]
remove_first p (String.◌∷◌ c s) =
    let later = remove_first p s in
    elim (after_prefix p (String.◌∷◌ c s)) [ some rest ↦ rest | none ↦ String.◌∷◌ c later ]
