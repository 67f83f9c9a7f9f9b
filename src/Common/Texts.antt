-- ===== src/Common/Texts.antt =====
-- JavaScript's text operations that the program uses: truth of a string, `split` by one
-- character, `startsWith`, `includes` and `replace` of the first occurrence.
use Prim.Native.Char.{Char, code}
use Prim.Native.String
use Prim.Native.String.{String}
use mathlib.Core.Path.{◌≡◌, refl}
use mathlib.Core.Bool.{Bool, true, false, not, ◌||◌}
use mathlib.Core.Option.{Option, none, some}
use mathlib.Core.List.{List, [], ◌∷◌}
use Prim.Native.Nat.{ℕ, zero, suc, ◌+◌, ◌-◌, ◌≤◌}
use mathlib.Core.Logic.{◌≢◌}
use native.Mathlib.Omega.{arith}
use text.Mathlib.TextLemmas.{nil-append, cons-append, append-nil, append_assoc}
use api_elrond_com.Common.Tests.{nat_beq, if◌then◌else◌}
use api_elrond_com.Common.Equality.{◌==◌, string_eq}

infixl 65 ◌+text◌
abbrev pub ◌+text◌ : String → String → String
s +text t = String.◌++◌ s t

-- A string is true unless it is empty; `undefined` is false.
abbrev pub is_truthy : Option String → Bool
is_truthy none = false
is_truthy (some s) = not (s == "")

-- `${value}` of a string that may be undefined.
abbrev pub to_text : Option String → String
to_text none = "undefined"
to_text (some s) = s

-- The loop of `split`: `cur` is the part that is being read.
split_from : ℕ → String → String → List String
split_from sep cur String.[] = cur ∷ []
split_from sep cur (String.◌∷◌ c s) =
    let closed = cur ∷ split_from sep "" s in
    let longer = split_from sep (cur +text (String.◌∷◌ c String.[])) s in
    if nat_beq (code c) sep then closed else longer

unfoldable pub split : ℕ → String → List String
unfolding split_from
split sep s = split_from sep "" s

-- The rest behind a prefix.
abbrev pub strip_prefix : String → String → Option String
strip_prefix String.[] s = some s
strip_prefix (String.◌∷◌ c p) String.[] = none
strip_prefix (String.◌∷◌ c p) (String.◌∷◌ d s) =
    let rest = strip_prefix p s in if nat_beq (code c) (code d) then rest else none

abbrev pub starts_with : String → String → Bool
starts_with s p = elim (strip_prefix p s) [ none ↦ false | some _ ↦ true ]

-- `s.includes(p)`
abbrev pub includes : String → String → Bool
includes String.[] p = starts_with "" p
includes (String.◌∷◌ c s) p = starts_with (String.◌∷◌ c s) p || includes s p

-- `s.replace(p, r)` for a string pattern: the first occurrence only.
abbrev pub replace : String → String → String → String
replace String.[] p r = elim (strip_prefix p "") [ none ↦ "" | some rest ↦ r +text rest ]
replace (String.◌∷◌ c s) p r =
    let later = String.◌∷◌ c (replace s p r) in
    elim (strip_prefix p (String.◌∷◌ c s)) [ none ↦ later | some rest ↦ r +text rest ]

-- No character of the text is the separator.
abbrev pub Lacks : ℕ → String → Type 0
Lacks sep String.[] = Unit
Lacks sep (String.◌∷◌ c s) = (code c ≢ sep) × Lacks sep s

snoc_assoc :
    (cur : String) (c : Char) (s : String)
    → (cur +text String.◌∷◌ c String.[]) +text s ≡ cur +text String.◌∷◌ c s
snoc_assoc cur c s = rw (append_assoc, cons-append, nil-append) refl

split_from-append :
    (sep : ℕ) (cur s : String) (c : Char) (rest : String)
    → Lacks sep s
    → code c ≡ sep
    → split_from sep cur (s +text String.◌∷◌ c rest) ≡ (cur +text s) ∷ split_from sep "" rest
unfolding split_from
split_from-append sep cur String.[] c rest h e = rw (nil-append, append-nil) (ground arith)
split_from-append sep cur (String.◌∷◌ d s) c rest (ne, h) e =
    rw (cons-append, ← snoc_assoc cur d s)
      (ground (arith, split_from-append sep (cur +text String.◌∷◌ d String.[]) s c rest h e))

split_from_last :
    (sep : ℕ) (cur s : String) → Lacks sep s → split_from sep cur s ≡ (cur +text s) ∷ []
unfolding split_from
split_from_last sep cur String.[] h = rw append-nil
split_from_last sep cur (String.◌∷◌ d s) (ne, h) =
    rw (← snoc_assoc cur d s)
      (ground (arith, split_from_last sep (cur +text String.◌∷◌ d String.[]) s h))

-- A part that lacks the separator comes back whole, and the rest is split further.
pub split-append :
    (sep : ℕ) (s : String) (c : Char) (rest : String)
    → Lacks sep s
    → code c ≡ sep
    → split sep (s +text String.◌∷◌ c rest) ≡ s ∷ split sep rest
unfolding split
split-append sep s c rest h e = rw (split_from-append sep "" s c rest h e, nil-append) refl

pub split_last : (sep : ℕ) (s : String) → Lacks sep s → split sep s ≡ s ∷ []
unfolding split
split_last sep s h = rw (split_from_last sep "" s h, nil-append) refl

-- Taking away a prefix that was put in front gives the text back.
pub strip_prefix-append : (p s : String) → strip_prefix p (p +text s) ≡ some s
strip_prefix-append String.[] s = rw nil-append
strip_prefix-append (String.◌∷◌ c p) s = rw cons-append (ground (arith, strip_prefix-append p s))

pub replace-append :
    (c : Char) (p s r : String) → replace (String.◌∷◌ c p +text s) (String.◌∷◌ c p) r ≡ r +text s
replace-append c p s r = rw cons-append (ground (arith, strip_prefix-append p s))

-- The length and `slice` of a string whose characters are ASCII.
abbrev pub text_length : String → ℕ
text_length String.[] = 0
text_length (String.◌∷◌ c s) = 1 + text_length s

abbrev pub text_take : ℕ → String → String
text_take zero s = ""
text_take (suc n) String.[] = ""
text_take (suc n) (String.◌∷◌ c s) = String.◌∷◌ c (text_take n s)

abbrev pub text_drop : ℕ → String → String
text_drop zero s = s
text_drop (suc n) String.[] = ""
text_drop (suc n) (String.◌∷◌ c s) = text_drop n s

abbrev pub text_slice : ℕ → ℕ → String → String
text_slice start end s = text_take (end - start) (text_drop start s)

pub text_length-append : (s t : String) → text_length (s +text t) ≡ text_length s + text_length t
text_length-append String.[] t = rw (nil-append t) (omega arith)
text_length-append (String.◌∷◌ c s) t =
    rw (cons-append c s t) (omega (arith, text_length-append s t))

-- The parts of a split are together no longer than the text.
abbrev pub text_total : List String → ℕ
text_total [] = 0
text_total (s ∷ parts) = text_length s + text_total parts

split_from-length :
    (sep : ℕ) (cur s : String) → text_total (split_from sep cur s) ≤ text_length cur + text_length s
unfolding split_from
split_from-length sep cur String.[] = omega arith
split_from-length sep cur (String.◌∷◌ c s) = ground (
  arith,
  split_from-length sep "" s,
  split_from-length sep (cur +text (String.◌∷◌ c String.[])) s,
  text_length-append cur (String.◌∷◌ c String.[]),
)

pub split-length : (sep : ℕ) (s : String) → text_total (split sep s) ≤ text_length s
unfolding split
split-length sep s = omega (arith, split_from-length sep "" s)

-- `join`
abbrev pub join_more : String → List String → String
join_more sep [] = ""
join_more sep (s ∷ parts) = sep +text s +text join_more sep parts

abbrev pub join : String → List String → String
join sep [] = ""
join sep (s ∷ parts) = s +text join_more sep parts
