-- ===== src/Text.antt =====
-- Text as the source's strings are: a list of UTF-16 code units, so `length`, `slice` and `===`
-- are those of the list.
use Prim.Native.Char.{code}
use site_foundry.Prelude.{
  ℕ, zero, suc, ◌+◌, ◌-◌, ◌/◌, ◌%◌, String, ◌≡◌, refl, ◌↔◌, Bool, true, false, ◌&&◌, ◌||◌, List, [],
  ◌∷◌, ◌++◌, arith, ltb, leb, ◌==◌, if◌then◌else◌, length, drop,
}

abbrev pub Text : Type 0
Text = List ℕ

-- A literal of the source. It stays shut in proofs and is opened by tests.
unfoldable pub txt : String → Text
txt String.[] = []
txt (String.◌∷◌ c s) =
    if ltb (code c) 65536
    then code c ∷ txt s
    else (55296 + (code c - 65536) / 1024) ∷ (56320 + (code c - 65536) % 1024) ∷ txt s

-- `a === b`
unfoldable pub text_eq : Text → Text → Bool
text_eq [] [] = true
text_eq (a ∷ s) (b ∷ t) = a == b && text_eq s t
text_eq _ _ = false

pub text_eq_iff : (s t : Text) → (text_eq s t ≡ true) ↔ (s ≡ t)
unfolding text_eq
text_eq_iff [] [] = ground arith
text_eq_iff (a ∷ s) (b ∷ t) = ground (arith, text_eq_iff s t)
text_eq_iff [] (b ∷ t) = ground arith
text_eq_iff (a ∷ s) [] = ground arith

pub text_eq_refl : (s : Text) → text_eq s s ≡ true
text_eq_refl s = (text_eq_iff s s).1 refl

-- `!s`
abbrev pub is_empty : Text → Bool
is_empty [] = true
is_empty (c ∷ s) = false

-- The white space and line terminators that `trim` and `\s` go by.
unfoldable pub is_space : ℕ → Bool
is_space c =
    (leb 9 c && leb c 13)
    || c == 32
    || c == 160
    || c == 5760
    || (leb 8192 c && leb c 8202)
    || c == 8232
    || c == 8233
    || c == 8239
    || c == 8287
    || c == 12288
    || c == 65279

pub trim_start : Text → Text
trim_start [] = []
trim_start (c ∷ s) = let rest = trim_start s in if is_space c then rest else c ∷ s

-- White space at the end goes: `c` stays if something stays after it, or if it is no white space.
pub trim_end : Text → Text
trim_end [] = []
trim_end (c ∷ s) = let rest = trim_end s in if is_empty rest && is_space c then [] else c ∷ rest

-- `s.trim()`
unfoldable pub trim : Text → Text
unfolding is_space trim_start trim_end
trim s = trim_end (trim_start s)

-- `s.startsWith(t)`
unfoldable pub starts_with : Text → Text → Bool
starts_with s [] = true
starts_with [] (b ∷ t) = false
starts_with (a ∷ s) (b ∷ t) = a == b && starts_with s t

-- `s.includes(t)`
unfoldable pub includes : Text → Text → Bool
unfolding starts_with
includes [] t = starts_with [] t
includes (a ∷ s) t = starts_with (a ∷ s) t || includes s t

show_from : ℕ → ℕ → Text
show_from zero n = []
show_from (suc f) n =
    let front = show_from f (n / 10) in
    if ltb n 10 then (48 + n) ∷ [] else front ++ (48 + n % 10) ∷ []

-- `String(n)` of a whole number; a number has no more digits than itself plus one.
unfoldable pub show : ℕ → Text
unfolding show_from
show n = show_from (suc n) n

-- `parts.join(sep)`
unfoldable pub join : Text → List Text → Text
join sep [] = []
join sep (s ∷ []) = s
join sep (s ∷ t ∷ ts) = s ++ (sep ++ join sep (t ∷ ts))

-- `s.slice(-n)`: the last n units
unfoldable pub slice_last : ℕ → Text → Text
slice_last n s = drop (length s - n) s

pub length-drop : (n : ℕ) (s : Text) → length (drop n s) ≡ length s - n
length-drop zero s = omega arith
length-drop (suc n) [] = omega arith
length-drop (suc n) (c ∷ s) = omega (arith, length-drop n s)

text_test : (show 1205 ≡ txt "1205") × (trim (txt " a b  ") ≡ txt "a b")
unfolding show txt trim
text_test = (refl, refl)
