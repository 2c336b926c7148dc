-- ===== src/Content/Path.antt =====
-- `setPath` of apps/api/src/content/content.service.ts on JSON values. A property of an array that
-- is no index is lost when the value is stored, and so are the gaps of an array, which become
-- `null`.
use site_foundry.Json.{Json, null, arr, obj, Items, nil, cons, Fields, end, member, fields, lookup}
use site_foundry.Prelude.{
  ℕ, zero, suc, ◌+◌, ◌-◌, ◌*◌, ◌^◌, Bool, ◌&&◌, not, Option, none, some, List, [], ◌∷◌, ltb, leb,
  ◌==◌, if◌then◌else◌, all,
}
use site_foundry.Text.{Text, text_eq, is_empty, show}

-- `s.split('.')`: the first part, and the others
unfoldable pub split_dots : Text → Text × List Text
split_dots [] = ([], [])
split_dots (c ∷ s) =
    let (first, rest) = split_dots s in if c == b'.' then ([], first ∷ rest) else (c ∷ first, rest)

abbrev pub parts : Text → List Text
parts s = let (first, rest) = split_dots s in first ∷ rest

abbrev pub is_digit : ℕ → Bool
is_digit c = leb b'0' c && leb c b'9'

-- `/^\d+$/`
unfoldable pub all_digits : Text → Bool
all_digits s = not (is_empty s) && all is_digit s

pub decimal : ℕ → Text → ℕ
decimal n [] = n
decimal n (c ∷ s) = decimal (n * 10 + (c - b'0')) s

-- The index that a key of an array is: a whole number below 2^32 - 1, written without a leading 0.
unfoldable pub index_of : Text → Option ℕ
unfolding decimal all_digits
index_of key =
    let n = decimal 0 key in
    if all_digits key && ltb n (2 ^ 32 - 1) && text_eq (show n) key then some n else none

unfoldable pub item : ℕ → Items → Json
item n nil = null
item zero (cons v vs) = v
item (suc n) (cons v vs) = item n vs

unfoldable pub put_item : ℕ → Json → Items → Items
put_item zero v nil = cons v nil
put_item zero v (cons u vs) = cons v vs
put_item (suc n) v nil = cons null (put_item n v nil)
put_item (suc n) v (cons u vs) = cons u (put_item n v vs)

abbrev pub item_at : Option ℕ → Items → Json
item_at none vs = null
item_at (some n) vs = item n vs

abbrev pub put_at : Option ℕ → Json → Items → Items
put_at none v vs = vs
put_at (some n) v vs = put_item n v vs

unfoldable pub put_field : Text → Json → Fields → Fields
put_field k v end = member k v end
put_field k v (member j u fs) =
    let later = put_field k v fs in if text_eq j k then member j v fs else member j u later

-- `c[key]`
unfoldable pub child : Json → Text → Json
unfolding item
child (obj fs) key = lookup key (fields fs)
child (arr vs) key = item_at (index_of key) vs
child _ key = null

-- `c[key] = v`
unfoldable pub set_child : Json → Text → Json → Json
unfolding put_item put_field
set_child (obj fs) key v = obj (put_field key v fs)
set_child (arr vs) key v = arr (put_at (index_of key) v vs)
set_child c key v = c

-- `obj[key]`, or the container that the loop puts in its place
unfoldable pub container_for : Text → Json → Json
container_for next (obj fs) = obj fs
container_for next (arr vs) = arr vs
container_for next _ = if all_digits next then arr nil else obj end

-- `setPath`, by the parts of the path
unfoldable pub set_path : Text → List Text → Json → Json → Json
set_path key [] value c = set_child c key value
set_path key (next ∷ rest) value c =
    set_child c key (set_path next rest value (container_for next (child c key)))

unfoldable pub set_at : Text → Json → Json → Json
unfolding split_dots
set_at path value c = let (first, rest) = split_dots path in set_path first rest value c
