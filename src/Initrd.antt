-- ===== src/Initrd.antt =====
-- `src/kern/fs/initrd.rs`: the files of a tar archive. Names are their bytes. `from_utf8` is part of
-- the language's library, and is the parameter `is_utf8`. A slice out of bounds, and a digit below
-- `0`, are results of their own.
pub mod Archive
mod Tests
use package.avaria.Prelude.{
  ℕ, zero, suc, ◌+◌, ◌-◌, ◌*◌, ◌/◌, ◌^◌, ◌==◌, ltb, leb, Bool, true, false, not, ◌&&◌, ◌||◌,
  if◌then◌else◌,
}
use package.avaria.Prelude.{
  Option, none, some, List, [], ◌∷◌, ◌++◌, length, take, drop, get_or, bytes_equal, add_w, sub_w,
}

abbrev pub max_entries : ℕ
max_entries = 64

pub record TarEntry : Type 0 where
  pub name : List ℕ
  pub contents : List ℕ
  pub is_dir : Bool

-- The entries in use, in order; `count` is the list's length.
abbrev pub TarFs : Type 0
TarFs = List TarEntry

-- `b - b'0'` on eight bits, as `usize`.
pub octal_from : ℕ → List ℕ → ℕ
octal_from val [] = val
octal_from val (b ∷ bs) =
    let rest = octal_from (add_w 64 (val * 8) (sub_w 8 b b'0')) bs in
    if b == 0 || b == b' ' then val else rest

unfoldable pub parse_octal : List ℕ → ℕ
unfolding octal_from
parse_octal bytes = octal_from 0 bytes

-- The bytes before the first 0.
pub until_zero : List ℕ → List ℕ
until_zero [] = []
until_zero (b ∷ bs) = let rest = until_zero bs in if b == 0 then [] else b ∷ rest

-- `trim_start_matches("./")`
pub trim_dots : List ℕ → List ℕ
trim_dots [] = []
trim_dots (x ∷ []) = x ∷ []
trim_dots (x ∷ y ∷ xs) =
    let rest = trim_dots xs in if x == b'.' && y == b'/' then rest else x ∷ y ∷ xs

-- `trim_start_matches('/')` and `trim_end_matches('/')`.
pub trim_start : List ℕ → List ℕ
trim_start [] = []
trim_start (x ∷ xs) = let rest = trim_start xs in if x == b'/' then rest else x ∷ xs

pub trim_end : List ℕ → List ℕ
trim_end [] = []
trim_end (x ∷ xs) = elim (trim_end xs) [
  | [] ↦ if x == b'/' then [] else x ∷ []
  | y ∷ ys ↦ x ∷ y ∷ ys
]

pub starts_with : List ℕ → List ℕ → Bool
starts_with xs prefix = bytes_equal (take (length prefix) xs) prefix

pub ends_with : List ℕ → List ℕ → Bool
ends_with xs suffix =
    leb (length suffix) (length xs) && bytes_equal (drop (length xs - length suffix) xs) suffix

-- `name.ends_with('/')`
abbrev pub is_dir_name : List ℕ → Bool
is_dir_name name = get_or name (length name - 1) 0 == b'/'

abbrev pub rounded : ℕ → ℕ
rounded size = sub_w 64 (add_w 64 size 512) 1 / 512 * 512

pub data Parsed : Type 0 where
  archive : TarFs → Parsed
  not_utf8 : Parsed
  out_of_fuel : Parsed
  panics : Parsed

pub prepend : TarEntry → Parsed → Parsed
prepend e (archive es) = archive (e ∷ es)
prepend e not_utf8 = not_utf8
prepend e out_of_fuel = out_of_fuel
prepend e panics = panics

-- The loop of `parse` at `offset`, with room for `room` entries; a round that adds none moves on by
-- 512 bytes or more. `out_of_fuel` is no result of the loop: it says that the rounds are used up before
-- the loop ends.
pub parse_from : (List ℕ → Bool) → List ℕ → ℕ → ℕ → ℕ → Parsed
unfolding until_zero trim_dots parse_octal prepend
parse_from is_utf8 bytes zero room offset = out_of_fuel
parse_from is_utf8 bytes (suc fuel) room offset =
    let header = take 512 (drop offset bytes) in
    let raw = until_zero (take 100 header) in
    let name = trim_dots raw in
    let octal = parse_octal (take 12 (drop 124 header)) in
    let is_dir = get_or header 156 0 == b'5' || is_dir_name name in
    let size = if is_dir then 0 else octal in
    let data_start = offset + 512 in
    let skipped = parse_from is_utf8 bytes fuel room (offset + 512 + rounded octal) in
    let rest = parse_from is_utf8 bytes fuel (room - 1) (data_start + rounded size) in
    if ltb (length bytes) (offset + 512) || room == 0
    then archive []
    else if get_or bytes offset 0 == 0
    then archive []
    else if not (is_utf8 raw)
    then not_utf8
    else if length name == 0
    then skipped
    else if ltb (length bytes) (data_start + size)
    then panics
    else prepend
        (record { name = name; contents = take size (drop data_start bytes); is_dir = is_dir }) rest

unfoldable pub parse : (List ℕ → Bool) → List ℕ → Parsed
unfolding parse_from
parse is_utf8 bytes = parse_from is_utf8 bytes (length bytes + 1) max_entries 0

pub find_entry : TarFs → List ℕ → Option TarEntry
unfolding trim_end
find_entry [] path = none
find_entry (e ∷ es) path =
    let rest = find_entry es path in if bytes_equal (trim_end e.name) path then some e else rest

unfoldable pub find : TarFs → List ℕ → Option TarEntry
unfolding find_entry trim_start
find fs path = find_entry fs (trim_start path)

pub entry_bytes : Option TarEntry → Option (List ℕ)
entry_bytes none = none
entry_bytes (some e) = if e.is_dir then none else some e.contents

unfoldable pub read : TarFs → List ℕ → Option (List ℕ)
unfolding find entry_bytes
read fs path = entry_bytes (find fs path)

-- The calls of the function that `for_each_matching` is given: name and bytes, in order.
pub matching : TarFs → List ℕ → List ℕ → List (List ℕ × List ℕ)
unfolding trim_end starts_with ends_with
matching [] prefix suffix = []
matching (e ∷ es) prefix suffix =
    let rest = matching es prefix suffix in
    let name = trim_end e.name in
    if not e.is_dir && starts_with name prefix && ends_with name suffix
    then (name, e.contents) ∷ rest
    else rest

unfoldable pub for_each_matching : TarFs → List ℕ → List ℕ → List (List ℕ × List ℕ)
unfolding matching trim_start
for_each_matching fs prefix suffix = matching fs (trim_start prefix) suffix
