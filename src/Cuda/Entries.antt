-- ===== src/Cuda/Entries.antt =====
-- The `.entry` names of a PTX text (cuda/src/cudart_shim/ptx_entry_validate.cpp). A place in the text
-- is the byte before it, if there is one, and the bytes from it on. A loop whose place is not a part
-- of the text by structure takes fuel; `none` is that it ran out.
pub mod Laws
use proto_gpu.Prelude.{
  ℕ, zero, suc, ◌+◌, Bool, true, false, not, ◌&&◌, ◌||◌, Option, none, some, List, [], ◌∷◌, ◌++◌,
  ltb, leb, ◌==◌, if◌then◌else◌, length, drop,
}
use proto_gpu.Prelude.Chars.{Bytes, codes, is_space, is_alnum, same_bytes, starts_with}

is_ident_char : ℕ → Bool
is_ident_char c = is_alnum c || c == b'_' || c == b'$' || c == b'.'

skip_ws : Bytes → Bytes
skip_ws [] = []
skip_ws (c ∷ s) = let rest = skip_ws s in if is_space c then rest else c ∷ s

-- The identifier at the front.
ident : Bytes → Bytes
ident [] = []
ident (c ∷ s) = if is_ident_char c then c ∷ ident s else []

abbrev needle : Bytes
needle = codes ".entry"

starts_ident : Option ℕ → Bool
starts_ident none = false
starts_ident (some c) = is_ident_char c

named : Bytes → Option Bytes
named [] = none
named (c ∷ s) = some (c ∷ s)

-- `prev` is the byte before the keyword, `s` starts with it.
unfoldable pub parse_entry_name_at : Option ℕ → Bytes → Option Bytes
unfolding is_ident_char skip_ws ident starts_ident named
parse_entry_name_at prev s = if starts_ident prev then none else named (ident (skip_ws (drop 6 s)))

-- `find`: the first place from here on where the keyword stands.
find : Option ℕ → Bytes → Option (Option ℕ × Bytes)
find prev [] = none
find prev (c ∷ s) =
    let rest = find (some c) s in if starts_with needle (c ∷ s) then some (prev, c ∷ s) else rest

-- `pos += needle.size()`
after_needle : Bytes → Option ℕ × Bytes
after_needle s = (some b'y', drop 6 s)

is_named : Option Bytes → Bytes → Bool
is_named none entry = false
is_named (some name) entry = same_bytes name entry

contains_from : ℕ → Option ℕ → Bytes → Bytes → Option Bool
unfolding find after_needle is_named
contains_from zero prev s entry = none
contains_from (suc fuel) prev s entry = elim (find prev s) [
  | none ↦ some false
  | some at ↦
      let (prev', s') = after_needle at.1 in
      let rest = contains_from fuel prev' s' entry in
      if is_named (parse_entry_name_at at.0 at.1) entry then some true else rest
]

unfoldable pub ptx_contains_entry : Bytes → Bytes → Option Bool
unfolding contains_from
ptx_contains_entry text [] = some false
ptx_contains_entry text (c ∷ entry) = contains_from (suc (length text)) none text (c ∷ entry)

with_name : Option Bytes → List Bytes → List Bytes
with_name none out = out
with_name (some name) out = out ++ name ∷ []

list_from : ℕ → Option ℕ → Bytes → ℕ → List Bytes → Option (List Bytes)
unfolding find after_needle with_name
list_from zero prev s max_entries out = none
list_from (suc fuel) prev s max_entries out =
    if ltb (length out) max_entries
    then elim (find prev s) [
      | none ↦ some out
      | some at ↦
          let (prev', s') = after_needle at.1 in
          list_from fuel prev' s' max_entries (with_name (parse_entry_name_at at.0 at.1) out)
    ]
    else some out

unfoldable pub ptx_list_entry_names : Bytes → ℕ → Option (List Bytes)
unfolding list_from
ptx_list_entry_names text max_entries =
    if max_entries == 0 then some [] else list_from (suc (length text)) none text max_entries []
