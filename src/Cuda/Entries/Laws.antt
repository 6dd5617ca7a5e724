-- ===== src/Cuda/Entries/Laws.antt =====
-- The search for an entry and the list of entries agree.
use proto_gpu.Prelude.{
  ℕ, zero, suc, ◌+◌, ◌≤◌, ◌<◌, ◌≡◌, refl, Bool, true, false, ◌||◌, Option, none, some, List, [],
  ◌∷◌, ◌++◌, arith, length, length-append, drop, if◌then◌else◌, lt→ltb, Bool-cases, inl, inr, ne→==,
  ap, sym,
}
use proto_gpu.Prelude.Chars.{Bytes, same_bytes}
use proto_gpu.Cuda.Entries.{
  ptx_contains_entry, ptx_list_entry_names, contains_from, list_from, find, with_name, is_named,
  parse_entry_name_at, after_needle,
}

-- The name is one of the list.
abbrev pub elem : Bytes → List Bytes → Bool
elem e [] = false
elem e (n ∷ ns) = same_bytes n e || elem e ns

elem-append :
    (e : Bytes) (ns : List Bytes) (n : Bytes)
    → elem e (ns ++ n ∷ []) ≡ (elem e ns || same_bytes n e)
elem-append e [] n = ground arith
elem-append e (m ∷ ns) n = ground (arith, elem-append e ns n)

elem-with_name :
    (e : Bytes) (name : Option Bytes) (out : List Bytes)
    → elem e (with_name name out) ≡ (elem e out || is_named name e)
unfolding with_name is_named
elem-with_name e none out = ground arith
elem-with_name e (some n) out = elem-append e out n

length-with_name :
    (name : Option Bytes) (out : List Bytes) → length (with_name name out) ≤ length out + 1
unfolding with_name
length-with_name none out = omega arith
length-with_name (some n) out = omega (arith, length-append out (n ∷ []))

length-drop : (n : ℕ) (s : Bytes) → length (drop n s) ≤ length s
length-drop zero s = omega arith
length-drop (suc n) [] = omega arith
length-drop (suc n) (c ∷ s) = omega (arith, length-drop n s)

-- A place that is found is not empty and lies in what was searched.
length-find :
    (prev : Option ℕ) (s : Bytes) (at : Option ℕ × Bytes)
    → find prev s ≡ some at
    → (0 < length at.1) × (length at.1 ≤ length s)
unfolding find
length-find prev [] at h = cc
length-find prev (c ∷ s) at h = ground (arith, length-find (some c) s at)

length-after : (s : Bytes) → 0 < length s → length (drop 6 s) < length s
length-after [] h = absurd (omega arith)
length-after (c ∷ s) h = omega (arith, length-drop 5 s)

-- Both loops end, and what the search answers is whether the name is in the list.
abbrev Agree : Bytes → List Bytes → Option Bool → Option (List Bytes) → Type 0
Agree e out (some b) (some names) = elem e names ≡ (elem e out || b)
Agree e out _ _ = ⊥

Agree-with_name :
    (e : Bytes) (name : Option Bytes) (out : List Bytes) (found : Option Bool)
    (names : Option (List Bytes))
    → Agree e (with_name name out) found names
    → Agree e out (if is_named name e then some true else found) names
Agree-with_name e name out (some b) (some names) h = elim (Bool-cases (is_named name e)) [
  | inl t ↦ rw t (ground (arith, elem-with_name e name out))
  | inr f ↦ rw f (ground (arith, elem-with_name e name out))
]
Agree-with_name e name out none names h = absurd h
Agree-with_name e name out (some b) none h = absurd h

module _ (fuel : ℕ) (prev : Option ℕ) (s : Bytes) where
  contains_from-found :
      (e : Bytes) (at : Option ℕ × Bytes)
      → find prev s ≡ some at
      → contains_from (suc fuel) prev s e ≡ (
          if is_named (parse_entry_name_at at.0 at.1) e
          then some true
          else contains_from fuel (some b'y') (drop 6 at.1) e)
  unfolding contains_from after_needle
  contains_from-found e at h = rw (h, contains_from) refl

  list_from-found :
      (max_entries : ℕ) (out : List Bytes) (at : Option ℕ × Bytes)
      → length out < max_entries
      → find prev s ≡ some at
      → list_from (suc fuel) prev s max_entries out
        ≡ list_from fuel
            (some b'y')
            (drop 6 at.1)
            max_entries
            (with_name (parse_entry_name_at at.0 at.1) out)
  unfolding list_from after_needle
  list_from-found max_entries out at room h = rw (lt→ltb _ _ room, list_from, h) refl

  contains_from-missed :
      (e : Bytes) → find prev s ≡ none → contains_from (suc fuel) prev s e ≡ some false
  unfolding contains_from
  contains_from-missed e h = ground arith

  list_from-missed :
      (max_entries : ℕ) (out : List Bytes)
      → length out < max_entries
      → find prev s ≡ none
      → list_from (suc fuel) prev s max_entries out ≡ some out
  unfolding list_from
  list_from-missed max_entries out room h = ground arith

loops-Agree :
    (fuel : ℕ) (prev : Option ℕ) (s e : Bytes) (max_entries : ℕ) (out : List Bytes)
    → length s < fuel
    → length out + length s < max_entries
    → Agree e out (contains_from fuel prev s e) (list_from fuel prev s max_entries out)
loops-Agree zero prev s e max_entries out enough room = absurd (omega arith)
loops-Agree (suc fuel) prev s e max_entries out enough room =
    go (find prev s) refl
      (λ t os enough room. loops-Agree fuel (some b'y') t e max_entries os enough room)
  where
    go :
        (o : Option (Option ℕ × Bytes))
        → find prev s ≡ o
        → ((t : Bytes) (os : List Bytes)
            → length t < fuel
            → length os + length t < max_entries
            → Agree e os
                (contains_from fuel (some b'y') t e)
                (list_from fuel (some b'y') t max_entries os))
        → Agree e out
            (contains_from (suc fuel) prev s e)
            (list_from (suc fuel) prev s max_entries out)
    go none h ih =
        rw
          (
            contains_from-missed fuel prev s e h,
            list_from-missed fuel prev s max_entries out (omega arith) h,
          )
          (ground arith)
    go (some at) h ih =
        let (some_left, inside) = length-find prev s at h in
        let less = length-after at.1 some_left in
        rw
          (
            contains_from-found fuel prev s e at h,
            list_from-found fuel prev s max_entries out at (omega arith) h,
          )
          (Agree-with_name e (parse_entry_name_at at.0 at.1) out _ _ (
            ih (drop 6 at.1) (with_name (parse_entry_name_at at.0 at.1) out)
              (omega (arith, less, inside))
              (omega (arith, less, inside, length-with_name (parse_entry_name_at at.0 at.1) out))))

-- What `Agree` says where nothing is listed yet.
Agree-answers :
    (e : Bytes) (found : Option Bool) (names : Option (List Bytes))
    → Agree e [] found names
    → (ns : List Bytes) × (names ≡ some ns) × (found ≡ some (elem e ns))
Agree-answers e (some b) (some ns) h = (ns, refl, ap some (sym h))
Agree-answers e none names h = absurd h
Agree-answers e (some b) none h = absurd h

-- In every text the search for an entry ends, and so does the list of the entries where the limit
-- is above the length of the text; the search answers whether the name, not empty, is in the list.
pub ptx_contains_entry-elem :
    (text : Bytes) (c : ℕ) (name : Bytes) (max_entries : ℕ)
    → length text < max_entries
    → (names : List Bytes) × (ptx_list_entry_names text max_entries ≡ some names)
      × (ptx_contains_entry text (c ∷ name) ≡ some (elem (c ∷ name) names))
unfolding ptx_contains_entry ptx_list_entry_names
ptx_contains_entry-elem text c name max_entries room = rw (ne→== max_entries 0 (omega arith)) (
    Agree-answers (c ∷ name) _ _ (
      loops-Agree (suc (length text)) none text (c ∷ name) max_entries [] (omega arith)
        (omega arith)))
