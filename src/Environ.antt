-- ===== src/Environ.antt =====
-- Environment tables: init/environ.c. A table `char **` is the list of its strings, NULL and the
-- empty array alike; `size_t *len` is the list's length. `getenv` reads init's own environment and
-- is a parameter. Allocation is taken to succeed, as the callers' NIH_MUST makes it.
mod Tests
pub mod Update
pub mod Table
pub mod Expand
pub mod Remove
use startup.Base.{
  ℕ, Bool, true, false, not, Option, none, some, ◌>>=◌, List, [], ◌∷◌, ◌++◌, ◌==◌, ◌&&◌,
  if◌then◌else◌, Str, has_byte, key_of, value_of, starts_with,
}

-- `strncmp (entry, key, len) == 0 && entry[len] == '='`, for the `len` bytes of `key`.
unfoldable pub has_key : Str → Str → Bool
has_key [] [] = false
has_key [] (x ∷ e) = x == b'='
has_key (y ∷ k) [] = false
has_key (y ∷ k) (x ∷ e) = x == y && has_key k e

-- The pointer into the array is what stands from there on.
unfoldable pub environ_lookup : List Str → Str → Option (List Str)
environ_lookup [] key = none
environ_lookup (e ∷ es) key =
    let rest = environ_lookup es key in if has_key key e then some (e ∷ es) else rest

-- `strchr (*e, '=') + 1` of the entry that a pointer is at.
unfoldable pub value_at : List Str → Option Str
value_at [] = none
value_at (e ∷ es) = value_of e

unfoldable pub environ_getn : List Str → Str → Option Str
unfolding environ_lookup value_at
environ_getn env key = environ_lookup env key >>= value_at

abbrev pub environ_get : List Str → Str → Option Str
environ_get = environ_getn

unfoldable pub environ_all_valid : List Str → Bool
environ_all_valid [] = true
environ_all_valid (e ∷ es) =
    let rest = environ_all_valid es in if has_byte b'=' e then rest else false

-- `*old_str = new_str` for the entry that `environ_lookup` finds.
unfoldable pub replace_entry : List Str → Str → Str → List Str
replace_entry [] key new = []
replace_entry (e ∷ es) key new =
    let rest = replace_entry es key new in if has_key key e then new ∷ es else e ∷ rest

-- The `memmove` that closes the gap of that entry.
unfoldable pub delete_entry : List Str → Str → List Str
delete_entry [] key = []
delete_entry (e ∷ es) key = let rest = delete_entry es key in if has_key key e then es else e ∷ rest

-- Two tests of `environ_remove`: the entry's whole key begins `str`.
unfoldable pub environ_remove_from : List Str → Str → List Str
environ_remove_from [] str = []
environ_remove_from (e ∷ []) str = if starts_with str (key_of e) then [] else e ∷ []
environ_remove_from (e ∷ d ∷ es) str =
    let after = environ_remove_from es str in
    let next = environ_remove_from (d ∷ es) str in
    if starts_with str (key_of e) then d ∷ after else e ∷ next

-- `e++` runs after the entries have moved up, so the one behind a removed entry is not looked at.
unfoldable pub environ_remove : List Str → Str → Option (List Str)
unfolding environ_remove_from
environ_remove [] str = none
environ_remove (e ∷ es) str = some (environ_remove_from (e ∷ es) str)

module _ (getenv : Str → Option Str) where
  -- The entry that `str` stands for: itself, or KEY with the value in init's environment.
  unfoldable pub new_entry : Str → Option Str
  new_entry str =
      if has_byte b'=' str then some str else (getenv str >>= λ value. some (str ++ b'=' ∷ value))

  unfoldable pub environ_add : List Str → Bool → Str → List Str
  unfolding new_entry environ_lookup
  environ_add env replace str = elim (environ_lookup env (key_of str)) [
    | some _ ↦
        if replace
        then elim (new_entry str) [
          | some new ↦ replace_entry env (key_of str) new
          | none ↦ delete_entry env (key_of str)
        ]
        else env
    | none ↦ elim (new_entry str) [ some new ↦ env ++ new ∷ [] | none ↦ env ]
  ]

  unfoldable pub environ_append : List Str → Bool → List Str → List Str
  environ_append env replace [] = env
  environ_append env replace (e ∷ es) = environ_append (environ_add env replace e) replace es
