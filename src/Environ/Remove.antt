-- ===== src/Environ/Remove.antt =====
-- environ_remove: what it takes out of a table.
use startup.Base.{
  true, false, none, some, List, [], ◌∷◌, ◌++◌, inl, inr, Str, key_of, starts_with, All, str_eq,
  str_eq_iff, ◌≡◌, refl, arith, Bool-cases, ap,
}
use startup.Environ.{environ_getn, environ_remove_from, environ_remove, has_key, delete_entry}
use startup.Environ.Update.{
  IsName, IsTable, has_key-key_of, environ_getn-cons, environ_getn-nil, value_of-of_has_byte,
  key_of-of_IsName,
}

starts_with-append : (k s : Str) → starts_with (k ++ s) k ≡ true
unfolding starts_with
starts_with-append [] s = refl
starts_with-append (x ∷ k) s = ground (arith, starts_with-append k s)

-- A removal of a longer name takes out the entry of a name that begins it: `strncmp` compares only
-- as many bytes as the entry's key has.
pub environ_remove-of_prefix :
    (k rest v : Str) (e : Str) (es : List Str)
    → IsName k
    → environ_remove ((k ++ b'=' ∷ v) ∷ e ∷ es) (k ++ rest)
      ≡ some (e ∷ environ_remove_from es (k ++ rest))
unfolding environ_remove
environ_remove-of_prefix k rest v e es n =
    rw (key_of-of_IsName k v n, starts_with-append k rest) refl

module _ (str j : Str) (n : IsName j) (h : starts_with str j ≡ false) where
  not_removed : (e : Str) → starts_with str (key_of e) ≡ true → has_key j e ≡ false
  not_removed e y = ground (arith, has_key-key_of j e n, str_eq_iff (key_of e) j)

  environ_remove_from-getn :
      (env : List Str) → environ_getn (environ_remove_from env str) j ≡ environ_getn env j
  unfolding environ_remove_from
  environ_remove_from-getn [] = refl
  environ_remove_from-getn (e ∷ []) =
      ground (arith, environ_getn-cons e [] j, environ_getn-nil j, not_removed e)
  environ_remove_from-getn (e ∷ d ∷ es) = elim (Bool-cases (starts_with str (key_of e))) [
    | inl y ↦ ground (
      arith,
      environ_getn-cons e (d ∷ es) j,
      environ_getn-cons d es j,
      environ_getn-cons d (environ_remove_from es str) j,
      not_removed e y,
      environ_remove_from-getn es,
    )
    | inr f ↦ ground (
      arith,
      environ_getn-cons e (d ∷ es) j,
      environ_getn-cons e (environ_remove_from (d ∷ es) str) j,
      environ_remove_from-getn (d ∷ es),
    )
  ]

-- A removal of `str` leaves every name that does not begin `str` as it was.
pub environ_remove-getn :
    (env : List Str) (str j : Str) {left : List Str}
    → IsName j
    → starts_with str j ≡ false
    → environ_remove env str ≡ some left
    → environ_getn left j ≡ environ_getn env j
unfolding environ_remove
environ_remove-getn [] str j n h r = cc
environ_remove-getn (e ∷ es) str j n h r =
    ground (arith, environ_remove_from-getn str j n h (e ∷ es))

-- No key of the table begins `str`, unless it is `str`.
abbrev pub IsPrefixFree : List Str → Str → Type 0
IsPrefixFree env str = All (λ e. starts_with str (key_of e) ≡ str_eq (key_of e) str) env

module _ (str : Str) (n : IsName str) where
  environ_remove_from-absent :
      (env : List Str)
      → IsTable env
      → IsPrefixFree env str
      → environ_getn env str ≡ none
      → environ_remove_from env str ≡ env
  unfolding environ_remove_from
  environ_remove_from-absent [] t p g = refl
  environ_remove_from-absent (e ∷ []) t p g =
      ground (arith, environ_getn-cons e [] str, has_key-key_of str e n, value_of-of_has_byte e)
  environ_remove_from-absent (e ∷ d ∷ es) t p g = ground (
    arith,
    environ_getn-cons e (d ∷ es) str,
    has_key-key_of str e n,
    value_of-of_has_byte e,
    environ_remove_from-absent (d ∷ es) t.2 p.1,
  )

  environ_remove_from-delete_entry :
      (env : List Str)
      → IsTable env
      → IsPrefixFree env str
      → environ_remove_from env str ≡ delete_entry env str
  unfolding environ_remove_from delete_entry
  environ_remove_from-delete_entry [] t p = refl
  environ_remove_from-delete_entry (e ∷ []) t p = ground (arith, has_key-key_of str e n)
  environ_remove_from-delete_entry (e ∷ d ∷ es) t p = ground (
    arith,
    has_key-key_of str e n,
    str_eq_iff (key_of e) str,
    environ_remove_from-delete_entry (d ∷ es) t.2 p.1,
    environ_getn-cons d es str,
    has_key-key_of str d n,
    value_of-of_has_byte d,
    environ_remove_from-absent es t.2.2 p.1.1,
  )

-- On a well-formed table with some entry, where no other key begins the name, environ_remove takes
-- out the entry of that name and nothing else.
pub environ_remove-delete_entry :
    (str : Str) (e : Str) (es : List Str)
    → IsName str
    → IsTable (e ∷ es)
    → IsPrefixFree (e ∷ es) str
    → environ_remove (e ∷ es) str ≡ some (delete_entry (e ∷ es) str)
unfolding environ_remove
environ_remove-delete_entry str e es n t p =
    ap some (environ_remove_from-delete_entry str n (e ∷ es) t p)
