-- ===== src/Environ/Update.antt =====
-- environ_add and environ_append as updates of a map from names to values.
use startup.Base.{
  true, false, Option, none, some, List, [], ◌∷◌, ◌++◌, ◌&&◌, inl, inr, if◌then◌else◌, Str,
  has_byte, key_of, value_of, str_eq, str_eq_iff, ◌≡◌, refl, arith, Bool-cases, ◌≢◌,
}
use startup.Environ.{has_key, environ_lookup, environ_getn, replace_entry, delete_entry}

-- A name of a variable holds no '='.
abbrev pub IsName : Str → Type 0
IsName k = has_byte b'=' k ≡ false

-- The test of `environ_lookup` compares the entry's own key.
pub has_key-key_of : (k e : Str) → IsName k → has_key k e ≡ (has_byte b'=' e && str_eq (key_of e) k)
unfolding has_key has_byte key_of str_eq
has_key-key_of [] [] n = refl
has_key-key_of [] (x ∷ e) n = ground arith
has_key-key_of (y ∷ k) [] n = ground arith
has_key-key_of (y ∷ k) (x ∷ e) n = ground (arith, has_key-key_of k e)

pub key_of-IsName : (e : Str) → IsName (key_of e)
unfolding has_byte key_of
key_of-IsName [] = refl
key_of-IsName (x ∷ e) = ground (arith, key_of-IsName e)

pub key_of-of_IsName : (k v : Str) → IsName k → key_of (k ++ b'=' ∷ v) ≡ k
unfolding has_byte key_of
key_of-of_IsName [] v n = refl
key_of-of_IsName (x ∷ k) v n = ground (arith, key_of-of_IsName k v)

pub value_of-of_IsName : (k v : Str) → IsName k → value_of (k ++ b'=' ∷ v) ≡ some v
unfolding has_byte value_of
value_of-of_IsName [] v n = refl
value_of-of_IsName (x ∷ k) v n = ground (arith, value_of-of_IsName k v)

pub has_byte-of_append : (k v : Str) → has_byte b'=' (k ++ b'=' ∷ v) ≡ true
unfolding has_byte
has_byte-of_append [] v = refl
has_byte-of_append (x ∷ k) v = ground (arith, has_byte-of_append k v)

-- Every entry is KEY=VALUE, and no two entries have the same key.
abbrev pub IsTable : List Str → Type 0
IsTable [] = Unit {0}
IsTable (e ∷ es) = (has_byte b'=' e ≡ true) × (environ_getn es (key_of e) ≡ none) × IsTable es

-- Reading through a lookup, entry by entry.
pub environ_getn-cons :
    (e : Str) (es : List Str) (j : Str)
    → environ_getn (e ∷ es) j ≡ (if has_key j e then value_of e else environ_getn es j)
unfolding environ_getn
environ_getn-cons e es j = ground arith

pub environ_getn-nil : (j : Str) → environ_getn [] j ≡ none
unfolding environ_getn
environ_getn-nil j = refl

pub value_of-of_has_byte : (e : Str) → has_byte b'=' e ≡ true → value_of e ≢ none
unfolding has_byte value_of
value_of-of_has_byte [] h = λ _. cc
value_of-of_has_byte (x ∷ e) h =
    λ n. ground (arith, λ (k : has_byte b'=' e ≡ true). value_of-of_has_byte e k)

-- In a well-formed table a key has an entry exactly when it has a value.
pub environ_lookup-eq_none :
    (env : List Str) (j : Str) → IsName j → environ_lookup env j ≡ none → environ_getn env j ≡ none
unfolding environ_getn
environ_lookup-eq_none env j n h = rw h

pub environ_lookup-ne_none :
    (env : List Str) (j : Str) (s : List Str)
    → IsName j
    → environ_lookup env j ≡ some s
    → environ_getn env j ≢ none
unfolding environ_lookup
environ_lookup-ne_none [] j s n h = λ _. cc
environ_lookup-ne_none (e ∷ es) j s n h = elim (Bool-cases (has_key j e)) [
  | inl t ↦
      rw (environ_getn-cons e es j, t)
        (value_of-of_has_byte e (ground (arith, has_key-key_of j e n)))
  | inr f ↦ rw (environ_getn-cons e es j, f) (environ_lookup-ne_none es j s n (rw f at h))
]

-- What a read of `j` gives after a write of `value` to `key`.
abbrev pub written : Str → Option Str → Str → Option Str → Option Str
written key value j old = if str_eq key j then value else old

module _ (key new : Str) (is_key : IsName key) (has : has_byte b'=' new ≡ true)
    (same : key_of new ≡ key) where
  pub replace_entry-getn :
      (env : List Str) (j : Str)
      → IsName j
      → environ_lookup env key ≢ none
      → environ_getn (replace_entry env key new) j
        ≡ written key (value_of new) j (environ_getn env j)
  unfolding replace_entry environ_lookup
  replace_entry-getn [] j n h = absurd (h refl)
  replace_entry-getn (e ∷ es) j n h = elim (Bool-cases (has_key key e)) [
    | inl t ↦ rw t (
        ground (
          arith,
          environ_getn-cons new es j,
          environ_getn-cons e es j,
          has_key-key_of j e n,
          has_key-key_of j new n,
          has_key-key_of key e is_key,
          same,
          str_eq_iff (key_of e) key,
          str_eq_iff key j,
          str_eq_iff (key_of e) j,
        ))
    | inr f ↦ rw f (
        ground (
          arith,
          environ_getn-cons e (replace_entry es key new) j,
          environ_getn-cons e es j,
          has_key-key_of j e n,
          has_key-key_of key e is_key,
          str_eq_iff (key_of e) key,
          str_eq_iff key j,
          str_eq_iff (key_of e) j,
          replace_entry-getn es j n (rw f at h),
        ))
  ]

  pub append_entry-getn :
      (env : List Str) (j : Str)
      → IsName j
      → environ_lookup env key ≡ none
      → environ_getn (env ++ new ∷ []) j ≡ written key (value_of new) j (environ_getn env j)
  unfolding environ_lookup
  append_entry-getn [] j n h =
      ground (arith, environ_getn-cons new [] j, environ_getn-nil j, has_key-key_of j new n, same)
  append_entry-getn (e ∷ es) j n h = elim (Bool-cases (has_key key e)) [
    | inl t ↦ cc (rw t at h)
    | inr f ↦ ground (
      arith,
      environ_getn-cons e (es ++ new ∷ []) j,
      environ_getn-cons e es j,
      has_key-key_of j e n,
      has_key-key_of key e is_key,
      str_eq_iff (key_of e) key,
      str_eq_iff key j,
      str_eq_iff (key_of e) j,
      append_entry-getn es j n (rw f at h),
    )
  ]

pub delete_entry-getn :
    (env : List Str) (key j : Str)
    → IsTable env
    → IsName key
    → IsName j
    → environ_getn (delete_entry env key) j ≡ written key none j (environ_getn env j)
unfolding delete_entry
delete_entry-getn [] key j t k n = ground (arith, environ_getn-nil j)
delete_entry-getn (e ∷ es) key j t k n = ground (
  arith,
  environ_getn-cons e (delete_entry es key) j,
  environ_getn-cons e es j,
  has_key-key_of j e n,
  has_key-key_of key e k,
  str_eq_iff (key_of e) key,
  str_eq_iff key j,
  str_eq_iff (key_of e) j,
  delete_entry-getn es key j t.2 k n,
)
