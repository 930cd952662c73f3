-- ===== src/Environ/Table.antt =====
-- environ_add keeps a table well formed, and is an update of the map that the table stands for.
use startup.Base.{
  Bool, true, false, Option, none, some, ◌>>=◌, List, [], ◌∷◌, ◌++◌, inl, inr, if◌then◌else◌, Str,
  has_byte, key_of, value_of, str_eq, str_eq_iff, ◌≡◌, refl, arith, Bool-cases, Option-cases, ap,
  is_some, ◌∙◌,
}
use startup.Environ.{
  has_key, environ_lookup, environ_getn, replace_entry, delete_entry, new_entry, environ_add,
  environ_append,
}
use startup.Environ.Update.{
  IsName, IsTable, has_key-key_of, key_of-IsName, key_of-of_IsName, value_of-of_IsName,
  has_byte-of_append, environ_getn-nil, environ_lookup-eq_none, environ_lookup-ne_none, written,
  replace_entry-getn, append_entry-getn, delete_entry-getn,
}

replace_entry-none :
    (env : List Str) (key new : Str)
    → environ_lookup env key ≡ none
    → replace_entry env key new ≡ env
unfolding replace_entry environ_lookup
replace_entry-none [] key new h = refl
replace_entry-none (e ∷ es) key new h = ground (arith, replace_entry-none es key new)

module _ (key new : Str) (is_key : IsName key) (has : has_byte b'=' new ≡ true)
    (same : key_of new ≡ key) where
  -- A key that another entry has is still absent after a write to `key`.
  absent-replace_entry :
      (env : List Str) (j : Str)
      → IsName j
      → str_eq key j ≡ false
      → environ_getn env j ≡ none
      → environ_getn (replace_entry env key new) j ≡ none
  absent-replace_entry env j n ne h = elim (Option-cases (environ_lookup env key)) [
    | inl gone ↦ rw (replace_entry-none env key new gone) h
    | inr (s, found) ↦
        ground (arith, replace_entry-getn key new is_key has same env j n (rw found (λ e. cc)))
  ]

  replace_entry-IsTable : (env : List Str) → IsTable env → IsTable (replace_entry env key new)
  unfolding replace_entry
  replace_entry-IsTable [] t = tt
  replace_entry-IsTable (e ∷ es) t = elim (Bool-cases (has_key key e)) [
    | inl y ↦
        rw y
          (has, ground (arith, has_key-key_of key e is_key, same, str_eq_iff (key_of e) key), t.2)
    | inr f ↦ rw f (
      t.0,
      absent-replace_entry es (key_of e) (key_of-IsName e)
          (ground (
            arith,
            has_key-key_of key e is_key,
            str_eq_iff (key_of e) key,
            str_eq_iff key (key_of e),
          ))
          t.1,
      replace_entry-IsTable es t.2,
    )
  ]

  append_entry-IsTable :
      (env : List Str) → IsTable env → environ_lookup env key ≡ none → IsTable (env ++ new ∷ [])
  unfolding environ_lookup
  append_entry-IsTable [] t h = (has, environ_getn-nil (key_of new), tt)
  append_entry-IsTable (e ∷ es) t h = elim (Bool-cases (has_key key e)) [
    | inl y ↦ cc (rw y at h)
    | inr f ↦ (
      t.0,
      ground (
        arith,
        append_entry-getn key new is_key has same es (key_of e) (key_of-IsName e) (rw f at h),
        has_key-key_of key e is_key,
        str_eq_iff (key_of e) key,
        str_eq_iff key (key_of e),
      ),
      append_entry-IsTable es t.2 (rw f at h),
    )
  ]

delete_entry-IsTable :
    (env : List Str) (key : Str) → IsName key → IsTable env → IsTable (delete_entry env key)
unfolding delete_entry
delete_entry-IsTable [] key k t = tt
delete_entry-IsTable (e ∷ es) key k t = elim (Bool-cases (has_key key e)) [
  | inl y ↦ rw y t.2
  | inr f ↦ rw f (
    t.0,
    ground (arith, delete_entry-getn es key (key_of e) t.2 k (key_of-IsName e)),
    delete_entry-IsTable es key k t.2,
  )
]

key_of-all : (str : Str) → has_byte b'=' str ≡ false → key_of str ≡ str
unfolding has_byte key_of
key_of-all [] h = refl
key_of-all (x ∷ str) h = ground (arith, key_of-all str)

module _ (getenv : Str → Option Str) where
  -- The value that `str` gives to its key: its own, or that of init's environment.
  abbrev pub denoted : Str → Option Str
  denoted str = if has_byte b'=' str then value_of str else getenv str

  new_entry-some :
      (str new : Str)
      → new_entry getenv str ≡ some new
      → (has_byte b'=' new ≡ true) × (key_of new ≡ key_of str) × (value_of new ≡ denoted str)
  unfolding new_entry
  new_entry-some str new h = elim (Bool-cases (has_byte b'=' str)) [
    | inl y ↦ ground arith
    | inr f ↦ go (getenv str) refl f (rw f at h)
  ]
    where
      go :
          (value : Option Str)
          → getenv str ≡ value
          → has_byte b'=' str ≡ false
          → (getenv str >>= λ value. some (str ++ b'=' ∷ value)) ≡ some new
          → (has_byte b'=' new ≡ true) × (key_of new ≡ key_of str) × (value_of new ≡ denoted str)
      go none e f h = cc
      go (some value) e f h = ground (
        arith,
        has_byte-of_append str value,
        key_of-of_IsName str value f,
        value_of-of_IsName str value f,
        key_of-all str f,
      )

  new_entry-none : (str : Str) → new_entry getenv str ≡ none → denoted str ≡ none
  unfolding new_entry
  new_entry-none str h = ground arith

  -- On a well-formed table, environ_add with `replace` sets the value of the string's key to what the string denotes, or
  -- removes the key if it denotes nothing, and leaves every other name as it was.
  pub environ_add-getn :
      (env : List Str) (str j : Str)
      → IsTable env
      → IsName j
      → environ_getn (environ_add getenv env true str) j
        ≡ written (key_of str) (denoted str) j (environ_getn env j)
  unfolding environ_add
  environ_add-getn env str j t n =
      add (environ_lookup env (key_of str)) refl (new_entry getenv str) refl
    where
      add :
          (found : Option (List Str))
          → environ_lookup env (key_of str) ≡ found
          → (new : Option Str) → new_entry getenv str ≡ new
          → environ_getn (environ_add getenv env true str) j
            ≡ written (key_of str) (denoted str) j (environ_getn env j)
      add none f none e = ground (
        arith,
        new_entry-none str e,
        environ_lookup-eq_none env (key_of str) (key_of-IsName str) f,
        str_eq_iff (key_of str) j,
      )
      add none f (some new) e = ground (
        arith,
        new_entry-some str new e,
        λ (h : has_byte b'=' new ≡ true) (k : key_of new ≡ key_of str).
            append_entry-getn (key_of str) new (key_of-IsName str) h k env j n f,
      )
      add (some s) f none e = ground (
        arith,
        new_entry-none str e,
        delete_entry-getn env (key_of str) j t (key_of-IsName str) n,
      )
      add (some s) f (some new) e = ground (
        arith,
        new_entry-some str new e,
        λ (h : has_byte b'=' new ≡ true) (k : key_of new ≡ key_of str).
            replace_entry-getn (key_of str) new (key_of-IsName str) h k env j n (rw f (λ x. cc)),
      )

  -- environ_add without `replace` gives the string's key a value only if it has none.
  pub environ_add-getn_keep :
      (env : List Str) (str j : Str)
      → IsName j
      → environ_getn (environ_add getenv env false str) j ≡ (
          if is_some (environ_getn env j)
          then environ_getn env j
          else written (key_of str) (denoted str) j none)
  unfolding environ_add
  environ_add-getn_keep env str j n =
      add (environ_lookup env (key_of str)) refl (new_entry getenv str) refl
    where
      add :
          (found : Option (List Str))
          → environ_lookup env (key_of str) ≡ found
          → (new : Option Str) → new_entry getenv str ≡ new
          → environ_getn (environ_add getenv env false str) j ≡ (
              if is_some (environ_getn env j)
              then environ_getn env j
              else written (key_of str) (denoted str) j none)
      add none f none e = ground (arith, new_entry-none str e)
      add none f (some new) e = ground (
        arith,
        new_entry-some str new e,
        str_eq_iff (key_of str) j,
        environ_lookup-eq_none env (key_of str) (key_of-IsName str) f,
        λ (h : has_byte b'=' new ≡ true) (k : key_of new ≡ key_of str).
            append_entry-getn (key_of str) new (key_of-IsName str) h k env j n f,
      )
      add (some s) f new e = ground (
        arith,
        str_eq_iff (key_of str) j,
        environ_lookup-ne_none env (key_of str) s (key_of-IsName str) f,
      )

  -- environ_add keeps every entry in KEY=VALUE form and the keys distinct.
  pub environ_add-IsTable :
      (env : List Str) (replace : Bool) (str : Str)
      → IsTable env
      → IsTable (environ_add getenv env replace str)
  unfolding environ_add
  environ_add-IsTable env replace str t =
      add replace (environ_lookup env (key_of str)) refl (new_entry getenv str) refl
    where
      add :
          (r : Bool) (found : Option (List Str))
          → environ_lookup env (key_of str) ≡ found
          → (new : Option Str) → new_entry getenv str ≡ new
          → IsTable (environ_add getenv env r str)
      add r none f none e = let p : environ_add getenv env r str ≡ env = ground arith in rw p t
      add r none f (some new) e =
          let (h, k, v) = new_entry-some str new e in
          let p : environ_add getenv env r str ≡ env ++ new ∷ [] = ground arith in
          rw p (append_entry-IsTable (key_of str) new (key_of-IsName str) h k env t f)
      add true (some s) f none e =
          let p : environ_add getenv env true str ≡ delete_entry env (key_of str) = ground arith in
          rw p (delete_entry-IsTable env (key_of str) (key_of-IsName str) t)
      add true (some s) f (some new) e =
          let (h, k, v) = new_entry-some str new e in
          let p : environ_add getenv env true str ≡ replace_entry env (key_of str) new =
            ground arith in
          rw p (replace_entry-IsTable (key_of str) new (key_of-IsName str) h k env t)
      add false (some s) f new e =
          let p : environ_add getenv env false str ≡ env = ground arith in rw p t

-- The map that a list of strings makes of another: the last string for a name decides.
abbrev pub overridden : (Str → Option Str) → Option Str → List Str → Str → Option Str
overridden getenv old [] j = old
overridden getenv old (str ∷ strs) j =
    overridden getenv (written (key_of str) (denoted getenv str) j old) strs j

-- environ_append keeps the table well formed.
pub environ_append-IsTable :
    (getenv : Str → Option Str) (env : List Str) (replace : Bool) (new : List Str)
    → IsTable env
    → IsTable (environ_append getenv env replace new)
unfolding environ_append
environ_append-IsTable getenv env replace [] t = t
environ_append-IsTable getenv env replace (str ∷ strs) t =
    environ_append-IsTable getenv (environ_add getenv env replace str) replace strs
      (environ_add-IsTable getenv env replace str t)

-- environ_append with `replace`, on a well-formed table, overrides the table's values with those of
-- the strings, the last string for a name deciding.
pub environ_append-getn :
    (getenv : Str → Option Str) (env new : List Str) (j : Str)
    → IsTable env
    → IsName j
    → environ_getn (environ_append getenv env true new) j
      ≡ overridden getenv (environ_getn env j) new j
unfolding environ_append
environ_append-getn getenv env [] j t n = refl
environ_append-getn getenv env (str ∷ strs) j t n =
    environ_append-getn getenv (environ_add getenv env true str) strs j
      (environ_add-IsTable getenv env true str t) n
    ∙ ap (λ old. overridden getenv old strs j) (environ_add-getn getenv env str j t n)
