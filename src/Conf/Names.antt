-- ===== src/Conf/Names.antt =====
-- The two files of a job: its configuration and what overrides it.
use startup.Base.{
  Bool, true, false, not, some, [], ◌∷◌, ◌++◌, ◌==◌, ==_refl, ◌&&◌, Str, str_eq, str_eq_iff,
  starts_with, ◌≡◌, refl, sym, ap, ◌∙◌, arith, Bool-cases, Option-cases, some-injective, inl, inr,
}
use startup.Conf.{
  conf_ext_std, conf_ext_override, is_conf_ext, last_dot, is_conf_file_std, is_conf_file_override,
  is_name_before, is_conf_file, toggle_conf_name, skip_bytes, skip_slashes, name_of,
  conf_to_job_name,
}

-- The extension of the configuration of a job, or of what overrides it.
abbrev pub extension : Bool → Str
extension true = conf_ext_override
extension false = conf_ext_std

last_dot-append :
    (before : Str) (o : Bool) → last_dot (before ++ extension o) ≡ some (before, extension o)
unfolding last_dot
last_dot-append [] true = refl
last_dot-append [] false = refl
last_dot-append (c ∷ before) o = rw (last_dot-append before o) refl

last_dot_lem : (path before ext : Str) → last_dot path ≡ some (before, ext) → path ≡ before ++ ext
unfolding last_dot
last_dot_lem [] before ext h = cc
last_dot_lem (c ∷ path) before ext h = elim (Option-cases (last_dot path)) [
  | inr ((b, x), e) ↦
      let pair = some-injective (c ∷ b, x) (before, ext) (rw e at h) in
      ap (λ (s : Str). c ∷ s) (last_dot_lem path b x e) ∙ ap (λ (p : Str × Str). p.0 ++ p.1) pair
  | inl e ↦ elim (Bool-cases (c == b'.')) [
    | inl y ↦
        let pair = some-injective ([], c ∷ path) (before, ext) (rw (e, y) at h) in
        ap (λ (p : Str × Str). p.0 ++ p.1) pair
    | inr n ↦ cc (rw (e, n) at h)
  ]
]

toggle_conf_name-append :
    (before : Str) (o : Bool)
    → toggle_conf_name (before ++ extension o) ≡ some (before ++ extension (not o))
unfolding toggle_conf_name str_eq
toggle_conf_name-append before true = rw (toggle_conf_name, last_dot-append before true) refl
toggle_conf_name-append before false = rw (toggle_conf_name, last_dot-append before false) refl

is_conf_file-append :
    (before : Str) (o : Bool) → is_conf_file (before ++ extension o) ≡ is_name_before before
unfolding is_conf_file str_eq
is_conf_file-append before true = rw (is_conf_file, last_dot-append before true) (ground arith)
is_conf_file-append before false = rw (is_conf_file, last_dot-append before false) (ground arith)

is_conf_file_std-append :
    (before : Str) (o : Bool) → is_conf_file_std (before ++ extension o) ≡ not o
unfolding is_conf_file_std str_eq
is_conf_file_std-append before true = rw (is_conf_file_std, last_dot-append before true) refl
is_conf_file_std-append before false = rw (is_conf_file_std, last_dot-append before false) refl

is_conf_file_override-append :
    (before : Str) (o : Bool) → is_conf_file_override (before ++ extension o) ≡ o
unfolding is_conf_file_override str_eq
is_conf_file_override-append before true =
    rw (is_conf_file_override, last_dot-append before true) refl
is_conf_file_override-append before false =
    rw (is_conf_file_override, last_dot-append before false) refl

extension_cases : (ext : Str) → is_conf_ext ext ≡ true → (o : Bool) × (ext ≡ extension o)
extension_cases ext h = elim (Bool-cases (str_eq ext conf_ext_std)) [
  | inl y ↦ (false, (str_eq_iff ext conf_ext_std).0 y)
  | inr n ↦ (true, (str_eq_iff ext conf_ext_override).0 (ground (arith, n, h)))
]

-- A configuration file is what has one of the two extensions behind a name.
is_conf_file_cases :
    (path : Str)
    → is_conf_file path ≡ true
    → (before : Str) × (o : Bool) × (path ≡ before ++ extension o) × (is_name_before before ≡ true)
unfolding is_conf_file
is_conf_file_cases path h = elim (Option-cases (last_dot path)) [
  | inl e ↦ cc (rw (e, is_conf_file) at h)
  | inr ((before, ext), e) ↦
      let both : (is_name_before before && is_conf_ext ext) ≡ true = rw (e, is_conf_file) at h in
      let named : is_name_before before ≡ true = ground (arith, both) in
      let (o, q) = extension_cases ext (ground (arith, both)) in
      (before, o, last_dot_lem path before ext e ∙ ap (λ (x : Str). before ++ x) q, named)
]

not-not : (o : Bool) → not (not o) ≡ o
not-not true = refl
not-not false = refl

-- The other name of a configuration file has the other one of the two extensions, is the name of a
-- configuration file as well, and its other name is the one that it came from.
pub toggle_conf_name-toggle_conf_name :
    (path : Str)
    → is_conf_file path ≡ true
    → (other : Str) × (toggle_conf_name path ≡ some other)
      × (toggle_conf_name other ≡ some path)
      × (is_conf_file other ≡ true)
      × (is_conf_file_override other ≡ is_conf_file_std path)
      × (is_conf_file_std other ≡ is_conf_file_override path)
toggle_conf_name-toggle_conf_name path h =
    let (before, o, q, named) = is_conf_file_cases path h in
    let other = before ++ extension (not o) in
    (
      other,
      rw q (toggle_conf_name-append before o),
      toggle_conf_name-append before (not o)
          ∙ ap (λ (x : Bool). some (before ++ extension x)) (not-not o)
          ∙ ap (λ (x : Str). some x) (sym q),
      is_conf_file-append before (not o) ∙ named,
      is_conf_file_override-append before (not o)
          ∙ sym (ap is_conf_file_std q ∙ is_conf_file_std-append before o),
      is_conf_file_std-append before (not o)
          ∙ not-not o
          ∙ sym (ap is_conf_file_override q ∙ is_conf_file_override-append before o),
    )

starts_with-append : (source t : Str) → starts_with (source ++ t) source ≡ true
unfolding starts_with
starts_with-append [] t = refl
starts_with-append (c ∷ source) t = rw (==_refl c) (starts_with-append source t)

skip_bytes-append : (source t : Str) → skip_bytes source (source ++ t) ≡ t
unfolding skip_bytes
skip_bytes-append [] t = refl
skip_bytes-append (c ∷ source) t = skip_bytes-append source t

-- The first byte is no slash.
abbrev pub IsRelative : Str → Type 0
IsRelative [] = Unit {0}
IsRelative (c ∷ name) = (c == b'/') ≡ false

skip_slashes-append :
    (name : Str) (o : Bool)
    → IsRelative name
    → skip_slashes (name ++ extension o) ≡ name ++ extension o
unfolding skip_slashes
skip_slashes-append [] true h = refl
skip_slashes-append [] false h = refl
skip_slashes-append (c ∷ name) o h = rw h refl

name_of-append : (name : Str) (o : Bool) → name_of (name ++ extension o) ≡ name
unfolding name_of str_eq
name_of-append name true = rw (name_of, last_dot-append name true) refl
name_of-append name false = rw (name_of, last_dot-append name false) refl

job_name :
    (source name : Str) (o : Bool)
    → IsRelative name
    → conf_to_job_name source (source ++ b'/' ∷ (name ++ extension o)) ≡ name
unfolding conf_to_job_name skip_slashes
job_name source name o h =
    let rest = b'/' ∷ (name ++ extension o) in
    rw (starts_with-append source rest, skip_bytes-append source rest, skip_slashes-append name o h)
      (name_of-append name o)

-- The configuration of a job in a directory and what overrides it both give the job that name, which
-- is that of the file without its extension, slashes of directories below included; it must not
-- begin with a slash.
pub conf_to_job_name-append :
    (source name : Str)
    → IsRelative name
    → (conf_to_job_name source (source ++ b'/' ∷ (name ++ conf_ext_std)) ≡ name)
      × (conf_to_job_name source (source ++ b'/' ∷ (name ++ conf_ext_override)) ≡ name)
conf_to_job_name-append source name h = (job_name source name false h, job_name source name true h)
