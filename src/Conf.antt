-- ===== src/Conf.antt =====
-- The names of configuration files, and the search for override files: is_conf_file_std,
-- is_conf_file_override, is_conf_file, conf_to_job_name, toggle_conf_name and conf_get_best_override of
-- init/conf.c. A source is known by its address; what lstat tells of a path is a parameter.
mod Tests
pub mod Names
pub mod Override
use startup.Base.{
  ℕ, Bool, true, false, not, Option, none, some, List, [], ◌∷◌, ◌++◌, ◌==◌, ◌&&◌, ◌||◌,
  if◌then◌else◌, Str, codes, str_eq, starts_with,
}

abbrev pub conf_ext_std : Str
conf_ext_std = codes ".conf"

abbrev pub conf_ext_override : Str
conf_ext_override = codes ".override"

abbrev pub is_conf_ext : Str → Bool
is_conf_ext ext = str_eq ext conf_ext_std || str_eq ext conf_ext_override

-- `strrchr (path, '.')`: what stands before the last '.', and the rest from it on.
unfoldable pub last_dot : Str → Option (Str × Str)
last_dot [] = none
last_dot (c ∷ path) = elim (last_dot path) [
  | some (before, ext) ↦ some (c ∷ before, ext)
  | none ↦ if c == b'.' then some ([], c ∷ path) else none
]

unfoldable pub is_conf_file_std : Str → Bool
unfolding last_dot
is_conf_file_std path = elim (last_dot path) [
  | none ↦ false
  | some (before, ext) ↦ str_eq ext conf_ext_std
]

unfoldable pub is_conf_file_override : Str → Bool
unfolding last_dot
is_conf_file_override path = elim (last_dot path) [
  | none ↦ false
  | some (before, ext) ↦ str_eq ext conf_ext_override
]

-- `(ptr > path) && (ptr[-1] != '/')`
unfoldable pub is_name_before : Str → Bool
is_name_before [] = false
is_name_before (c ∷ []) = not (c == b'/')
is_name_before (c ∷ d ∷ before) = is_name_before (d ∷ before)

unfoldable pub is_conf_file : Str → Bool
unfolding last_dot is_name_before
is_conf_file path = elim (last_dot path) [
  | none ↦ false
  | some (before, ext) ↦ is_name_before before && is_conf_ext ext
]

-- `none` is the NULL for a path without a '.'.
unfoldable pub toggle_conf_name : Str → Option Str
unfolding last_dot
toggle_conf_name path = elim (last_dot path) [
  | none ↦ none
  | some (before, ext) ↦
      some (before ++ (if str_eq ext conf_ext_std then conf_ext_override else conf_ext_std))
]

-- `start += source_len`
unfoldable pub skip_bytes : Str → Str → Str
skip_bytes [] s = s
skip_bytes (x ∷ source) [] = []
skip_bytes (x ∷ source) (c ∷ s) = skip_bytes source s

unfoldable pub skip_slashes : Str → Str
skip_slashes [] = []
skip_slashes (c ∷ s) = let rest = skip_slashes s in if c == b'/' then rest else c ∷ s

unfoldable pub name_of : Str → Str
unfolding last_dot
name_of start = elim (last_dot start) [
  | none ↦ start
  | some (before, ext) ↦ if is_conf_ext ext then before else start
]

unfoldable pub conf_to_job_name : Str → Str → Str
unfolding skip_bytes skip_slashes name_of
conf_to_job_name source_path conf_path = name_of (
    skip_slashes
      (if starts_with conf_path source_path then skip_bytes source_path conf_path else conf_path))

pub data ConfSourceType : Type 0 where
  conf_file conf_dir conf_job_dir : ConfSourceType

pub record ConfSource : Type 0 where
  pub address : ℕ
  pub type : ConfSourceType
  pub path : Str

abbrev pub is_file : ConfSourceType → Bool
is_file conf_file = true
is_file conf_dir = false
is_file conf_job_dir = false

abbrev pub override_path : Str → ConfSource → Str
override_path name source = source.path ++ b'/' ∷ (name ++ conf_ext_override)

-- `regular` tells whether there is a regular file at a path.
unfoldable pub conf_get_best_override : (Str → Bool) → Str → ℕ → List ConfSource → Option Str
conf_get_best_override regular name last [] = none
conf_get_best_override regular name last (source ∷ sources) =
    let rest = conf_get_best_override regular name last sources in
    if is_file source.type
    then rest
    else if regular (override_path name source)
    then some (override_path name source)
    else if source.address == last
    then none
    else rest
