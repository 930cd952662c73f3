-- ===== src/Conf/Override.antt =====
-- Which override file conf_get_best_override of init/conf.c finds.
use startup.Base.{
  ℕ, Bool, false, ◌||◌, ap, ◌∙◌, arith, Option, none, some, List, [], ◌∷◌, ◌==◌, if◌then◌else◌, Str,
  ◌≡◌, refl, Bool-cases, inl, inr,
}
use startup.Conf.{ConfSource, is_file, override_path, conf_get_best_override}

-- The sources that are directories.
abbrev pub directories : List ConfSource → List ConfSource
directories [] = []
directories (source ∷ sources) =
    if is_file source.type then directories sources else source ∷ directories sources

-- The sources up to this one, or all of them.
abbrev pub up_to : ℕ → List ConfSource → List ConfSource
up_to last [] = []
up_to last (source ∷ sources) = source ∷ (if source.address == last then [] else up_to last sources)

-- The first of the override files that is there.
abbrev pub first_override : (Str → Bool) → Str → List ConfSource → Option Str
first_override regular name [] = none
first_override regular name (source ∷ sources) =
    if regular (override_path name source)
    then some (override_path name source)
    else first_override regular name sources

abbrev pub is_among : ℕ → List ConfSource → Bool
is_among last [] = false
is_among last (source ∷ sources) = source.address == last || is_among last sources

-- The directories that are searched: up to the last source, if that is a directory, and otherwise
-- all of them.
abbrev pub searched : ℕ → List ConfSource → List ConfSource
searched last sources =
    if is_among last (directories sources)
    then up_to last (directories sources)
    else directories sources

up_to-is_among :
    (last : ℕ) (sources : List ConfSource)
    → is_among last sources ≡ false
    → up_to last sources ≡ sources
up_to-is_among last [] h = refl
up_to-is_among last (source ∷ sources) h =
    let other : (source.address == last) ≡ false = ground (arith, h) in
    rw other (ap (λ t. source ∷ t) (up_to-is_among last sources (ground (arith, h))))

up_to-searched :
    (last : ℕ) (sources : List ConfSource)
    → up_to last (directories sources) ≡ searched last sources
up_to-searched last sources = elim (Bool-cases (is_among last (directories sources))) [
  | inl y ↦ rw y refl
  | inr n ↦ rw n (up_to-is_among last (directories sources) n)
]

conf_get_best_override-up_to :
    (regular : Str → Bool) (name : Str) (last : ℕ) (sources : List ConfSource)
    → conf_get_best_override regular name last sources
      ≡ first_override regular name (up_to last (directories sources))
unfolding conf_get_best_override
conf_get_best_override-up_to regular name last [] = refl
conf_get_best_override-up_to regular name last (source ∷ sources) =
    let rest = conf_get_best_override-up_to regular name last sources in
    elim (Bool-cases (is_file source.type)) [
      | inl y ↦ rw y rest
      | inr n ↦ elim (Bool-cases (regular (override_path name source))) [
        | inl there ↦ rw (n, there) refl
        | inr absent ↦ elim (Bool-cases (source.address == last)) [
          | inl same ↦ rw (n, absent, same) refl
          | inr other ↦ rw (n, absent, other) rest
        ]
      ]
    ]

-- conf_get_best_override finds the override file of the highest priority: the first that there is in
-- the directories, in the order of the sources. If the source that the job's own file came from is
-- one of the directories, none behind it is searched; if it is none of them, as a single file is
-- not, all directories are searched, also those behind it.
pub conf_get_best_override_first :
    (regular : Str → Bool) (name : Str) (last : ℕ) (sources : List ConfSource)
    → conf_get_best_override regular name last sources
      ≡ first_override regular name (searched last sources)
conf_get_best_override_first regular name last sources =
    conf_get_best_override-up_to regular name last sources
    ∙ ap (first_override regular name) (up_to-searched last sources)
