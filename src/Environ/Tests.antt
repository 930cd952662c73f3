-- ===== src/Environ/Tests.antt =====
-- The theorems on environ.c applied to a small table and to short strings.
use startup.Base.{
  true, Option, none, some, List, [], ◌∷◌, Str, codes, has_byte, key_of, value_of, str_eq, ◌≡◌,
  refl, if◌then◌else◌, arith,
}
use startup.Environ.{
  environ_add, environ_remove, environ_remove_from, environ_getn, environ_lookup, has_key, value_at,
}
use startup.Environ.Update.{IsName, IsTable, written}
use startup.Environ.Table.{environ_add-getn, denoted}
use startup.Environ.Remove.{environ_remove-of_prefix}
use startup.Environ.Expand.{environ_expand_until}
use startup.Environ.Expand.Total.{Ends, environ_expand_until-Ends}

abbrev table : List Str
table = codes "A=1" ∷ codes "BC=two" ∷ []

abbrev path_only : Str → Option Str
path_only name = if str_eq name (codes "PATH") then some (codes "/bin") else none

table-IsTable : IsTable table
unfolding has_byte key_of environ_getn environ_lookup has_key value_at value_of
table-IsTable = (refl, refl, (refl, refl, tt))

a-IsName : IsName (codes "A")
unfolding has_byte
a-IsName = refl

environ_add-getn_example :
    environ_getn (environ_add path_only table true (codes "A=3")) (codes "A")
    ≡ written
        (key_of (codes "A=3"))
        (denoted path_only (codes "A=3"))
        (codes "A")
        (environ_getn table (codes "A"))
environ_add-getn_example =
    environ_add-getn path_only table (codes "A=3") (codes "A") table-IsTable a-IsName

p-IsName : IsName (codes "P")
unfolding has_byte
p-IsName = refl

-- Removing PATH from a table that has P removes P.
environ_remove-of_prefix_example :
    environ_remove (codes "P=1" ∷ codes "Q=2" ∷ []) (codes "PATH") ≡ some (codes "Q=2" ∷ [])
unfolding environ_remove_from
environ_remove-of_prefix_example =
    environ_remove-of_prefix (codes "P") (codes "ATH") (codes "1") (codes "Q=2") [] p-IsName

environ_expand_until-Ends_example :
    Ends (codes "}") 5 (environ_expand_until 6 table (codes "}") [] (codes "a$A}b"))
environ_expand_until-Ends_example =
    environ_expand_until-Ends 6 table (codes "}") [] (codes "a$A}b") (omega arith)
