-- ===== src/EventOperator/Environment/Collected.antt =====
-- The table and the list of names that event_operator_environment makes.
use startup.Base.{
  ℕ, ◌+◌, ◌<◌, Bool, true, false, Option, none, some, List, [], ◌∷◌, ◌++◌, ◌==◌, Str, ◌≡◌, ◌≢◌,
  refl, arith, All, append_assoc, append-nil, ap, ◌∙◌, sym,
}
use startup.Environ.{environ_add, environ_append, environ_getn}
use startup.Environ.Update.{
  IsName, IsTable, written, key_of-of_IsName, value_of-of_IsName, has_byte-of_append,
}
use startup.Environ.Table.{
  environ_append-IsTable, environ_append-getn, overridden, environ_add-getn, environ_add-IsTable,
}
use startup.Event.{Store, event_block}
use startup.Event.Block.{
  one_at, Untouched, event_block-blockers, event_block-Untouched, Untouched-refl, Untouched-trans,
  one_at_self,
}
use startup.EventOperator.{EventOperator, gate, event_match}
use startup.EventOperator.Matched.{IsConsistent}
use startup.EventOperator.Environment.{
  visited, last_byte, append_name, append_names, append_events, event_names, add_evlist,
  event_operator_environment, block_all, event_operator_events,
}

-- The events with an active role: those of matched leaves under TRUE gates, from left to right.
abbrev pub active : EventOperator → List ℕ
active (gate g false l r) = []
active (gate g true l r) = active l ++ active r
active (event_match name env v none) = []
active (event_match name env v (some e)) = e ∷ []

visited-active : (t : EventOperator) → IsConsistent t → visited t ≡ some (active t)
unfolding visited
visited-active (gate g false l r) c = refl
visited-active (gate g true l r) c = rw (visited-active l c.1, visited-active r c.2) refl
visited-active (event_match name env true none) c = cc
visited-active (event_match name env true (some e)) c = refl
visited-active (event_match name env false none) c = refl
visited-active (event_match name env false (some e)) c = cc

-- A name as event_new wants it, and with no '=' at its end.
abbrev pub IsEventName : Str → Type 0
IsEventName name = (name ≢ []) × ((last_byte name == b'=') ≡ false)

-- The names with a space between each two.
abbrev pub spaced : List Str → Str
spaced [] = []
spaced (name ∷ names) = b' ' ∷ (name ++ spaced names)

abbrev pub joined : List Str → Str
joined [] = []
joined (name ∷ names) = name ++ spaced names

last_byte-append : (s : Str) (c : ℕ) (t : Str) → last_byte (s ++ c ∷ t) ≡ last_byte (c ∷ t)
unfolding last_byte
last_byte-append [] c t = refl
last_byte-append (x ∷ []) c t = refl
last_byte-append (x ∷ y ∷ s) c t = last_byte-append (y ∷ s) c t

last_byte-name : (s name : Str) → IsEventName name → last_byte (s ++ name) ≡ last_byte name
last_byte-name s [] n = absurd (n.0 refl)
last_byte-name s (c ∷ t) n = last_byte-append s c t

append_names-spaced :
    (names : List Str) (s : Str)
    → (last_byte s == b'=') ≡ false
    → All IsEventName names
    → append_names s names ≡ s ++ spaced names
unfolding append_names append_name
append_names-spaced [] s h a = sym (append-nil s)
append_names-spaced (name ∷ names) s h a =
    let e : last_byte (s ++ b' ' ∷ name) ≡ last_byte name =
      ap last_byte (sym (append_assoc s (b' ' ∷ []) name))
      ∙ last_byte-name (s ++ b' ' ∷ []) name a.0 in
    rw h (
      append_names-spaced names (s ++ b' ' ∷ name) (ap (λ c. c == b'=') e ∙ a.0.1) a.1
      ∙ append_assoc s (b' ' ∷ name) (spaced names))

last_byte-one : last_byte (b'=' ∷ []) ≡ b'='
unfolding last_byte
last_byte-one = refl

append_names-joined :
    (names : List Str) (key : Str)
    → All IsEventName names
    → append_names (key ++ b'=' ∷ []) names ≡ key ++ b'=' ∷ joined names
unfolding append_names append_name
append_names-joined [] key a = refl
append_names-joined (name ∷ names) key a =
    let h : (last_byte (key ++ b'=' ∷ []) == b'=') ≡ true =
      ap (λ c. c == b'=') (last_byte-append key b'=' [] ∙ last_byte-one) in
    let e : last_byte ((key ++ b'=' ∷ []) ++ name) ≡ last_byte name =
      last_byte-name (key ++ b'=' ∷ []) name a.0 in
    rw h (
      append_names-spaced names ((key ++ b'=' ∷ []) ++ name) (ap (λ c. c == b'=') e ∙ a.0.1) a.1
      ∙ simp append_assoc)

-- The variables of the events, in order.
abbrev pub variables : Store → List ℕ → List Str
variables st [] = []
variables st (e ∷ es) = (st e).env ++ variables st es

environ_append-append :
    (getenv : Str → Option Str) (env xs ys : List Str) (replace : Bool)
    → environ_append getenv env replace (xs ++ ys)
      ≡ environ_append getenv (environ_append getenv env replace xs) replace ys
unfolding environ_append
environ_append-append getenv env [] ys replace = refl
environ_append-append getenv env (x ∷ xs) ys replace =
    environ_append-append getenv (environ_add getenv env replace x) xs ys replace

append_events-variables :
    (getenv : Str → Option Str) (st : Store) (env : List Str) (es : List ℕ)
    → append_events getenv st env es ≡ environ_append getenv env true (variables st es)
unfolding append_events environ_append
append_events-variables getenv st env [] = refl
append_events-variables getenv st env (e ∷ es) =
    append_events-variables getenv st (environ_append getenv env true (st e).env) es
    ∙ sym (environ_append-append getenv env (st e).env (variables st es) true)

-- On a consistent tree and a well-formed table event_operator_environment fails no assertion and
-- returns a well-formed table, in which the key holds the names of the active events with spaces
-- between, and every other name what the table and then the active events' variables, in tree order,
-- last give it; the events' names must not be empty nor end in '='.
pub event_operator_environment-getn :
    (getenv : Str → Option Str) (st : Store) (t : EventOperator) (env : List Str) (key j : Str)
    → IsConsistent t
    → IsTable env
    → IsName key
    → IsName j
    → All IsEventName (event_names getenv st (active t))
    → (env' : List Str) × (event_operator_environment getenv st t env (some key) ≡ some env')
      × IsTable env'
      × (environ_getn env' j
          ≡ written key
              (some (joined (event_names getenv st (active t))))
              j
              (overridden getenv (environ_getn env j) (variables st (active t)) j))
unfolding event_operator_environment add_evlist
event_operator_environment-getn getenv st t env key j c table k n names =
    let es = active t in
    let list = joined (event_names getenv st es) in
    let base = environ_append getenv env true (variables st es) in
    let base_table = environ_append-IsTable getenv env true (variables st es) table in
    (
      environ_add getenv base true (key ++ b'=' ∷ list),
      rw
          (
            visited-active t c,
            append_events-variables getenv st env es,
            append_names-joined (event_names getenv st es) key names,
          )
          refl,
      environ_add-IsTable getenv base true (key ++ b'=' ∷ list) base_table,
      environ_add-getn getenv base (key ++ b'=' ∷ list) j base_table n
          ∙ rw
              (
                key_of-of_IsName key list k,
                has_byte-of_append key list,
                value_of-of_IsName key list k,
                environ_append-getn getenv env (variables st es) j table n,
              )
              refl,
    )

-- How often a list has an address.
abbrev pub occurrences : List ℕ → ℕ → ℕ
occurrences [] j = 0
occurrences (e ∷ es) j = one_at e j + occurrences es j

block_all_lem :
    (es list : List ℕ) (st : Store)
    → ((j : ℕ) → (st j).blockers + occurrences es j < 4294967296)
    → ((block_all st list es).0 ≡ list ++ es)
      × Untouched st (block_all st list es).1
      × ((j : ℕ) → ((block_all st list es).1 j).blockers ≡ (st j).blockers + occurrences es j)
unfolding block_all
block_all_lem [] list st b = (sym (append-nil list), Untouched-refl st, λ j. omega arith)
block_all_lem (e ∷ es) list st b =
    let h : (st e).blockers + 1 < 4294967296 = omega (arith, b e, one_at_self e) in
    let st' = event_block e st in
    let k = λ (j : ℕ). event_block-blockers e st j h in
    let (same, u, c) = block_all_lem es (list ++ e ∷ []) st' (λ j. omega (arith, b j, k j)) in
    (
      same ∙ append_assoc list (e ∷ []) es,
      Untouched-trans st st' (block_all st' (list ++ e ∷ []) es).1 (event_block-Untouched e st) u,
      λ j. omega (arith, c j, k j),
    )

-- On a consistent tree event_operator_events appends the active events to the list, in tree order,
-- and blocks each once for each place that it has there, changing nothing else of any event.
pub event_operator_events_lem :
    (t : EventOperator) (list : List ℕ) (st : Store)
    → IsConsistent t
    → ((j : ℕ) → (st j).blockers + occurrences (active t) j < 4294967296)
    → (st' : Store) × (event_operator_events t list st ≡ some (list ++ active t, st'))
      × Untouched st st'
      × ((j : ℕ) → (st' j).blockers ≡ (st j).blockers + occurrences (active t) j)
unfolding event_operator_events
event_operator_events_lem t list st c b =
    let (same, u, k) = block_all_lem (active t) list st b in
    (
      (block_all st list (active t)).1,
      rw (visited-active t c) (ap (λ l. some (l, (block_all st list (active t)).1)) same),
      u,
      k,
    )
