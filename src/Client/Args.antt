-- ===== src/Client/Args.antt =====
-- client.c, the command line: `parse_args`, `check_args` and the switch of `main`.
use file_system_server.Base.{
  some_eq, none-some, ◌≡◌, refl, subst, true, false, inl, inr, Bool-cases, ℕ, ◌-◌, Bool, ◌&&◌, List,
  [], ◌∷◌, Option, none, some, codes, str_eq, split_at, leb, ◌==◌, map, if◌then◌else◌,
}
use file_system_server.Common.{Verb, get, put, delete, list, v_unknown}

abbrev pub colon : ℕ
colon = 58

-- The array {host, port, method, remote, local}, with `none` for the null pointer.
pub record Args : Type 0 where
  pub host : List ℕ
  pub port : List ℕ
  pub method : List ℕ
  pub remote : Option (List ℕ)
  pub local : Option (List ℕ)

-- `strtok` skips delimiters, and gives what stands before the next one, with what stands behind it.
unfoldable pub skip_colons : List ℕ → List ℕ
skip_colons [] = []
skip_colons (c ∷ cs) = if c == colon then skip_colons cs else c ∷ cs

abbrev pub token : List ℕ → Option (List ℕ × List ℕ)
token [] = none
token (c ∷ cs) = elim (split_at colon (c ∷ cs)) [
  | none ↦ some (c ∷ cs, [])
  | some (before, after) ↦ some (before, after)
]

unfoldable pub strtok : List ℕ → Option (List ℕ × List ℕ)
unfolding skip_colons
strtok s = token (skip_colons s)

abbrev pub toupper : ℕ → ℕ
toupper c = if leb 97 c && leb c 122 then c - 32 else c

abbrev pub host_port : List ℕ → Option (List ℕ × List ℕ)
unfolding strtok
host_port address = elim (strtok address) [
  | none ↦ none
  | some (host, rest) ↦ elim (strtok rest) [ none ↦ none | some (port, rest') ↦ some (host, port) ]
]

abbrev pub first_arg : List (List ℕ) → Option (List ℕ)
first_arg [] = none
first_arg (a ∷ as') = some a

abbrev pub behind_first : List (List ℕ) → List (List ℕ)
behind_first [] = []
behind_first (a ∷ as') = as'

abbrev pub with_address : Option (List ℕ × List ℕ) → List ℕ → List (List ℕ) → Option Args
with_address none method more = none
with_address (some (host, port)) method more = some (record {
  host = host;
  port = port;
  method = map toupper method;
  remote = first_arg more;
  local = first_arg (behind_first more);
})

-- The arguments are those behind the name of the program.
unfoldable pub parse_args : List (List ℕ) → Option Args
unfolding host_port
parse_args [] = none
parse_args (address ∷ []) = none
parse_args (address ∷ method ∷ more) = with_address (host_port address) method more

abbrev pub is_given : Option (List ℕ) → Bool
is_given none = false
is_given (some s) = true

-- `none` is `exit(1)`.
unfoldable pub check_args : Option Args → Option Verb
check_args none = none
check_args (some args) =
    if str_eq args.method (codes "LIST")
    then some list
    else if str_eq args.method (codes "GET")
    then (if is_given args.remote && is_given args.local then some get else none)
    else if str_eq args.method (codes "DELETE")
    then (if is_given args.remote then some delete else none)
    else if str_eq args.method (codes "PUT")
    then (if is_given args.remote && is_given args.local then some put else none)
    else none

-- What a request of the verb needs is there.
abbrev pub IsComplete : Verb → Args → Type 0
IsComplete get args = (is_given args.remote ≡ true) × (is_given args.local ≡ true)
IsComplete put args = (is_given args.remote ≡ true) × (is_given args.local ≡ true)
IsComplete delete args = is_given args.remote ≡ true
IsComplete list args = Unit
IsComplete v_unknown args = ⊥

-- The two tests of a command that needs both names.
both_given :
    (args : Args) (v w : Verb)
    → (if is_given args.remote && is_given args.local then some w else none) ≡ some v
    → (w ≡ v) × (is_given args.remote ≡ true) × (is_given args.local ≡ true)
both_given args v w h = go (is_given args.remote) (is_given args.local) h
  where
    go :
        (r l : Bool)
        → (if r && l then some w else none) ≡ some v
        → (w ≡ v) × (r ≡ true) × (l ≡ true)
    go true true e = (some_eq e, refl, refl)
    go true false e = absurd (none-some e)
    go false l e = absurd (none-some e)

-- Where `check_args` accepts the arguments, none of those that the handler of the verb is given is the null
-- pointer.
pub check_args-IsComplete :
    (args : Args) (v : Verb) → check_args (some args) ≡ some v → IsComplete v args
unfolding check_args
check_args-IsComplete args v h = elim (Bool-cases (str_eq args.method (codes "LIST"))) [
  | inl l ↦ subst (λ z. IsComplete z args) (some_eq (rw l at h)) tt
  | inr l ↦ elim (Bool-cases (str_eq args.method (codes "GET"))) [
    | inl g ↦
        let (e, r, l') = both_given args v get (rw (l, g) at h) in
        subst (λ z. IsComplete z args) e (r, l')
    | inr g ↦ elim (Bool-cases (str_eq args.method (codes "DELETE"))) [
      | inl d ↦ elim (Bool-cases (is_given args.remote)) [
        | inl r ↦ subst (λ z. IsComplete z args) (some_eq (rw (l, g, d, r) at h)) r
        | inr r ↦ absurd (none-some (rw (l, g, d, r) at h))
      ]
      | inr d ↦ elim (Bool-cases (str_eq args.method (codes "PUT"))) [
        | inl p ↦
            let (e, r, l') = both_given args v put (rw (l, g, d, p) at h) in
            subst (λ z. IsComplete z args) e (r, l')
        | inr p ↦ absurd (none-some (rw (l, g, d, p) at h))
      ]
    ]
  ]
]
