-- ===== src/Inventory.antt =====
-- internal/inventory/inventory.go: hosts, groups and the defaults that fill a host's fields.
pub mod Lookup
pub mod Valid
use shellf.Prelude.{
  ℕ, Bool, true, false, List, [], ◌∷◌, Option, none, some, Str, is_empty, if◌then◌else◌, Map,
  lookup, insert, merge, keys, sort_strings,
}

pub record Host : Type 0 where
  pub address : Str
  pub user : Str
  pub port : Str
  pub key : Str
  pub interpreter : Str
  pub local : Bool
  pub vars : Map Str

pub record Inventory : Type 0 where
  pub defaults : Host
  pub hosts : Map Host
  pub groups : Map (List Str)

abbrev pub or_default : Str → Str → Str
or_default s d = if is_empty s then d else s

-- The fields of a host with the defaults applied.
unfoldable pub with_defaults : Host → Host → Host
with_defaults d h = record {
  address = h.address;
  user = or_default h.user d.user;
  port = or_default h.port d.port;
  key = or_default h.key d.key;
  interpreter = or_default h.interpreter d.interpreter;
  local = if h.local then true else d.local;
  vars = merge (merge [] d.vars) h.vars;
}

-- `Resolve`
unfoldable pub resolve : Inventory → Str → Option Host
unfolding with_defaults
resolve inv alias = elim (lookup alias inv.hosts) [
  | none ↦ none
  | some h ↦ some (with_defaults inv.defaults h)
]

-- `Members`; `none` where the target is not declared.
unfoldable pub members : Inventory → Str → Option (List Str)
members inv target = elim (lookup target inv.groups) [
  | some g ↦ some g
  | none ↦ elim (lookup target inv.hosts) [ none ↦ none | some h ↦ some (target ∷ []) ]
]

-- The first alias of a group that no host declares.
unfoldable pub undeclared : Map Host → List Str → Option Str
undeclared hosts [] = none
undeclared hosts (a ∷ as_) =
    let rest = undeclared hosts as_ in elim (lookup a hosts) [ none ↦ some a | some h ↦ rest ]

abbrev pub or_empty : Option (List Str) → List Str
or_empty none = []
or_empty (some g) = g

-- The loop of `Validate` over the sorted names of the groups: the group and the alias.
unfoldable pub validate_groups : Inventory → List Str → Option (Str × Str)
unfolding undeclared
validate_groups inv [] = none
validate_groups inv (g ∷ gs) =
    let rest = validate_groups inv gs in
    elim (undeclared inv.hosts (or_empty (lookup g inv.groups))) [
      | some a ↦ some (g, a)
      | none ↦ rest
    ]

-- `Validate`
unfoldable pub validate : Inventory → Option (Str × Str)
unfolding validate_groups
validate inv = validate_groups inv (sort_strings (keys inv.groups))
