-- ===== src/Orchestrator/Env.antt =====
-- internal/orchestrator/orchestrator.go, `HostEnv`: the variables that a step is resolved against.
use shellf.Prelude.{
  List, [], ◌∷◌, ◌++◌, Option, none, some, Str, str, str_eq, if◌then◌else◌, Map, insert, merge,
  keys,
}
use shellf.Inventory.{Host, Inventory, resolve}
use shellf.Lang.Interp.{inventory_prefix}

-- `mergeEnv`
unfoldable pub merge_env : Map Str → Map Str → Map Str
merge_env base set = merge (merge [] base) set

unfoldable pub add_vars : Str → Map Str → Map Str → Map Str
add_vars prefix [] env = env
add_vars prefix ((k, v) ∷ vars) env = add_vars prefix vars (insert (prefix ++ k) v env)

-- `addInventoryFields`
unfoldable pub add_inventory_fields : Str → Host → Map Str → Map Str
unfolding add_vars
add_inventory_fields alias host env = add_vars inventory_prefix host.vars (
    insert (inventory_prefix ++ str "port") host.port (
      insert (inventory_prefix ++ str "user") host.user (
        insert (inventory_prefix ++ str "address") host.address
          (insert (inventory_prefix ++ str "name") alias env))))

-- The variables of another host, without the path of its key.
unfoldable pub add_public_vars : Str → Map Str → Map Str → Map Str
add_public_vars prefix [] env = env
add_public_vars prefix ((k, v) ∷ vars) env =
    add_public_vars prefix vars (if str_eq k (str "key") then env else insert (prefix ++ k) v env)

unfoldable pub add_host_fields : Str → Option Host → Map Str → Map Str
unfolding add_public_vars
add_host_fields alias none env = env
add_host_fields alias (some host) env =
    let p = inventory_prefix ++ (alias ++ str ".") in
    add_public_vars p host.vars (
      insert (p ++ str "port") host.port (
        insert (p ++ str "user") host.user
          (insert (p ++ str "address") host.address (insert (p ++ str "name") alias env))))

-- `addCrossHostFields`, over the aliases in the order of the map.
unfoldable pub add_cross_host_fields : Inventory → List Str → Map Str → Map Str
unfolding add_host_fields
add_cross_host_fields inv [] env = env
add_cross_host_fields inv (a ∷ as_) env =
    add_cross_host_fields inv as_ (add_host_fields a (resolve inv a) env)

-- `HostEnv`
unfoldable pub host_env : Str → Host → Inventory → Map Str → Map Str → Map Str
unfolding merge_env add_inventory_fields add_cross_host_fields
host_env alias host inv base set =
    add_cross_host_fields inv (keys inv.hosts)
      (add_inventory_fields alias host (merge_env base set))
