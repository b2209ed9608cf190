-- ===== src/Cluster/Discovery.antt =====
-- internal/cluster/discovery.go: the nodes that were announced, and the seeds. Each method holds the mutex
-- throughout and hands out copies, so it is one function on the record.
use distributed_counter.Base.{
  Text, ◌≡◌, Option, some, List, [], ◌∷◌, if◌then◌else◌, GoMap, lookup, set, lookup-set, text_eq,
}

pub record Discovery : Type 0 where
  pub nodes : GoMap Text
  pub seed_nodes : List Text

-- NewDiscovery
unfoldable pub new : List Text → Discovery
new seed_nodes = record { nodes = []; seed_nodes = seed_nodes }

unfoldable pub get_node_address : Text → Discovery → Option Text
get_node_address node_id d = lookup d.nodes node_id

-- for k, v := range d.nodes { copy[k] = v }
unfoldable pub copy_nodes : GoMap Text → GoMap Text → GoMap Text
copy_nodes out [] = out
copy_nodes out ((k, v) ∷ nodes) = copy_nodes (set out k v) nodes

unfoldable pub get_all_nodes : Discovery → GoMap Text
get_all_nodes d = copy_nodes [] d.nodes

unfoldable pub add_node : Text → Text → Discovery → Discovery
add_node node_id address d = record d { nodes = set d.nodes node_id address }

unfoldable pub get_seed_nodes : Discovery → List Text
get_seed_nodes d = d.seed_nodes

-- A node is found at the address of its last announcement, and the others where they were.
get_node_address-add_node :
    (node_id k address : Text) (d : Discovery)
    → get_node_address k (add_node node_id address d)
      ≡ (if text_eq node_id k then some address else get_node_address k d)
unfolding get_node_address add_node
get_node_address-add_node node_id k address d = lookup-set d.nodes node_id k address
