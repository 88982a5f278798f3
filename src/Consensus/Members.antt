-- ===== src/Consensus/Members.antt =====
-- `getCals` and `getAddrs` of src/pkg/consensus/run.go: the members, read from a tree.
use doozer.Common.{
  Bool, true, bytes_key, Bytes, codes, bytes_eq, List, [], ◌∷◌, ◌++◌, insert, if◌then◌else◌,
}
use doozer.Store.Node.{Node}
use doozer.Store.Getter.{get_string, get_dir, sort_strings}

-- The slots that have an id, in their order.
unfoldable pub filled : Node → List Bytes → List Bytes
unfolding get_string
filled g [] = []
filled g (slot ∷ slots) =
    let rest = filled g slots in
    let id = get_string g (codes "/ctl/cal/" ++ slot) in if bytes_eq id [] then rest else id ∷ rest

unfoldable pub get_cals : Node → List Bytes
unfolding filled get_dir sort_strings
get_cals g = sort_strings (filled g (get_dir g (codes "/ctl/cal")))

unfoldable pub addrs_of : Node → List Bytes → List (Bytes × Bool) → List (Bytes × Bool)
unfolding get_string
addrs_of g [] addrs = addrs
addrs_of g (id ∷ ids) addrs =
    addrs_of g ids (insert (get_string g (codes "/ctl/node/" ++ (id ++ codes "/addr"))) true addrs)

unfoldable pub get_addrs : Node → List (Bytes × Bool)
unfolding addrs_of get_dir
get_addrs g = addrs_of g (get_dir g (codes "/ctl/node")) []
