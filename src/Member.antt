-- ===== src/Member.antt =====
-- src/pkg/member/member.go: what is left of a node that is shunned.
pub mod Cleared
mod Tests
use doozer.Common.{
  ℕ, ℤ, Bool, false, Bytes, bytes_eq, codes, List, [], ◌∷◌, ◌++◌, Option, none, some, if◌then◌else◌,
}
use doozer.Store.Node.{Node}
use doozer.Store.Event.{Event}
use doozer.Store.Glob.{Glob, compile_glob, match_glob}
use doozer.Store.Getter.{get_string, get_dir, walk}
use doozer.Server.Propose

unfoldable pub name_among : Bytes → Node → List Bytes → Bytes
unfolding get_string
name_among addr g [] = []
name_among addr g (name ∷ names) =
    let rest = name_among addr g names in
    if bytes_eq (get_string g (codes "/ctl/node/" ++ (name ++ codes "/addr"))) addr
    then name
    else rest

unfoldable pub get_name : Bytes → Node → Bytes
unfolding name_among get_dir
get_name addr g = name_among addr g (get_dir g (codes "/ctl/node"))

-- The visitors of `clearSlot` and `removeInfo`: a proposal, and its event, the last one first.
unfoldable pub clear : (Bytes → Event) → Bytes → Bytes → Bytes → ℤ → List Event → List Event × Bool
unfolding Propose.set
clear propose name path body rev evs =
    (if bytes_eq body name then Propose.set propose path [] rev ∷ evs else evs, false)

unfoldable pub remove : (Bytes → Event) → Bytes → Bytes → ℤ → List Event → List Event × Bool
unfolding Propose.del
remove propose path body rev evs = (Propose.del propose path rev ∷ evs, false)

-- `cals` is the compiled glob.
unfoldable pub clear_slot : (Bytes → Event) → Glob → ℕ → Node → Bytes → List Event
unfolding clear walk match_glob
clear_slot propose cals f g name = (walk g (match_glob cals) (clear propose name) f []).0

unfoldable pub remove_under : (Bytes → Event) → ℕ → Node → Option Glob → List Event
unfolding remove walk match_glob
remove_under propose f g none = []
remove_under propose f g (some glob) = (walk g (match_glob glob) (remove propose) f []).0

unfoldable pub remove_info : (Bytes → Event) → ℕ → Node → Bytes → List Event
unfolding compile_glob remove_under
remove_info propose f g name =
    remove_under propose f g (compile_glob (codes "/ctl/node/" ++ (name ++ codes "/**")))

-- `Clean` over its addresses, each with the tree of its time.
unfoldable pub clean : (Bytes → Event) → Glob → ℕ → List (Bytes × Node) → List Event
unfolding get_name clear_slot remove_info
clean propose cals f [] = []
clean propose cals f ((addr, g) ∷ more) =
    let name = get_name addr g in
    let rest = clean propose cals f more in
    if bytes_eq name []
    then rest
    else clear_slot propose cals f g name ++ (remove_info propose f g name ++ rest)
