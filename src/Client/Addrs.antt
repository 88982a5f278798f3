-- ===== src/Client/Addrs.antt =====
-- The addresses of a cluster in src/pkg/client/client.go: `monitorAddrs`, `connect` and `run`. A map from
-- strings to true is the list of its keys.
pub mod Monitored
use doozer.Common.{
  ℕ, Bool, true, false, Bytes, codes, bytes_eq, bytes_key, List, [], ◌∷◌, ◌++◌, Option, none, some,
  lookup, insert, erase, if◌then◌else◌,
}

-- The maps of `monitorAddrs`: from the path of a node's address to the address, and from the path of
-- a CAL to the address that was added for it.
pub record Monitor : Type 0 where
  pub addrs : List (Bytes × Bytes)
  pub cal : List (Bytes × Bytes)

abbrev pub fresh : Monitor
fresh = record { addrs = []; cal = [] }

pub record Seen : Type 0 where
  pub path : Bytes
  pub body : Bytes

-- A send on `cl.a`, or on `cl.r`.
pub data Change : Type 0 where
  add : Bytes → Change
  remove : Bytes → Change

-- A read of a map from strings to strings.
abbrev pub or_empty : Option Bytes → Bytes
or_empty none = []
or_empty (some s) = s

abbrev pub add_addr : Bytes → Bytes → List (Bytes × Bytes) → List (Bytes × Bytes)
add_addr p [] addrs = addrs
add_addr p (b ∷ a) addrs = insert p (b ∷ a) addrs

abbrev pub addr_path : Bytes → Bytes
addr_path sid = codes "/ctl/node/" ++ (sid ++ codes "/addr")

-- An event of a node's address, and one of a CAL. Both channels of a pair are handled alike.
pub data Input : Type 0 where
  node_addr : Seen → Input
  cal_entry : Seen → Input

unfoldable pub on_cal : Bytes → Bytes → Monitor → Monitor × List Change
unfolding lookup insert erase
on_cal path [] m = (record m { cal = erase path m.cal }, remove (or_empty (lookup path m.cal)) ∷ [])
on_cal path (b ∷ sid) m =
    let addr = or_empty (lookup (addr_path (b ∷ sid)) m.addrs) in
    (record m { cal = insert path addr m.cal }, add addr ∷ [])

unfoldable pub observe : Monitor → Input → Monitor × List Change
unfolding on_cal add_addr
observe m (node_addr s) = (record m { addrs = add_addr s.path s.body m.addrs }, [])
observe m (cal_entry s) = on_cal s.path s.body m

unfoldable pub observe_all : Monitor → List Input → Monitor
unfolding observe
observe_all m [] = m
observe_all m (i ∷ is) = observe_all (observe m i).0 is

abbrev pub without : Bytes → List Bytes → List Bytes
without a [] = []
without a (b ∷ al) = let rest = without a al in if bytes_eq a b then rest else b ∷ rest

-- `connect`: the address that is dialed, and the addresses that are left. Which key comes first in a
-- range over a map is open; here it is the first of the list.
unfoldable pub connect : (Bytes → Bool) → List Bytes → Option Bytes × List Bytes
connect dial [] = (none, [])
connect dial (a ∷ al) = let rest = connect dial al in if dial a then (some a, a ∷ al) else rest

-- The variables of `run`; without a connection it has returned.
pub record Pool : Type 0 where
  pub known : List Bytes
  pub current : Option Bytes

abbrev pub connected : Option Bytes × List Bytes → Pool
connected (c, al) = record { known = al; current = c }

unfoldable pub open_pool : (Bytes → Bool) → Bytes → Pool
unfolding connect
open_pool dial addr = connected (connect dial (addr ∷ []))

-- `a[addr] = true`
abbrev pub with_addr : Bytes → List Bytes → List Bytes
with_addr a al = a ∷ without a al

-- What `run` receives: a change of the addresses, or that the connection is closed. A dial is what the
-- network gives at the time.
pub data Turn : Type 0 where
  changed : Change → Turn
  closed : (Bytes → Bool) → Turn

abbrev pub turn_in : Turn → List Bytes → Bytes → Pool
turn_in (changed (add a)) al c = record { known = with_addr a al; current = some c }
turn_in (changed (remove a)) al c = record { known = without a al; current = some c }
turn_in (closed dial) al c = connected (connect dial (without c al))

unfoldable pub pool_turn : Pool → Turn → Pool
unfolding connect
pool_turn p t = elim p.current [ none ↦ p | some c ↦ turn_in t p.known c ]
