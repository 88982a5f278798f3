-- ===== src/Member/Cleared.antt =====
-- Which slots `clearSlot` of src/pkg/member/member.go clears, and what `removeInfo` removes.
use doozer.Common.{ℕ, ℤ, Bytes, bytes_eq, bytes_eq_sound, [], All, if_cases, ◌≡◌, refl, subst}
use doozer.Store.Node.{Node}
use doozer.Store.Event.{Event}
use doozer.Store.Glob.{Glob, match_glob}
use doozer.Store.Getter.Walked.{IsFile, walk-keeps}
use doozer.Server.Propose
use doozer.Member.{clear, clear_slot}

-- The event of a proposal that empties a slot of the node `name`, at the revision of the slot.
pub record IsCleared (propose : Bytes → Event) (cals : Glob) (g : Node) (name : Bytes) (ev : Event)
    : Type 0 where
  pub path : Bytes
  pub rev : ℤ
  pub slot : IsFile g (match_glob cals) path name rev
  pub event : ev ≡ Propose.set propose path [] rev

-- Every proposal of `clearSlot` empties a file under the glob of the slots whose body is the node's name,
-- at the file's revision.
pub clear_slot-IsCleared :
    (propose : Bytes → Event) (cals : Glob) (f : ℕ) (g : Node) (name : Bytes)
    → All (IsCleared propose cals g name) (clear_slot propose cals f g name)
unfolding clear_slot clear
clear_slot-IsCleared propose cals f g name =
    walk-keeps g (match_glob cals) (clear propose name) (All (IsCleared propose cals g name))
      (λ path body rev evs h k.
        if_cases (All (IsCleared propose cals g name)) (bytes_eq body name)
          (λ e. (
            record {
              path = path;
              rev = rev;
              slot =
                  subst (λ b. IsFile g (match_glob cals) path b rev) (bytes_eq_sound body name e) h;
              event = refl;
            },
            k,
          ))
          (λ e. k))
      f [] tt
