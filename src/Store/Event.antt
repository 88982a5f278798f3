-- ===== src/Store/Event.antt =====
-- src/pkg/store/event.go
use doozer.Common.{ℤ, ltb_ℤ, eqb_ℤ, Bool, Bytes, codes, Option, none, some, if◌then◌else◌}
use doozer.Store.Error.{Error}
use doozer.Store.Node.{Node, missing}

pub record Event : Type 0 where
  pub seqn : ℤ
  pub path : Bytes
  pub body : Bytes
  pub rev : ℤ
  pub mut : Bytes
  pub err : Option Error
  pub getter : Node

unfoldable pub is_set : Event → Bool
is_set e = ltb_ℤ missing e.rev

unfoldable pub is_del : Event → Bool
is_del e = eqb_ℤ e.rev missing

unfoldable pub is_nop : Event → Bool
is_nop e = ltb_ℤ e.rev missing

-- `none` is the panic at the end.
unfoldable pub desc : Event → Option Bytes
unfolding is_set is_del is_nop
desc e =
    if is_set e
    then some (codes "set")
    else if is_del e
    then some (codes "del")
    else if is_nop e
    then some (codes "nop")
    else none
