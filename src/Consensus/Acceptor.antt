-- ===== src/Consensus/Acceptor.antt =====
-- src/pkg/consensus/acceptor.go
use doozer.Common.{
  ℤ, pos, ◌<ℤ◌, ◌≤ℤ◌, ltb_ℤ, leb_ℤ, eqb_ℤ, eqb_ℤ_iff, if_cases, Bytes, Option, none, some, [], ◌≡◌,
  refl, ◌≢◌, ◌&&◌, not, if◌then◌else◌, arith,
}
use doozer.Consensus.Message.{Cmd, invite, nominate, M, rsvp_msg, vote_msg}

pub record Acceptor : Type 0 where
  pub rnd : ℤ
  pub vrnd : ℤ
  pub vval : Bytes

-- The zero value of the struct.
abbrev pub zero_acceptor : Acceptor
zero_acceptor = record { rnd = pos 0; vrnd = pos 0; vval = [] }

on_invite : Acceptor → Option ℤ → Acceptor × Option M
on_invite ac none = (ac, none)
on_invite ac (some i) =
    if ltb_ℤ ac.rnd i
    then (record ac { rnd = i }, some (rsvp_msg none i ac.vrnd ac.vval))
    else (ac, none)

on_nominate : Acceptor → Option ℤ → Bytes → Acceptor × Option M
on_nominate ac none v = (ac, none)
on_nominate ac (some i) v =
    if leb_ℤ ac.rnd i && not (eqb_ℤ i ac.vrnd)
    then (record { rnd = i; vrnd = i; vval = v }, some (vote_msg none i v))
    else (ac, none)

-- The switch on the command.
dispatch : Acceptor → M → Option Cmd → Acceptor × Option M
unfolding on_invite on_nominate
dispatch ac m (some invite) = on_invite ac m.crnd
dispatch ac m (some nominate) = on_nominate ac m.crnd m.value
dispatch ac m _ = (ac, none)

unfoldable pub update : Acceptor → M → Acceptor × Option M
unfolding dispatch
update ac m = dispatch ac m m.cmd

-- What one call did: it ignored the message, promised a round, or voted in one.
pub data Outcome (ac : Acceptor) (m : M) (ac' : Acceptor) (out : Option M) : Type 0 where
  ignored : ac' ≡ ac → out ≡ none → Outcome ac m ac' out
  promised :
      (i : ℤ)
      → m.cmd ≡ some invite
      → m.crnd ≡ some i
      → ac.rnd <ℤ i
      → ac' ≡ record ac { rnd = i }
      → out ≡ some (rsvp_msg none i ac.vrnd ac.vval)
      → Outcome ac m ac' out
  voted :
      (i : ℤ)
      → m.cmd ≡ some nominate
      → m.crnd ≡ some i
      → ac.rnd ≤ℤ i
      → i ≢ ac.vrnd
      → ac' ≡ record { rnd = i; vrnd = i; vval = m.value }
      → out ≡ some (vote_msg none i m.value)
      → Outcome ac m ac' out

module _ (ac : Acceptor) (m : M) where
  abbrev Done : Acceptor × Option M → Type 0
  Done r = Outcome ac m r.0 r.1

  on_invite-Outcome :
      (crnd : Option ℤ)
      → m.cmd ≡ some invite
      → m.crnd ≡ crnd
      → Outcome ac m (on_invite ac crnd).0 (on_invite ac crnd).1
  unfolding on_invite
  on_invite-Outcome none h k = ignored refl refl
  on_invite-Outcome (some i) h k =
      if_cases Done (ltb_ℤ ac.rnd i) (λ t. promised i h k (ground arith) refl refl)
        (λ _. ignored refl refl)

  on_nominate-Outcome :
      (crnd : Option ℤ)
      → m.cmd ≡ some nominate
      → m.crnd ≡ crnd
      → Outcome ac m (on_nominate ac crnd m.value).0 (on_nominate ac crnd m.value).1
  unfolding on_nominate
  on_nominate-Outcome none h k = ignored refl refl
  on_nominate-Outcome (some i) h k =
      if_cases Done (leb_ℤ ac.rnd i && not (eqb_ℤ i ac.vrnd))
        (λ t. voted i h k (ground arith) (ground (arith, eqb_ℤ_iff i ac.vrnd)) refl refl)
        (λ _. ignored refl refl)

  dispatch-Outcome :
      (cmd : Option Cmd) → m.cmd ≡ cmd → Outcome ac m (dispatch ac m cmd).0 (dispatch ac m cmd).1
  unfolding dispatch
  dispatch-Outcome (some invite) h = on_invite-Outcome m.crnd h refl
  dispatch-Outcome (some nominate) h = on_nominate-Outcome m.crnd h refl
  dispatch-Outcome _ h = ignored refl refl

  pub update-Outcome : Outcome ac m (update ac m).0 (update ac m).1
  unfolding update
  update-Outcome = dispatch-Outcome m.cmd refl
