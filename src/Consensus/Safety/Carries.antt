-- ===== src/Consensus/Safety/Carries.antt =====
-- What datagrams say: sending the datagrams of one message adds that message and no other.
use doozer.Common.{
  true, Bytes, Option, none, some, List, [], ◌++◌, map, In, In-append, In-append_left,
  In-append_right, In-map, In-map_inv, ◌≡◌, sym, ap, ◌∙◌, inl, inr, arith,
}
use mathlib.Core.Option
use doozer.Consensus.Message.{M}
use doozer.Consensus.Run.{Datagram, Env, Run, stamp, broadcast}
use doozer.Consensus.System.{Sent}
use doozer.Consensus.Safety.Grows.{Saying, Grows}

-- What datagrams say: that `a` has sent `m`, to anyone.
abbrev pub SaidIn : Env → List Sent → Saying
SaidIn env sent a m =
    (to : Bytes) × In
      (record { from = a; datagram = record { addr = to; payload = env.marshal m } }) sent

abbrev pub tagged : Bytes → List Datagram → List Sent
tagged n = map (λ d. record { from = n; datagram = d })

module _ (env : Env) (injective : (m m' : M) → env.marshal m ≡ env.marshal m' → m ≡ m') (n : Bytes)
    (sent : List Sent) where
  -- Datagrams from `n` that all carry the one message `m` add just that to what has been said.
  pub carry-Grows :
      (m : M) (ds : List Datagram)
      → ((d : Datagram) → In d ds → d.payload ≡ env.marshal m)
      → (d : Datagram) → In d ds
      → Grows n (some m) (SaidIn env sent) (SaidIn env (sent ++ tagged n ds))
  carry-Grows m ds same d i = record {
    keep = λ a m' (to, j). (to, In-append_left _ j);
    fresh = λ a m' (to, j). elim (In-append sent j) [
      | inl old ↦ inl (to, old)
      | inr new ↦ inr (from_new a m' to new)
    ];
    added = λ m' e.
        let em : m ≡ m' = ground arith in
        rw (← em) (
          d.addr,
          rw (← same d i)
              (In-append_right sent (In-map (λ d. record { from = n; datagram = d }) i)),
        );
  }
    where
      from_new :
          (a : Bytes) (m' : M) (to : Bytes)
          → In
              (record { from = a; datagram = record { addr = to; payload = env.marshal m' } })
              (tagged n ds)
          → (a ≡ n) × (some m ≡ some m')
      from_new a m' to new =
          let (d, k, e) = In-map_inv (λ d. record { from = n; datagram = d }) ds new in
          (
            ap (λ x. x.from) e,
            ap some (injective m m' (sym (same d k) ∙ sym (ap (λ x. x.datagram.payload) e))),
          )

  pub silent-Grows : Grows n none (SaidIn env sent) (SaidIn env (sent ++ tagged n []))
  unfolding map
  silent-Grows = record {
    keep = λ a m' (to, j). (to, In-append_left _ j);
    fresh = λ a m' (to, j). elim (In-append sent j) [
      | inl old ↦ inl (to, old)
      | inr new ↦ elim new [ ]
    ];
    added = λ m e. cc;
  }

  module _ {nodes : List Bytes} (member : In n nodes) (r : Run)
      (addrs : r.addrs ≡ map (λ a. (a, true)) nodes) where
    pub broadcast-Grows :
        (out : Option M)
        → Grows n
            (Option.map (stamp r.seqn) out)
            (SaidIn env sent)
            (SaidIn env (sent ++ tagged n (broadcast env r out)))
    unfolding broadcast
    broadcast-Grows none = silent-Grows
    broadcast-Grows (some m) =
        let own : In (n, true) r.addrs = rw addrs (In-map (λ a. (a, true)) member) in
        carry-Grows (stamp r.seqn m) _ same _
          (In-map (λ (to, _). record { addr = to; payload = env.marshal (stamp r.seqn m) }) own)
      where
        same :
            (d : Datagram)
            → In d (
                map
                  (λ (to, _). record { addr = to; payload = env.marshal (stamp r.seqn m) })
                  r.addrs)
            → d.payload ≡ env.marshal (stamp r.seqn m)
        same d i =
            let (x, _, e) =
              In-map_inv (λ (to, _). record { addr = to; payload = env.marshal (stamp r.seqn m) })
                r.addrs i in
            ap (λ x. x.payload) e

-- Whatever a run broadcasts is the encoding of a message.
pub broadcast-genuine :
    (env : Env) (r : Run) (out : Option M) (d : Datagram)
    → In d (broadcast env r out)
    → (m : M) × (d.payload ≡ env.marshal m)
unfolding broadcast
broadcast-genuine env r none d i = elim i [ ]
broadcast-genuine env r (some m) d i =
    let (x, _, e) =
      In-map_inv (λ (to, _). record { addr = to; payload = env.marshal (stamp r.seqn m) }) r.addrs
        i in
    (stamp r.seqn m, ap (λ x. x.payload) e)
