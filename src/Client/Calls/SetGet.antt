-- ===== src/Client/Calls/SetGet.antt =====
-- A client's `Set` and then its `Get`, through the server's handlers and the store.
use doozer.Common.{
  ℤ, pos, ltb_ℤ, InInt64, true, false, Bytes, List, [], ◌∷◌, Option, none, some, ◌≡◌, refl, ap, ◌∙◌,
  arith,
}
use doozer.Store.Error.{Texts}
use doozer.Store.Path.{check_path, split}
use doozer.Store.Mutation.{Encoded, encode_set}
use doozer.Store.Node.{Node, node, nil, Entries, entries_of, at, get, get_path, listing}
use doozer.Store.Node.Lookup.{at_or_zero}
use doozer.Store.Event.{Event}
use doozer.Store.Apply.Encoded.{wanted, applied, encode_set-err}
use doozer.Store.Apply.{check, commit, apply}
use doozer.Store.Apply.Effects.{setp-kept}
use doozer.Store.Process.{Store}
use doozer.Server.Request.{Code, T, R, Reply, answer, empty}
use doozer.Server.Propose
use doozer.Server.Handlers
use doozer.Server.Handlers.{with_getter, got}
use doozer.Client.Conn
use doozer.Client.Calls.{called, set_request, set_result, get_request, get_result}

-- The response that a call receives, when the handler gives one reply.
abbrev pub response_of : List Reply → Option R
response_of [] = none
response_of (r ∷ rs) = some r.body

abbrev pub ap_get : (Code → Bytes) → Option (List Reply) → Option (Bytes × (ℤ × Option Conn.Error))
ap_get name none = none
ap_get name (some rs) = some (get_result (called name (response_of rs)))

-- A CAL whose proposals are the next to be applied to `root`.
abbrev pub cal_conn : Texts → Node → ℤ → Handlers.Conn
cal_conn tx root seqn = record {
  cal = true;
  choice = none;
  propose = λ m. (apply tx root seqn m).1;
  cancelled = false;
}

get_path-checked :
    (path : Bytes) (n : Node)
    → check_path path ≡ none
    → get_path path n ≡ listing (at (split path) n)
unfolding get get_path
get_path-checked path n h = rw (get_path, h) refl

listing-file :
    (body : Bytes) (seqn : ℤ) (ds : Entries)
    → ds ≡ nil
    → listing (some (node body seqn ds)) ≡ (body ∷ [], seqn)
listing-file body seqn ds e = rw e refl

-- The tree after a set that is accepted, read at its path.
get_path-set :
    (tx : Texts) (root : Node) (seqn : ℤ) (path body : Bytes) (rev : ℤ)
    → check_path path ≡ none
    → InInt64 rev
    → check root (wanted path body rev) ≡ none
    → entries_of (at_or_zero (split path) root) ≡ nil
    → get_path path (apply tx root seqn (encode_set path body rev).mutation).0 ≡ (body ∷ [], seqn)
get_path-set tx root seqn path body rev h r c e =
    ap (λ (res : Node × Event). get_path path res.0) (applied tx root seqn path body rev h r c)
    ∙ (get_path-checked path _ h
        ∙ (ap listing (setp-kept path body seqn root h)
            ∙ listing-file body seqn (entries_of (at_or_zero (split path) root)) e))

proposed-ok :
    (propose : Bytes → Event) (e : Encoded)
    → e.err ≡ none
    → Propose.proposed propose e ≡ propose e.mutation
proposed-ok propose e h = rw (Propose.proposed, h) refl

-- The event that the proposal gives.
proposed_event :
    (tx : Texts) (root : Node) (seqn : ℤ) (path body : Bytes) (rev : ℤ)
    → check_path path ≡ none
    → InInt64 rev
    → check root (wanted path body rev) ≡ none
    → Propose.set (cal_conn tx root seqn).propose path body rev
      ≡ (commit tx root seqn (encode_set path body rev).mutation (wanted path body rev) none).1
unfolding Propose.set
proposed_event tx root seqn path body rev h r c =
    proposed-ok (cal_conn tx root seqn).propose (encode_set path body rev)
      (encode_set-err path body rev h)
    ∙ ap (λ (res : Node × Event). res.1) (applied tx root seqn path body rev h r c)

got-file :
    (t : T) (v : Bytes) (seqn : ℤ)
    → ltb_ℤ (pos 0) seqn ≡ true
    → got t (v ∷ [], seqn) ≡ answer t (record empty { rev = some seqn; value = some v })
got-file t v seqn p = ground (arith, p)

-- A set of a path that the store accepts is answered with the position of its mutation. A get of the
-- path, from the tree that the mutation leaves, is then answered with the body and that position. The
-- path has no entries below it, the position is positive, and the old revision is an int64.
pub set_then_get :
    (name : Code → Bytes) (tx : Texts) (st st' : Store) (seqn : ℤ) (path body : Bytes) (rev : ℤ)
    → check_path path ≡ none
    → InInt64 rev
    → ltb_ℤ (pos 0) seqn ≡ true
    → check st.root (wanted path body rev) ≡ none
    → entries_of (at_or_zero (split path) st.root) ≡ nil
    → st'.root ≡ (apply tx st.root seqn (encode_set path body rev).mutation).0
    → (set_result (
          called name (
            response_of
              (Handlers.set tx st (cal_conn tx st.root seqn) (set_request path rev body).t)))
        ≡ (seqn, none))
      × (ap_get name (Handlers.get st' (get_request path none).t) ≡ some (body, (seqn, none)))
unfolding Handlers.set Handlers.get with_getter
set_then_get name tx st st' seqn path body rev h r p c e k = (
  ap
      (λ ev.
        set_result
          (called name (response_of (Handlers.set_reply tx (set_request path rev body).t ev))))
      (proposed_event tx st.root seqn path body rev h r c),
  ap (λ (n : Node). ap_get name (some (got (get_request path none).t (get_path path n)))) k
      ∙ (ap (λ res. ap_get name (some (got (get_request path none).t res)))
            (get_path-set tx st.root seqn path body rev h r c e)
          ∙ ap (λ rs. ap_get name (some rs)) (got-file (get_request path none).t body seqn p)),
)
