-- ===== src/Server/Watch/Told.antt =====
-- What a client makes of the replies of a watch: `watch` of src/pkg/server/server.go and `events` of
-- src/pkg/client/client.go.
use doozer.Common.{◌+◌, Bool, true, false, Bytes, none, if◌then◌else◌, ◌≡◌, refl, sym, arith}
use doozer.Store.Event.{Event, is_set, is_del}
use doozer.Server.Request.{Code, T, valid_flag, set_flag, del_flag}
use doozer.Server.Watch.{event_flag, watch_reply}
use doozer.Client.Conn.{has_flag}
use doozer.Client.Calls
use doozer.Client.Calls.{event_of}

set_bit :
    (s d : Bool)
    → has_flag (valid_flag + (if s then set_flag else if d then del_flag else 0)) set_flag ≡ s
set_bit true d = refl
set_bit false true = refl
set_bit false false = refl

del_bit :
    (s d : Bool)
    → (s ≡ true → d ≡ false)
    → has_flag (valid_flag + (if s then set_flag else if d then del_flag else 0)) del_flag ≡ d
del_bit true d h = sym (h refl)
del_bit false true h = refl
del_bit false false h = refl

no_both : (ev : Event) → is_set ev ≡ true → is_del ev ≡ false
unfolding is_set is_del
no_both ev h = ground (arith, h)

-- The client's event for a reply of a watch has the position, the path and the body of the store's
-- event, no error, and is a set, or a deletion, just when that is.
pub event_of-watch_reply :
    (name : Code → Bytes) (t : T) (ev : Event)
    → ((event_of name (watch_reply t ev)).rev ≡ ev.seqn)
      × (((event_of name (watch_reply t ev)).path ≡ ev.path)
          × (((event_of name (watch_reply t ev)).body ≡ ev.body)
              × (((event_of name (watch_reply t ev)).err ≡ none)
                  × ((Calls.is_set (event_of name (watch_reply t ev)) ≡ is_set ev)
                      × (Calls.is_del (event_of name (watch_reply t ev)) ≡ is_del ev)))))
unfolding watch_reply event_flag
event_of-watch_reply name t ev = (
  refl,
  (
    refl,
    (refl, (refl, (set_bit (is_set ev) (is_del ev), del_bit (is_set ev) (is_del ev) (no_both ev)))),
  ),
)
