-- ===== src/Session/Expiry.antt =====
-- Which sessions `expired` of src/pkg/session/session.go gives.
use doozer.Common.{ℕ, ℤ, ltb_ℤ, true, Bytes, bytes_key, List, [], ◌∷◌, All, insert, if_cases, ◌≡◌}
use doozer.Store.Number.{atoi64}
use doozer.Store.Node.{Node}
use doozer.Store.Glob.{Glob, match_glob}
use doozer.Store.Getter.Walked.{IsFile, walk-keeps}
use doozer.Session.{expire, expired}

-- A file of a session whose body is a time before `now`.
pub record IsOver (sessions : Glob) (g : Node) (now : ℤ) (x : Bytes × ℤ) : Type 0 where
  pub body : Bytes
  pub is_file : IsFile g (match_glob sessions) x.0 body x.1
  pub early : ltb_ℤ (atoi64 body).0 now ≡ true

All-insert :
    (P : Bytes × ℤ → Type 0) (k : Bytes) (v : ℤ) (m : List (Bytes × ℤ))
    → P (k, v)
    → All P m
    → All P (insert k v m)
unfolding insert
All-insert P k v [] h hs = (h, tt)
All-insert P k v ((j, w) ∷ m) h (a, hs) =
    if_cases (All P) (bytes_key.beq j k) (λ _. (h, hs)) (λ _. (a, All-insert P k v m h hs))

-- Every session that `expired` gives is a file of the tree under the glob of the sessions, with the
-- revision that it gives, and the time in its body is before `now`.
pub expired-IsOver :
    (sessions : Glob) (f : ℕ) (g : Node) (now : ℤ)
    → All (IsOver sessions g now) (expired sessions f g now)
unfolding expired
expired-IsOver sessions f g now =
    walk-keeps g (match_glob sessions) (expire now) (All (IsOver sessions g now))
      (λ path body rev exps h k.
        if_cases (All (IsOver sessions g now)) (ltb_ℤ (atoi64 body).0 now)
          (λ e.
            All-insert (IsOver sessions g now) path rev exps
              (record { body = body; is_file = h; early = e }) k)
          (λ e. k))
      f [] tt
