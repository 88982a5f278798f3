-- ===== src/Server/Watch/Limits.antt =====
-- How many replies a walk gets, in `walk` of src/pkg/server/server.go.
use doozer.Common.{
  ℕ, suc, ◌+◌, ◌-◌, ◌^◌, ◌≤◌, ◌<◌, ℤ, pos, negsuc, ◌+₃₂◌, wrap32, ◌+ℤ◌, leb_ℤ, ltb_ℤ, Bool, true,
  false, ◌&&◌, Bytes, [], ◌∷◌, length, length-append, Option, if_cases, ◌≡◌, ap, ◌∙◌, arith,
}
use doozer.Store.Node.{Node}
use doozer.Store.Getter.{walk}
use doozer.Store.Getter.Walked.{walk-keeps}
use doozer.Store.Glob.{Glob, match_glob}
use doozer.Server.Request.{T, respond, done_flag}
use doozer.Server.Watch.{
  Progress, is_cancelled, limit_of, walk_reply, walk_visit, walk_start, walk_end, walk_replies,
}

-- The replies and the limit that is left are within the first limit, `l`.
record IsWithin (l : ℕ) (p : Progress) : Type 0 where
  left : ℕ
  limit : p.limit ≡ pos left
  bounded : left < 2 ^ 31
  within : length p.out + left ≤ l

before_lem : (k : ℕ) → 0 < k → k < 2 ^ 31 → pos k +₃₂ negsuc 0 ≡ pos (k - 1)
unfolding ◌+₃₂◌ wrap32 ◌+ℤ◌
before_lem k a b = ground arith

positive : (a : Bool) (k : ℕ) → a && ltb_ℤ (pos 0) (pos k) ≡ true → 0 < k
positive true k h = ground (arith, h)
positive false k h = ground (arith, h)

visit-IsWithin :
    (l : ℕ) (t : T) (path body : Bytes) (rev : ℤ) (p : Progress)
    → IsWithin l p
    → IsWithin l (walk_visit t path body rev p).0
unfolding walk_visit
visit-IsWithin l t path body rev p h =
    if_cases (λ (r : Progress × Bool). IsWithin l r.0) (is_cancelled p.fuse) (λ _. h)
      (λ _.
        if_cases (λ (r : Progress × Bool). IsWithin l r.0)
          (leb_ℤ p.offset (pos 0) && ltb_ℤ (pos 0) p.limit)
          (λ e.
            let some_left = positive (leb_ℤ p.offset (pos 0)) h.left (rw h.limit at e) in
            record {
              left = h.left - 1;
              limit = ap (λ a. a +₃₂ negsuc 0) h.limit ∙ before_lem h.left some_left h.bounded;
              bounded = omega (arith, h.bounded);
              within = omega (
                arith,
                h.within,
                some_left,
                length-append p.out (walk_reply t path body rev ∷ []),
              );
            })
          (λ _. record { left = h.left; limit = h.limit; bounded = h.bounded; within = h.within }))

end-length : (l : ℕ) (t : T) (r : Progress × Bool) → IsWithin l r.0 → length (walk_end t r) ≤ suc l
end-length l t (p, true) h = omega (arith, h.within)
end-length l t (p, false) h =
    omega (arith, h.within, length-append p.out (respond t done_flag _ ∷ []))

-- A walk with a limit is answered with at most that many files, and the reply that ends them. The limit
-- is an int32 that is not negative; the tree, the glob, the offset and a cancel are any.
pub walk_replies-limit :
    (g : Glob) (f : ℕ) (t : T) (fuse : Option ℕ) (n : Node) (l : ℕ)
    → limit_of t.limit ≡ pos l
    → l < 2 ^ 31
    → length (walk_replies g f t fuse n) ≤ suc l
unfolding walk_replies
walk_replies-limit g f t fuse n l e b =
    end-length l t (walk n (match_glob g) (walk_visit t) f (walk_start t fuse)) (
      walk-keeps n (match_glob g) (walk_visit t) (IsWithin l)
        (λ path body rev p _ h. visit-IsWithin l t path body rev p h) f (walk_start t fuse)
        (record { left = l; limit = e; bounded = b; within = omega arith }))
