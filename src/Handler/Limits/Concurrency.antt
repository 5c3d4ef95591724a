-- ===== src/Handler/Limits/Concurrency.antt =====
-- How many requests are served at once.
use go_musthave_metrics.Base.{ℕ, ◌+◌, ◌≤◌, ◌≡◌, some, true, if◌then◌else◌, arith, ltb}
use go_musthave_metrics.Base.Ints.{ℤ, pos, negsuc, is_positive, to_count}
use go_musthave_metrics.Handler.Limits.{
  Limiter, rate_limiter, admitted, refused, admit, leave, LimiterStep, arrives, leaves,
  LimiterReach, here, next, Tracker, TrackerStep, checks, adds, finishes, shuts_down, TrackerReach,
  stays, then_step,
}

-- Each served request holds one token, and the channel is within its capacity.
record IsLimited (max : ℤ) (l : Limiter) : Type 0 where
  held : l.semaphore ≡ l.serving
  within : l.semaphore ≤ to_count max

LimiterStep-IsLimited :
    {max : ℤ} {l u : Limiter}
    → is_positive max ≡ true
    → LimiterStep max l u
    → IsLimited max l
    → IsLimited max u
unfolding admit leave
LimiterStep-IsLimited p arrives h = ground arith
LimiterStep-IsLimited p (leaves some_serving) h = ground arith

LimiterReach-IsLimited :
    {max : ℤ} {l u : Limiter}
    → is_positive max ≡ true
    → IsLimited max l
    → LimiterReach max l u
    → IsLimited max u
LimiterReach-IsLimited p h here = h
LimiterReach-IsLimited p h (next r s) = LimiterStep-IsLimited p s (LimiterReach-IsLimited p h r)

rate_limiter-IsLimited :
    (max : ℤ) {l : Limiter} → is_positive max ≡ true → rate_limiter max ≡ some l → IsLimited max l
unfolding rate_limiter
rate_limiter-IsLimited (pos n) p e = ground (arith, e)
rate_limiter-IsLimited (negsuc n) p e = absurd (cc)

-- With a positive limit, from an idle server, at most that many requests are served at once, and one
-- more is refused exactly when so many are.
pub limit_holds :
    {max : ℤ} {l u : Limiter}
    → is_positive max ≡ true
    → rate_limiter max ≡ some l
    → LimiterReach max l u
    → (u.serving ≤ to_count max)
      × ((admit max u).0 ≡ (if ltb u.serving (to_count max) then admitted else refused))
unfolding admit
limit_holds {max} p e r =
    let v = LimiterReach-IsLimited p (rate_limiter-IsLimited max p e) r in
    (omega (arith, v.held, v.within), ground (arith, v.held))

-- What holds once the shutdown channel is closed.
record IsDraining (bound : ℕ) (t : Tracker) : Type 0 where
  closed : t.shutting_down ≡ true
  counted : t.active_requests ≡ t.serving
  falling : t.entering + t.serving ≤ bound

TrackerStep-IsDraining :
    {bound : ℕ} {t u : Tracker} → TrackerStep t u → IsDraining bound t → IsDraining bound u
TrackerStep-IsDraining checks h = ground arith
TrackerStep-IsDraining (adds e) h = ground arith
TrackerStep-IsDraining (finishes e) h = ground arith
TrackerStep-IsDraining shuts_down h = ground arith

TrackerReach-IsDraining :
    {bound : ℕ} {t u : Tracker} → IsDraining bound t → TrackerReach t u → IsDraining bound u
TrackerReach-IsDraining h stays = h
TrackerReach-IsDraining h (then_step r s) = TrackerStep-IsDraining s (TrackerReach-IsDraining h r)

-- Once the shutdown channel is closed, with the WaitGroup at the number of requests in the
-- handler, no later moment has more requests entering or in the handler than there were, and the
-- WaitGroup stays at the number of requests in the handler.
pub shutdown_drains :
    {t u : Tracker}
    → t.shutting_down ≡ true
    → t.active_requests ≡ t.serving
    → TrackerReach t u
    → (u.entering + u.serving ≤ t.entering + t.serving) × (u.active_requests ≡ u.serving)
shutdown_drains c a r =
    let v = TrackerReach-IsDraining (record { closed = c; counted = a; falling = omega arith }) r in
    (v.falling, v.counted)
