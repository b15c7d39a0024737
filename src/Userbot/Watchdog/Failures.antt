-- ===== src/Userbot/Watchdog/Failures.antt =====
-- How long the probes may fail before the session counts as unhealthy.
use telegram_cms.Prelude.{
  ℕ, suc, ◌+◌, ◌*◌, Text, true, false, some, [], ◌∷◌, arith, ◌≡◌, refl, ltb, not, Bool, Option,
  none, ap, ◌∙◌, or_else, List,
}
use telegram_cms.World.{World, enqueue_job}
use telegram_cms.Env.{Env}
use telegram_cms.Userbot.Watchdog.{
  Liveness, other, raised, Probe, Watch, check, check_connected, is_mtproto_healthy, healthy_since,
  after_check, watch_on, cycle, backoff, edge, try_alert, count_failure,
}

-- The health after each turn.
abbrev pub healths : Env → List Probe → Watch → World → List Bool
healths e [] s w = []
healths e (p ∷ ps) s w =
    let (s', w') = cycle e p s w in or_else s'.was_healthy false ∷ healths e ps s' w'

-- A session that was alive at `t`, with `k` failed probes since.
abbrev Failing : ℕ → ℕ → Watch → Type 0
Failing t k s =
    (s.live.connected ≡ true)
    × (s.live.authorized ≡ true)
    × (s.live.last_ok ≡ some t)
    × (s.live.failure_count ≡ k)

try_alert-now : (text : Text) (w : World) → (try_alert text w).now ≡ w.now
unfolding enqueue_job
try_alert-now text w = ground arith

edge-now : (b : Option Bool) (h : Bool) (d : Text) (w : World) → (edge b h d w).now ≡ w.now
unfolding edge
edge-now none h d w = refl
edge-now (some true) true d w = refl
edge-now (some true) false d w = try_alert-now _ w
edge-now (some false) true d w = try_alert-now _ w
edge-now (some false) false d w = refl

health :
    (e : Env) (now t k : ℕ) (live : Liveness)
    → live.connected ≡ true
    → live.authorized ≡ true
    → live.last_ok ≡ some t
    → (is_mtproto_healthy e now live).0 ≡ not (ltb (t + 90000) now)
unfolding is_mtproto_healthy healthy_since
health e now t k live connected authorized last = ground (arith, connected, authorized, last)

cycle-Failing :
    (e : Env) (p : Probe) (s : Watch) (w : World) (x : Text) (t k : ℕ)
    → p.is_connected ≡ raised (other x)
    → Failing t k s
    → Failing t (suc k) (cycle e p s w).0
      × ((cycle e p s w).1.now ≡ w.now + backoff k * 1000)
      × ((cycle e p s w).0.was_healthy ≡ some (not (ltb (t + 90000) (w.now + backoff k * 1000))))
unfolding cycle check check_connected after_check watch_on
cycle-Failing e p s w x t k px (connected, authorized, last, failures) = rw px (
  (connected, authorized, last, ap suc failures),
  edge-now _ _ _ _ ∙ ap (λ n. w.now + backoff n * 1000) failures,
  ap some (
      health e _ t k (count_failure x s.live) connected authorized last
      ∙ ap (λ n. not (ltb (t + 90000) (w.now + backoff n * 1000))) failures),
)

-- Where each probe raises an error that is neither fatal nor a flood wait, from a probe that went well on,
-- the session counts as healthy after the first two and as unhealthy after the third: 120 seconds have
-- gone then, and 90 are allowed.
pub healths-three_failures :
    (e : Env) (s : Watch) (w : World) (p q r : Probe) (x y z : Text)
    → s.live.connected ≡ true
    → s.live.authorized ≡ true
    → s.live.last_ok ≡ some w.now
    → s.live.failure_count ≡ 0
    → p.is_connected ≡ raised (other x)
    → q.is_connected ≡ raised (other y)
    → r.is_connected ≡ raised (other z)
    → healths e (p ∷ q ∷ r ∷ []) s w ≡ true ∷ true ∷ false ∷ []
healths-three_failures e s w p q r x y z connected authorized fresh none_yet px qy rz =
    let a = cycle-Failing e p s w x w.now 0 px (connected, authorized, fresh, none_yet) in
    let b = cycle-Failing e q (cycle e p s w).0 (cycle e p s w).1 y w.now 1 qy a.0 in
    let c =
      cycle-Failing e r (cycle e q (cycle e p s w).0 (cycle e p s w).1).0
        (cycle e q (cycle e p s w).0 (cycle e p s w).1).1 z w.now 2 rz b.0 in
    ground (arith, a.1, a.2, b.1, b.2, c.2)
