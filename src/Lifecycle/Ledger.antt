-- ===== src/Lifecycle/Ledger.antt =====
-- Every task that the gateway spawns, and the handles that its `stop` awaits.
use mathlib.Core.List.Perm
use mathlib.Core.List.{Perm, perm_append_singleton}
use iron_babel.Base.{
  ℕ, ◌+◌, ◌≡◌, refl, sym, subst, ap, ◌∙◌, Bool, true, false, List, [], ◌∷◌, ◌++◌, map, length, inl,
  inr, append_nil, ◌⊎◌,
}
use iron_babel.Text.{Str, text, decimal}
use iron_babel.Error.{Error, Checked, ok, err}
use iron_babel.Config.Types.{ListenerConfig}
use iron_babel.Lifecycle.{
  Task, DefaultGateway, new, no_handles, spawn_listeners, metrics_task, server_task, spawn_all,
  reset, start_if, start, stop_if, stop, held, taken, Reachable, begins, starts, stops,
}

-- What holds of a gateway between two calls: each task that was spawned is awaited by one `stop` or
-- held by the running gateway; a running gateway has not been signalled, and one that does not run
-- holds nothing.
pub record IsAccounted (g : DefaultGateway) : Type 0 where
  pub each_once : Perm g.spawned (g.awaited ++ held g.runtime)
  pub not_signalled : g.runtime.running ≡ true → g.triggered ≡ false
  pub none_held : g.runtime.running ≡ false → g.runtime ≡ no_handles

new-IsAccounted : IsAccounted new
unfolding new held taken
new-IsAccounted = record {
  each_once = Perm.refl [];
  not_signalled = λ e. refl;
  none_held = λ e. refl;
}

reset-IsAccounted : (g : DefaultGateway) → IsAccounted g → IsAccounted (reset g)
unfolding reset
reset-IsAccounted g h = record {
  each_once = h.each_once;
  not_signalled = λ e. refl;
  none_held = h.none_held;
}

spawn_all-IsAccounted :
    (listeners : List ListenerConfig) (g : DefaultGateway)
    → g.runtime ≡ no_handles
    → IsAccounted g
    → IsAccounted (spawn_all listeners g)
unfolding spawn_all held taken
spawn_all-IsAccounted listeners g idle h =
    let id = length g.spawned in
    let inbound = spawn_listeners (id + 1) listeners in
    let before : Perm g.spawned g.awaited =
      subst (Perm g.spawned) (append_nil g.awaited)
        (subst (λ r. Perm g.spawned (g.awaited ++ held r)) idle h.each_once) in
    let fresh = perm_append_singleton (server_task id listeners) (metrics_task id ∷ inbound) in
    record {
      each_once =
          subst
            (λ r. Perm (g.spawned ++ metrics_task id ∷ (inbound ++ server_task id listeners ∷ [])) (
              g.awaited
              ++ server_task id listeners ∷ metrics_task id ∷ (r.listener_handles ++ inbound)))
            (sym idle) (Perm.append before fresh);
      not_signalled = λ e. refl;
      none_held = λ e. cc;
    }

start_if-IsAccounted :
    (bound : Str ⊎ Unit {0}) (listeners : List ListenerConfig) (g : DefaultGateway) (b : Bool)
    → g.runtime.running ≡ b
    → IsAccounted g
    → IsAccounted (start_if bound listeners g b).1
unfolding start_if reset
start_if-IsAccounted bound listeners g true at h = h
start_if-IsAccounted (inl e) listeners g false at h = reset-IsAccounted g h
start_if-IsAccounted (inr _) listeners g false at h =
    spawn_all-IsAccounted listeners (reset g) (h.none_held at) (reset-IsAccounted g h)

stop-IsAccounted : (g : DefaultGateway) → IsAccounted g → IsAccounted (stop g)
unfolding stop_if stop held taken
stop-IsAccounted g h = by_running g.runtime.running
  where
    by_running : (b : Bool) → IsAccounted (stop_if g b)
    by_running false = h
    by_running true = record {
      each_once =
          subst (Perm g.spawned) (sym (append_nil (g.awaited ++ held g.runtime))) h.each_once;
      not_signalled = λ e. cc;
      none_held = λ e. refl;
    }

-- After any calls of `start` and `stop`, whether or not the address could be bound: each task that
-- was ever spawned is awaited by one `stop` or held by the running gateway, and exactly once; a
-- running gateway has not been signalled; one that does not run holds no handle.
pub Reachable-IsAccounted :
    (listeners : List ListenerConfig) (g : DefaultGateway) → Reachable listeners g → IsAccounted g
unfolding start
Reachable-IsAccounted listeners _ begins = new-IsAccounted
Reachable-IsAccounted listeners _ (starts {g = g} bind host port r) =
    start_if-IsAccounted (bind (host ++ (text ":" ++ decimal port))) listeners g g.runtime.running
      refl (Reachable-IsAccounted listeners g r)
Reachable-IsAccounted listeners _ (stops {g = g} r) =
    stop-IsAccounted g (Reachable-IsAccounted listeners g r)

spawn_listeners-tasks :
    (id : ℕ) (listeners : List ListenerConfig)
    → map (λ h. h.task) (spawn_listeners id listeners) ≡ map Task.listener listeners
unfolding spawn_listeners
spawn_listeners-tasks id [] = refl
spawn_listeners-tasks id (cfg ∷ listeners) =
    ap (λ t. Task.listener cfg ∷ t) (spawn_listeners-tasks (id + 1) listeners)

map-append : {A B : Type 0} (f : A → B) (xs ys : List A) → map f (xs ++ ys) ≡ map f xs ++ map f ys
map-append f [] ys = refl
map-append f (x ∷ xs) ys = ap (λ t. f x ∷ t) (map-append f xs ys)

-- The tasks of one run.
abbrev pub tasks_for : List ListenerConfig → List Task
tasks_for listeners = Task.metrics_tick ∷ (map Task.listener listeners ++ Task.server ∷ [])

-- How a call of `start` ends: a running gateway is left as it is and the call refused; without the
-- address nothing is spawned and the gateway does not run; otherwise it runs, the signal is clear,
-- and the metrics tick, one listener for each entry of the configuration in its order, and the
-- server are spawned.
pub data Started (listeners : List ListenerConfig) (g : DefaultGateway)
    : Checked × DefaultGateway → Type 0 where
  refused :
      g.runtime.running ≡ true
      → Started listeners g (err (Error.unknown (text "Gateway is already running")), g)
  unbound :
      (e : Str) (g' : DefaultGateway)
      → g.runtime.running ≡ false
      → g'.spawned ≡ g.spawned
      → g'.runtime ≡ g.runtime
      → Started listeners g (err (Error.io e), g')
  started_with :
      (g' : DefaultGateway)
      → g.runtime.running ≡ false
      → g'.runtime.running ≡ true
      → g'.triggered ≡ false
      → map (λ h. h.task) g'.spawned ≡ map (λ h. h.task) g.spawned ++ tasks_for listeners
      → Started listeners g (ok tt, g')

start_if-Started :
    (bound : Str ⊎ Unit {0}) (listeners : List ListenerConfig) (g : DefaultGateway) (b : Bool)
    → g.runtime.running ≡ b
    → Started listeners g (start_if bound listeners g b)
unfolding start_if reset spawn_all
start_if-Started bound listeners g true at = refused at
start_if-Started (inl e) listeners g false at = unbound e (reset g) at refl refl
start_if-Started (inr _) listeners g false at =
    let id = length g.spawned in
    let inbound = spawn_listeners (id + 1) listeners in
    started_with (spawn_all listeners (reset g)) at refl refl (
      map-append (λ h. h.task) g.spawned
        (metrics_task id ∷ (inbound ++ server_task id listeners ∷ []))
      ∙ ap (λ t. map (λ h. h.task) g.spawned ++ Task.metrics_tick ∷ t)
          (map-append (λ h. h.task) inbound (server_task id listeners ∷ [])
            ∙ ap (λ t. t ++ Task.server ∷ []) (spawn_listeners-tasks (id + 1) listeners)))

-- A call of `start` ends in one of three ways: refused while the gateway runs; without the address,
-- and then nothing is spawned; or running, with the tasks of the configuration spawned.
pub start-Started :
    (bind : Str → Str ⊎ Unit {0}) (host : Str) (port : ℕ) (listeners : List ListenerConfig)
    (g : DefaultGateway)
    → Started listeners g (start bind host port listeners g)
unfolding start
start-Started bind host port listeners g =
    start_if-Started (bind (host ++ (text ":" ++ decimal port))) listeners g g.runtime.running refl
