-- ===== src/Authz/Watch.antt =====
-- `watch` of authz.ts: the re-checks of a stream that stays open, as steps on its flags. A re-check
-- starts at a tick of the timer and ends later; the stream may be stopped in between.
use opencode_rc.Common.{
  ◌≤◌, Bool, true, false, not, ◌&&◌, ◌||◌, List, [], ◌∷◌, ◌++◌, Text, text, Option, none, some, ◌≡◌,
  refl, arith, if◌then◌else◌, length,
}
use opencode_rc.Authz.{Decision, granted, denied}

-- The reason of a stream whose sign-in session has ended.
unfoldable pub session_ended : Text
unfolding text
session_ended = text "signed out"

-- The flags, and whether the timer still runs.
pub record Watch : Type 0 where
  pub stopped : Bool
  pub busy : Bool

-- How a re-check ends: an exception, or the decision.
pub data Event : Type 0 where
  tick : Event
  failed : Event
  settled : Decision → Event
  stop : Event

abbrev pub opened : Watch
opened = record { stopped = false; busy = false }

-- The decision of a re-check, on whether the session is active (`none` where nothing asks for it)
-- and on the authorizer's decision (`none` where it is not enabled).
unfoldable pub recheck : (session_active : Option Bool) → (checked : Option Decision) → Decision
recheck (some false) checked = denied (some session_ended)
recheck _ none = granted
recheck _ (some d) = d

-- One event: the flags after it, and the calls of `onDenied`.
unfoldable pub step : Event → Watch → Watch × List Decision
step tick w = if w.stopped || w.busy then (w, []) else (record w { busy = true }, [])
step failed w = (record w { busy = false }, [])
step (settled d) w =
    if not d.allowed && not w.stopped
    then (record { stopped = true; busy = false }, d ∷ [])
    else (record w { busy = false }, [])
step stop w = (record w { stopped = true }, [])

-- A sequence of events.
unfoldable pub run : List Event → Watch → Watch × List Decision
unfolding step
run [] w = (w, [])
run (e ∷ es) w = let (w', out) = step e w in let (w'', out') = run es w' in (w'', out ++ out')

stopped_lem : (es : List Event) (w : Watch) → w.stopped ≡ true → (run es w).1 ≡ []
unfolding run step
stopped_lem [] w h = refl
stopped_lem (tick ∷ es) w h = ground (arith, stopped_lem es w h)
stopped_lem (failed ∷ es) w h = stopped_lem es (record w { busy = false }) h
stopped_lem (settled d ∷ es) w h = ground (arith, stopped_lem es (record w { busy = false }) h)
stopped_lem (stop ∷ es) w h = stopped_lem es (record w { stopped = true }) refl

-- Whatever the order of ticks, ends of re-checks and stops, an open stream is denied at most once.
pub run_once : (es : List Event) (w : Watch) → length (run es w).1 ≤ 1
unfolding run step
run_once [] w = omega arith
run_once (tick ∷ es) w = ground (arith, run_once es w, run_once es (record w { busy = true }))
run_once (failed ∷ es) w = run_once es (record w { busy = false })
run_once (settled d ∷ es) w = ground (
  arith,
  run_once es (record w { busy = false }),
  stopped_lem es (record { stopped = true; busy = false }) refl,
)
run_once (stop ∷ es) w = run_once es (record w { stopped = true })
