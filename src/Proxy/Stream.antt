-- ===== src/Proxy/Stream.antt =====
-- `endOnDenial` of proxy.ts: the event stream of a user whose access is watched.
use opencode_rc.Common.{ℕ, Bool, true, false, ◌&&◌, not, List, [], ◌∷◌, ◌++◌, ◌≡◌, ◌≢◌, refl}

-- What a read of the gateway's stream gives.
pub data ReadResult : Type 0 where
  finished : ReadResult
  value : (bytes : List ℕ) → ReadResult
  failed : ReadResult

pub data StreamEvent : Type 0 where
  denied : StreamEvent
  pulled : ReadResult → StreamEvent
  cancelled : StreamEvent

-- The calls on the controller, the watch and the reader.
pub data StreamEffect : Type 0 where
  enqueue : (bytes : List ℕ) → StreamEffect
  close : StreamEffect
  error : StreamEffect
  stop : StreamEffect
  cancel_reader : StreamEffect

abbrev pub Closed : Type 0
Closed = Bool × List StreamEffect

-- `close`
unfoldable pub close_once : (closed : Bool) → Closed
close_once true = (true, [])
close_once false = (true, stop ∷ close ∷ [])

-- `pull` behind the read
unfoldable pub on_pull : ReadResult → (closed : Bool) → Closed
on_pull finished closed = close_once closed
on_pull (value bytes) false = (false, enqueue bytes ∷ [])
on_pull (value bytes) true = (true, [])
on_pull failed false = (true, stop ∷ error ∷ [])
on_pull failed true = (true, [])

abbrev pub then_cancel : Closed → Closed
then_cancel (closed, out) = (closed, out ++ cancel_reader ∷ [])

unfoldable pub stream_step : StreamEvent → (closed : Bool) → Closed
stream_step denied closed = then_cancel (close_once closed)
stream_step (pulled r) closed = on_pull r closed
stream_step cancelled closed = (true, stop ∷ cancel_reader ∷ [])

unfoldable pub stream_run : List StreamEvent → (closed : Bool) → Closed
stream_run [] closed = (closed, [])
stream_run (e ∷ es) closed =
    let (c1, out1) = stream_step e closed in let (c2, out2) = stream_run es c1 in (c2, out1 ++ out2)

-- Whether the calls on the controller are in order: none once it is closed or failed.
abbrev pub well_ended : (ended : Bool) → List StreamEffect → Bool
well_ended ended [] = true
well_ended ended (enqueue bytes ∷ out) = not ended && well_ended ended out
well_ended ended (close ∷ out) = not ended && well_ended true out
well_ended ended (error ∷ out) = not ended && well_ended true out
well_ended ended (stop ∷ out) = well_ended ended out
well_ended ended (cancel_reader ∷ out) = well_ended ended out

never : false ≢ true
never h = cc

-- A stream that may still be used may be ended.
well_ended-true :
    (out : List StreamEffect) → well_ended true out ≡ true → well_ended false out ≡ true
well_ended-true [] h = refl
well_ended-true (e ∷ out) h =
    elim e as (λ x. well_ended true (x ∷ out) ≡ true → well_ended false (x ∷ out) ≡ true) [
      | enqueue bytes ↦ λ g. absurd (never g)
      | close ↦ λ g. absurd (never g)
      | error ↦ λ g. absurd (never g)
      | stop ↦ λ g. well_ended-true out g
      | cancel_reader ↦ λ g. well_ended-true out g
    ]
      h

step-in_order :
    (e : StreamEvent) (closed : Bool) (rest : List StreamEffect)
    → well_ended (stream_step e closed).0 rest ≡ true
    → well_ended closed ((stream_step e closed).1 ++ rest) ≡ true
unfolding stream_step on_pull close_once
step-in_order denied true rest h = h
step-in_order denied false rest h = h
step-in_order (pulled finished) true rest h = h
step-in_order (pulled finished) false rest h = h
step-in_order (pulled (value bytes)) true rest h = h
step-in_order (pulled (value bytes)) false rest h = h
step-in_order (pulled failed) true rest h = h
step-in_order (pulled failed) false rest h = h
step-in_order cancelled true rest h = h
step-in_order cancelled false rest h = well_ended-true rest h

-- Whatever the order of denials, reads and cancellations, an event stream that ends on a denial
-- calls nothing on its controller once it has closed it or reported an error.
pub stream_in_order :
    (es : List StreamEvent) (closed : Bool) → well_ended closed (stream_run es closed).1 ≡ true
unfolding stream_run
stream_in_order [] closed = refl
stream_in_order (e ∷ es) closed =
    step-in_order e closed (stream_run es (stream_step e closed).0).1
      (stream_in_order es (stream_step e closed).0)
