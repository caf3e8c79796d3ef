-- ===== src/Dispatch/Session/Limits.antt =====
-- src/handler/Handler.cpp: how many requests a connection handles, and which of them is the last.
use geruest.Prelude.{
  ℕ, ◌+◌, ◌%◌, ◌^◌, ◌<◌, ◌≤◌, ◌≡◌, ◌≢◌, false, ◌&&◌, not, List, [], ◌∷◌, Option, none, some, length,
  leb, ◌==◌, ==_iff, if_elim, arith,
}
use geruest.Http.Request.{HttpRequest}
use geruest.Dispatch.{ServerData, Environment}
use geruest.Dispatch.Session.{
  Handled, Session, is_upgraded, closes_after, handled_request, after_request, run,
}

module _ {R A W S G : Type 0} (env : Environment R A S G) (server : ServerData R A W S G) where
  -- A request after which the connection goes on.
  abbrev pub GoesOn : Handled → Type 0
  GoesOn handled =
      (handled.dispatched.escaped ≡ false)
      × (is_upgraded env server handled.request ≡ false)
      × (closes_after env server handled.request ≡ false)

  -- The connection goes on after each of the requests but the last.
  abbrev pub AllButLast : List Handled → Type 0
  AllButLast [] = Unit
  AllButLast (handled ∷ []) = Unit
  AllButLast (handled ∷ next ∷ more) = GoesOn handled × AllButLast (next ∷ more)

  -- A session that handles at most so many requests.
  abbrev IsWithin : ℕ → Session → Type 0
  IsWithin n session = (length session.handled ≤ n) × AllButLast session.handled

  goes_on :
      (handled : Handled) (rest : List Handled)
      → GoesOn handled
      → AllButLast rest
      → AllButLast (handled ∷ rest)
  goes_on handled [] h k = tt
  goes_on handled (next ∷ more) h k = (h, k)

  after_request-IsWithin :
      (handled : Handled) (rest : Session) (n : ℕ)
      → IsWithin n rest
      → IsWithin (n + 1) (after_request env server handled rest)
  unfolding after_request
  after_request-IsWithin handled rest n (few, last) =
      if_elim (IsWithin (n + 1)) handled.dispatched.escaped _ _ (λ _. (omega arith, tt))
        λ stays.
          if_elim (IsWithin (n + 1)) (is_upgraded env server handled.request) _ _
            (λ _. (omega arith, tt))
            λ plain.
              if_elim (IsWithin (n + 1)) (closes_after env server handled.request) _ _
                (λ _. (omega arith, tt))
                λ open_.
                  (omega (arith, few), goes_on handled rest.handled (stays, plain, open_) last)

  by_framed :
      (framed : Option HttpRequest) (rest : Session) (n : ℕ)
      → IsWithin n rest
      → IsWithin (n + 1) (elim framed [
        | none ↦ record { handled = []; failed = false }
        | some request ↦ after_request env server (handled_request env server request) rest
      ])
  by_framed none rest n h = (omega arith, tt)
  by_framed (some request) rest n h =
      after_request-IsWithin (handled_request env server request) rest n h

  -- With a limit below 2^32 on the requests of a connection, no more than the limit are handled,
  -- whatever the framing delivers; and a request is only followed by another if no exception left the dispatcher, it
  -- was not upgraded, and neither its version nor its headers asked to close the connection.
  pub run-IsWithin :
      (max_requests message_count : ℕ) (delivered : List (Option HttpRequest))
      → max_requests ≢ 0
      → max_requests < 2 ^ 32
      → message_count ≤ max_requests
      → (length (run env server max_requests message_count delivered).handled + message_count
          ≤ max_requests)
        × AllButLast (run env server max_requests message_count delivered).handled
  unfolding run
  run-IsWithin max_requests message_count [] h fits le = (omega (arith, le), tt)
  run-IsWithin max_requests message_count (framed ∷ more) h fits le =
      if_elim
        (λ (session : Session).
          (length session.handled + message_count ≤ max_requests) × AllButLast session.handled)
        (not (max_requests == 0) && leb max_requests message_count) _ _
        (λ _. (omega (arith, le), tt))
        λ below.
          let room : message_count + 1 ≤ max_requests =
            ground (arith, h, below, le, ==_iff max_requests 0) in
          let counted : (message_count + 1) % 2 ^ 32 ≡ message_count + 1 =
            omega (arith, room, fits) in
          let (few, last) =
            run-IsWithin max_requests ((message_count + 1) % 2 ^ 32) more h fits
              (rw counted room) in
          let (most, all) =
            by_framed framed (run env server max_requests ((message_count + 1) % 2 ^ 32) more)
              (length (run env server max_requests ((message_count + 1) % 2 ^ 32) more).handled)
              (omega arith, last) in
          (omega (arith, few, most, counted), all)
