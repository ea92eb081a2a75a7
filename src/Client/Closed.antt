-- ===== src/Client/Closed.antt =====
-- lib.rs of the client: a session that has failed is not used again.
use rowtrail.Base.{
  All, List, Option, Result, Result-cases, [], err, false, inl, inr, is_ok, none, ok, refl, some,
  ◌∷◌, ◌≡◌,
}
use rowtrail.Client.{
  ClientError, Connection, Request, Response, Session, World, call, call_on, call_taken, give_back,
}

-- A series of calls on one session, with their results.
unfoldable pub call_all :
    List (World × Request) → Session → List (Result ClientError Response) × Session
unfolding call
call_all [] s = ([], s)
call_all ((w, request) ∷ calls) s =
    let (result, s') = call w request s in
    let (results, last) = call_all calls s' in (result ∷ results, last)

abbrev pub AllFail : List (Result ClientError Response) → Type 0
AllFail = All (λ r. is_ok r ≡ false)

-- On a closed session every call fails, and it stays closed.
closed-AllFail :
    (calls : List (World × Request)) (s : Session) → s.stream ≡ none → AllFail (call_all calls s).0
unfolding call_all
closed-AllFail [] s closed = tt
closed-AllFail ((w, request) ∷ calls) s closed = elim (Result-cases (w.normalize request)) [
  | inl (e, x) ↦ rw x (refl, closed-AllFail calls s closed)
  | inr (r, x) ↦ rw (x, closed) (refl, closed-AllFail calls (record { stream = none }) refl)
]

given-closed :
    (m : Result ClientError (Response × Connection)) {e : ClientError}
    → (give_back m).0 ≡ err e
    → (give_back m).1.stream ≡ none
unfolding give_back
given-closed (ok (response, c)) h = cc
given-closed (err e) h = refl

taken-closed :
    (w : World) (request : Request) (stream : Option Connection) {e : ClientError}
    → (call_taken w request stream).0 ≡ err e
    → (call_taken w request stream).1.stream ≡ none
unfolding call_taken
taken-closed w request none h = refl
taken-closed w request (some c) h = given-closed (call_on w request c) h

-- After a call that failed beyond the normalisation of its request, whether by the transport, the
-- timeout or a response that does not answer it, every later call of the session fails, so that no
-- request is sent again on the same connection.
pub call-AllFail :
    (w : World) (request sent : Request) (s : Session) (e : ClientError)
    (calls : List (World × Request))
    → w.normalize request ≡ ok sent
    → (call w request s).0 ≡ err e
    → AllFail (call_all calls (call w request s).1).0
unfolding call
call-AllFail w request sent s e calls normal failed = rw normal (
    closed-AllFail calls (call_taken w sent s.stream).1
      (taken-closed w sent s.stream (rw normal at failed)))
