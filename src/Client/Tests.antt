-- ===== src/Client/Tests.antt =====
-- Runs of the client.
use rowtrail.Base.{
  List, Option, [], arith, err, false, none, ok, refl, some, true, ℕ, ◌++◌, ◌∷◌, ◌≡◌,
}
use rowtrail.Client.{Request, Session, World, call, send, version_mismatch}
use rowtrail.Client.Frames.{receive_all, receive_all-send_all, send_all}
use rowtrail.Client.Closed.{AllFail, call-AllFail, call_all}

abbrev one_byte : ℕ → List ℕ
one_byte n = n ∷ []

abbrev read_byte : List ℕ → Option ℕ
read_byte [] = none
read_byte (n ∷ rest) = some n

abbrev two_frames : List ℕ
two_frames = 0 ∷ 0 ∷ 0 ∷ 1 ∷ 70 ∷ 0 ∷ 0 ∷ 0 ∷ 1 ∷ 71 ∷ []

two_sent : send_all one_byte read_byte (λ m. refl) (λ m. omega arith) (70 ∷ 71 ∷ []) ≡ ok two_frames
unfolding send
two_sent = refl

receive_all-send_all_example :
    receive_all one_byte read_byte (λ m. refl) (λ m. omega arith) 2 (two_frames ++ 9 ∷ [])
    ≡ ok (70 ∷ 71 ∷ [], 9 ∷ [])
receive_all-send_all_example =
    receive_all-send_all one_byte read_byte (λ m. refl) (λ m. omega arith) (70 ∷ 71 ∷ []) two_frames
      (9 ∷ []) two_sent

abbrev first_request : Request
first_request = record { request_id = 1 ∷ 2 ∷ []; body = 5 }

-- A peer that answers another request.
abbrev confused : World
confused = record {
  normalize = λ r. ok r;
  encode = λ r. r.body ∷ [];
  decode = λ bytes. some (record {
    api_version = 1;
    request_id = 9 ∷ [];
    succeeded = true;
    truncated = false;
    body = 0;
  });
  answer = λ frame. 0 ∷ 0 ∷ 0 ∷ 1 ∷ 5 ∷ [];
  late = false;
  version = 1;
}

abbrev fresh_session : Session
fresh_session = record { stream = some (record { sent = []; incoming = [] }) }

mismatch : (call confused first_request fresh_session).0 ≡ err version_mismatch
unfolding call
mismatch = refl

call-AllFail_example :
    AllFail
      (call_all ((confused, first_request) ∷ []) (call confused first_request fresh_session).1).0
call-AllFail_example =
    call-AllFail confused first_request first_request fresh_session version_mismatch
      ((confused, first_request) ∷ []) refl mismatch
