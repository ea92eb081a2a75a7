-- ===== src/Client.antt =====
-- The client library in crates/client/src/lib.rs: the frames of `send` and `receive`, and the session
-- that carries one call after another. JSON is a library, so encoding and decoding are arguments.
-- A byte is a number below 256; what the peer has written is the list of bytes still to be read.
pub mod Frames
pub mod Closed
pub mod Tests
use rowtrail.Base.{
  Bool, List, Option, Result, [], drop, eqb_list, err, false, guard, if◌then◌else◌, leb, length,
  ltb, none, not, ok, ok_or, some, take, true, ℕ, ◌%◌, ◌&&◌, ◌*◌, ◌++◌, ◌+◌, ◌/◌, ◌==◌, ◌>>=◌, ◌>>◌,
  ◌||◌, ◌∷◌,
}
use rowtrail.Results.Read.{frame_limit}

pub data ClientError : Type 0 where
  frame_too_large end_of_stream bad_json session_closed timed_out version_mismatch : ClientError
  bad_path : ClientError

-- `write_u32`: four bytes, the highest first.
unfoldable pub write_u32 : ℕ → List ℕ
write_u32 n = (n / 16777216 % 256) ∷ (n / 65536 % 256) ∷ (n / 256 % 256) ∷ (n % 256) ∷ []

-- `read_u32`
unfoldable pub read_u32 : List ℕ → Result ClientError (ℕ × List ℕ)
read_u32 (a ∷ b ∷ c ∷ d ∷ rest) = ok (a * 16777216 + b * 65536 + c * 256 + d, rest)
read_u32 _ = err end_of_stream

-- `read_exact`
unfoldable pub read_exact : ℕ → List ℕ → Result ClientError (List ℕ × List ℕ)
read_exact size bytes =
    if leb size (length bytes) then ok (take size bytes, drop size bytes) else err end_of_stream

-- `send`: what is appended to the stream.
unfoldable pub send :
    {Message : Type 0} → (Message → List ℕ) → Message → Result ClientError (List ℕ)
unfolding write_u32
send encode message = do
  guard (leb (length (encode message)) frame_limit) frame_too_large
  ok (write_u32 (length (encode message)) ++ encode message)

-- `receive`: the message, and what is left in the stream.
unfoldable pub receive :
    {Message : Type 0} → (List ℕ → Option Message) → List ℕ → Result ClientError (Message × List ℕ)
unfolding read_u32 read_exact
receive decode stream = do
  (size, after) ← read_u32 stream
  guard (ltb 0 size && leb size frame_limit) frame_too_large
  (bytes, rest) ← read_exact size after
  message ← ok_or (decode bytes) bad_json
  ok (message, rest)

pub record Request : Type 0 where
  pub request_id : List ℕ
  pub body : ℕ

-- The parts of a response that `call` looks at; a failure may say that it cut the request's id.
pub record Response : Type 0 where
  pub api_version : ℕ
  pub request_id : List ℕ
  pub succeeded : Bool
  pub truncated : Bool
  pub body : ℕ

unfoldable pub starts_with : List ℕ → List ℕ → Bool
starts_with text [] = true
starts_with [] (y ∷ prefix) = false
starts_with (x ∷ text) (y ∷ prefix) = x == y && starts_with text prefix

-- `response_matches`
unfoldable pub response_matches : Request → Response → Bool
unfolding starts_with eqb_list
response_matches request response =
    eqb_list response.request_id request.request_id
    || (not response.succeeded
        && response.truncated
        && ltb 0 (length response.request_id)
        && ltb (length response.request_id) (length request.request_id)
        && starts_with request.request_id response.request_id)

-- A connection: what was sent on it, and what the peer answers to each request.
pub record Connection : Type 0 where
  pub sent : List ℕ
  pub incoming : List ℕ

pub record Session : Type 0 where
  pub stream : Option Connection

-- The outside of one call: the normalised request, the peer's bytes, and the timeout.
pub record World : Type 0 where
  pub normalize : Request → Result ClientError Request
  pub encode : Request → List ℕ
  pub decode : List ℕ → Option Response
  pub answer : List ℕ → List ℕ
  pub late : Bool
  pub version : ℕ

-- The exchange inside the timeout.
unfoldable pub exchange : World → Request → Connection → Result ClientError (Response × Connection)
unfolding send receive
exchange w request c = do
  frame ← send w.encode request
  guard (not w.late) timed_out
  (response, rest) ← receive w.decode (c.incoming ++ w.answer frame)
  ok (response, record { sent = c.sent ++ frame; incoming = rest })

-- What `call` does on a connection that it has taken from the session.
unfoldable pub call_on : World → Request → Connection → Result ClientError (Response × Connection)
unfolding exchange response_matches
call_on w request c = do
  (response, c') ← exchange w request c
  guard (response.api_version == w.version && response_matches request response) version_mismatch
  ok (response, c')

-- The connection is given back after a matching response only.
unfoldable pub give_back :
    Result ClientError (Response × Connection) → Result ClientError Response × Session
give_back (ok (response, c)) = (ok response, record { stream = some c })
give_back (err e) = (err e, record { stream = none })

unfoldable pub call_taken :
    World → Request → Option Connection → Result ClientError Response × Session
unfolding call_on give_back
call_taken w request none = (err session_closed, record { stream = none })
call_taken w request (some c) = give_back (call_on w request c)

unfoldable pub call_normal :
    World → Result ClientError Request → Session → Result ClientError Response × Session
unfolding call_taken
call_normal w (err e) s = (err e, s)
call_normal w (ok request) s = call_taken w request s.stream

-- `Session::call`
unfoldable pub call : World → Request → Session → Result ClientError Response × Session
unfolding call_normal
call w request s = call_normal w (w.normalize request) s
