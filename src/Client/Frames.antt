-- ===== src/Client/Frames.antt =====
-- lib.rs of the client: what is sent is received.
use mathlib.Core.List.{append_assoc}
use rowtrail.Base.{
  Bool-cases, List, Option, Result, Result-cases, [], ap, arith, drop, err-ne-ok, inl, inr, leb,
  leb→le, length, length-append, le→leb, ltb, ok, ok-injective, refl, some, suc, take, true, zero,
  ℕ, ◌++◌, ◌<◌, ◌>>=◌, ◌^◌, ◌∷◌, ◌≡◌, ◌≤◌,
}
use rowtrail.Results.Read.{frame_limit}
use rowtrail.Client.{ClientError, read_exact, read_u32, receive, send, write_u32}

read-write_u32 :
    (n : ℕ) (rest : List ℕ) → n < 2 ^ 32 → read_u32 (write_u32 n ++ rest) ≡ ok (n, rest)
unfolding read_u32 write_u32
read-write_u32 n rest h = ap (λ m. ok (m, rest)) (omega arith)

take-length : (xs ys : List ℕ) → take (length xs) (xs ++ ys) ≡ xs
take-length [] ys = refl
take-length (x ∷ xs) ys = ap (λ t. x ∷ t) (take-length xs ys)

drop-length : (xs ys : List ℕ) → drop (length xs) (xs ++ ys) ≡ ys
drop-length [] ys = refl
drop-length (x ∷ xs) ys = drop-length xs ys

read-exact : (xs ys : List ℕ) → read_exact (length xs) (xs ++ ys) ≡ ok (xs, ys)
unfolding read_exact
read-exact xs ys =
    let fits : leb (length xs) (length (xs ++ ys)) ≡ true = ground (arith, length-append xs ys) in
    rw (fits, take-length xs ys, drop-length xs ys) refl

module _ {Message : Type 0} (encode : Message → List ℕ) (decode : List ℕ → Option Message)
    (round : (m : Message) → decode (encode m) ≡ some m)
    (nonempty : (m : Message) → 0 < length (encode m)) where
  abbrev pub frame : Message → List ℕ
  frame m = write_u32 (length (encode m)) ++ encode m

  -- The peer's loop: as many messages as there are frames.
  abbrev pub receive_all : ℕ → List ℕ → Result ClientError (List Message × List ℕ)
  receive_all zero stream = ok ([], stream)
  receive_all (suc n) stream = do
    (m, rest) ← receive decode stream
    (ms, left) ← receive_all n rest
    ok (m ∷ ms, left)

  abbrev pub send_all : List Message → Result ClientError (List ℕ)
  send_all [] = ok []
  send_all (m ∷ ms) = do first ← send encode m; others ← send_all ms; ok (first ++ others)

  receive-frame :
      (m : Message) (rest : List ℕ)
      → length (encode m) ≤ frame_limit
      → receive decode (frame m ++ rest) ≡ ok (m, rest)
  unfolding receive
  receive-frame m rest h =
      let some_byte : ltb 0 (length (encode m)) ≡ true = (let k = nonempty m in ground arith) in
      let fits = le→leb (length (encode m)) frame_limit h in
      rw
        (
          append_assoc (write_u32 (length (encode m))) (encode m) rest,
          read-write_u32 (length (encode m)) (encode m ++ rest) (omega arith),
          some_byte,
          fits,
          read-exact (encode m) rest,
          round m,
        )
        refl

  -- Every sequence of messages that `send` accepts is received by `receive`, message by message and in
  -- its order, and the bytes that follow are left. Messages decode to what was encoded, and none is
  -- encoded as no byte.
  pub receive_all-send_all :
      (ms : List Message) (bytes rest : List ℕ)
      → send_all ms ≡ ok bytes
      → receive_all (length ms) (bytes ++ rest) ≡ ok (ms, rest)
  unfolding send
  receive_all-send_all [] bytes rest h =
      let none_sent : [] ≡ bytes = ok-injective h in rw (← none_sent) refl
  receive_all-send_all (m ∷ ms) bytes rest h =
      elim (Bool-cases (leb (length (encode m)) frame_limit)) [
        | inr e ↦ absurd (err-ne-ok (rw e at h))
        | inl e ↦ elim (Result-cases (send_all ms)) [
          | inl (f, x) ↦ absurd (err-ne-ok (rw (e, x) at h))
          | inr (others, x) ↦
              let all : frame m ++ others ≡ bytes = ok-injective (rw (e, x) at h) in
              rw
                (
                  ← all,
                  append_assoc (frame m) others rest,
                  receive-frame m (others ++ rest) (leb→le (length (encode m)) frame_limit e),
                  receive_all-send_all ms others rest x,
                )
                refl
        ]
      ]
