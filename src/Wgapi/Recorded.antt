-- ===== src/Wgapi/Recorded.antt =====
-- What `withLogging` leaves of a request's body, and what its recorder shows of a response.
use wgctrl_go.Base.{
  ℕ, zero, suc, ◌+◌, ◌-◌, ◌≤◌, true, false, List, [], ◌∷◌, ◌++◌, Text, length, take, ltb, ltb→lt,
  ltb→le, if◌then◌else◌, if_either, ◌≡◌, refl, sym, ap, subst, ◌∙◌, arith, Bool-cases, inl, inr,
  length-append, length-take, append_assoc, append-nil, take-append-drop,
}
use wgctrl_go.Base.Int.{ℤ}
use wgctrl_go.Wgapi.Logging.{
  Stream, ends, is_broken, is_zero_length, joined, peek_limit, peek_request_body, ResponseRecorder,
  new_recorder, write_header, record_body, write, Call, header, chunk, record_call, record_calls,
}

joined-whole :
    (limit : ℕ) (s : Stream) → joined limit s ≡ record { content = s.content; ending = ends }
joined-whole limit s =
    ap (λ (t : Text). record { content = t; ending = ends }) (take-append-drop limit s.content)

-- A body that does not break with an error of its own reaches the handler with all that it has, and
-- with a clean end, unless the request announces that it is empty: also a body that was cut off.
pub peek_request_body-joined :
    (content_length : ℤ) (s : Stream)
    → is_zero_length content_length ≡ false
    → is_broken s.ending ≡ false
    → (peek_request_body content_length s).0 ≡ record { content = s.content; ending = ends }
unfolding peek_request_body
peek_request_body-joined content_length s h k =
    rw (h, k)
      (if_either (λ (x : Stream × ℤ). x.0 ≡ record { content = s.content; ending = ends })
        (ltb (length s.content) (peek_limit content_length)) (joined-whole limit s)
        (joined-whole limit s))
  where
    limit : ℕ
    limit = peek_limit content_length

-- The bytes that are written, in their order.
abbrev pub written : List Call → Text
written [] = []
written (header code ∷ cs) = written cs
written (chunk b n ∷ cs) = b ++ written cs

-- The status of the first call: its own, or 200 for a write.
abbrev pub first_status : List Call → ℕ
first_status [] = 0
first_status (header code ∷ cs) = code
first_status (chunk b n ∷ cs) = 200

-- Every write is accepted in full.
abbrev pub IsFull : List Call → Type 0
IsFull [] = Unit
IsFull (header code ∷ cs) = IsFull cs
IsFull (chunk b n ∷ cs) = (n ≡ length b) × IsFull cs

take_all : {A : Type 0} (k : ℕ) (xs : List A) → length xs ≤ k → take k xs ≡ xs
take_all zero [] h = refl
take_all zero (x ∷ xs) h = absurd (omega arith)
take_all (suc k) [] h = refl
take_all (suc k) (x ∷ xs) h = ap (◌∷◌ x) (take_all k xs (omega arith))

take-append_short :
    {A : Type 0} (k m : ℕ) (xs ys : List A)
    → length xs + m ≡ k
    → take k (xs ++ ys) ≡ xs ++ take m ys
take-append_short k m [] ys h = ap (λ j. take j ys) (omega (arith, h))
take-append_short zero m (x ∷ xs) ys h = absurd (omega (arith, h))
take-append_short (suc k) m (x ∷ xs) ys h =
    ap (◌∷◌ x) (take-append_short k m xs ys (omega (arith, h)))

take-append_long :
    {A : Type 0} (k : ℕ) (xs ys : List A) → k ≤ length xs → take k (xs ++ ys) ≡ take k xs
take-append_long zero xs ys h = refl
take-append_long (suc k) [] ys h = absurd (omega arith)
take-append_long (suc k) (x ∷ xs) ys h = ap (◌∷◌ x) (take-append_long k xs ys (omega arith))

fitted :
    (b all : Text)
    → length all ≤ 1024
    → (if ltb (length b) (1024 - length all) then all ++ b else all ++ take (1024 - length all) b)
      ≡ take 1024 (all ++ b)
fitted b all short = elim (Bool-cases (ltb (length b) (1024 - length all))) [
  | inl e ↦ rw e (
      sym (
        take_all 1024 (all ++ b)
          (omega (arith, length-append all b, ltb→lt (length b) (1024 - length all) e))))
  | inr e ↦ rw e (sym (take-append_short 1024 (1024 - length all) all b (omega (arith, short))))
]

record_body-take : (b all : Text) → record_body b (length b) (take 1024 all) ≡ take 1024 (all ++ b)
unfolding record_body
record_body-take b all = elim (Bool-cases (ltb (length (take 1024 all)) 1024)) [
  | inl e ↦
      let short : length all ≤ 1024 =
        omega (arith, length-take 1024 all, ltb→lt (length (take 1024 all)) 1024 e) in
      rw e (rw (take_all 1024 all short) (fitted b all short))
  | inr e ↦ rw e (
      sym (
        take-append_long 1024 all b
          (omega (arith, length-take 1024 all, ltb→le (length (take 1024 all)) 1024 e))))
]

-- What a recorder knows behind the bytes `all`.
record IsRecording (all : Text) (r : ResponseRecorder) : Type 0 where
  pub bytes : r.bytes ≡ length all
  pub body : r.body ≡ take 1024 all

record_calls-IsRecording :
    (cs : List Call) (all : Text) (r : ResponseRecorder)
    → IsFull cs
    → IsRecording all r
    → IsRecording (all ++ written cs) (record_calls cs r)
unfolding record_calls record_call write_header write
record_calls-IsRecording [] all r f h = rw append-nil h
record_calls-IsRecording (header code ∷ cs) all r f h =
    record_calls-IsRecording cs all _ f
      (if_either (IsRecording all) r.wrote_header h (record { bytes = h.bytes; body = h.body }))
record_calls-IsRecording (chunk b n ∷ cs) all r (e, f) h = rw (← append_assoc all b (written cs)) (
    record_calls-IsRecording cs (all ++ b) _ f (record {
      bytes = omega (arith, length-append all b, h.bytes, e);
      body = rw (e, h.body) (record_body-take b all);
    }))

write_header_again :
    (code : ℕ) (r : ResponseRecorder) → r.wrote_header ≡ true → write_header code r ≡ r
unfolding write_header
write_header_again code r h =
    ap
      (λ b.
        if b
        then r
        else record r { status = code; wrote_header = true; sent = r.sent ++ code ∷ [] })
      h

-- Once there is a status it stays.
record_calls-status :
    (cs : List Call) (r : ResponseRecorder)
    → r.wrote_header ≡ true
    → ((record_calls cs r).status ≡ r.status) × ((record_calls cs r).sent ≡ r.sent)
unfolding record_calls record_call write_header write
record_calls-status [] r h = (refl, refl)
record_calls-status (header code ∷ cs) r h =
    let q = λ (x : ResponseRecorder).
      ((record_calls cs x).status ≡ r.status) × ((record_calls cs x).sent ≡ r.sent) in
    subst q (sym (write_header_again code r h)) (record_calls-status cs r h)
record_calls-status (chunk b n ∷ cs) r h =
    let k = record_calls-status cs (write b n r) refl in (k.0 ∙ rw h refl, k.1)

-- A response is logged as it was sent.
pub record IsLogged (cs : List Call) (r : ResponseRecorder) : Type 0 where
  pub status : r.status ≡ first_status cs
  pub once : length r.sent ≤ 1
  pub bytes : r.bytes ≡ length (written cs)
  pub body : r.body ≡ take 1024 (written cs)

first-IsLogged :
    (cs : List Call)
    → ((record_calls cs new_recorder).status ≡ first_status cs)
      × (length (record_calls cs new_recorder).sent ≤ 1)
unfolding record_calls record_call write_header write
first-IsLogged [] = (refl, omega arith)
first-IsLogged (header code ∷ cs) =
    let k = record_calls-status cs (write_header code new_recorder) refl in
    (k.0, omega (arith, ap length k.1))
first-IsLogged (chunk b n ∷ cs) =
    let k = record_calls-status cs (write b n new_recorder) refl in
    (k.0, omega (arith, ap length k.1))

-- Whatever a handler writes, in any order and number of calls, if every write is accepted in full:
-- the status that is logged is that of the first call, 200 if it is a write; at most one status is
-- passed on; and the log has the number of bytes and the first 1024 of them.
pub record_calls-IsLogged :
    (cs : List Call) → IsFull cs → IsLogged cs (record_calls cs new_recorder)
record_calls-IsLogged cs f =
    let k = record_calls-IsRecording cs [] new_recorder f (record { bytes = refl; body = refl }) in
    record {
      status = (first-IsLogged cs).0;
      once = (first-IsLogged cs).1;
      bytes = k.bytes;
      body = k.body;
    }
