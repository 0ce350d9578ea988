-- ===== src/Wgapi/Logging.antt =====
-- internal/wgapi/server.go: what `withLogging` reads of a request and records of its response. The
-- log itself is left out.
use Prim.Native.Nat.{min}
use wgctrl_go.Base.{
  ℕ, ◌+◌, ◌-◌, Bool, true, false, List, [], ◌∷◌, ◌++◌, Text, length, take, drop, ltb, ◌==◌,
  if◌then◌else◌,
}
use wgctrl_go.Base.Int.{ℤ, pos, negsuc}
use wgctrl_go.Std.Scanner.{Reader}

-- How a body ends: well, with `io.ErrUnexpectedEOF`, or with another error.
pub data Ending : Type 0 where
  ends cut_off broken : Ending

pub record Stream : Type 0 where
  pub content : Text
  pub ending : Ending

abbrev pub is_broken : Ending → Bool
is_broken broken = true
is_broken _ = false

-- The reader of a body, as a parser sees it.
abbrev pub as_reader : Stream → Reader
as_reader s = record {
  content = s.content;
  failed = elim s.ending [ ends ↦ false | cut_off ↦ true | broken ↦ true ];
}

-- `limit`, for the length that a request announces.
abbrev pub peek_limit : ℤ → ℕ
peek_limit (pos n) = if n == 0 then 1024 else min n 1024
peek_limit (negsuc n) = 1024

abbrev pub is_zero_length : ℤ → Bool
is_zero_length (pos n) = n == 0
is_zero_length (negsuc n) = false

-- `joined`: the first `limit` bytes, which `io.ReadFull` reads, and those that `io.ReadAll` reads
-- behind them, with an end of its own.
abbrev pub joined : ℕ → Stream → Stream
joined limit s =
    let read = take limit s.content in
    let remainder = drop limit s.content in record { content = read ++ remainder; ending = ends }

-- The body that is put into the request, with its length.
abbrev with_length : Stream → Stream × ℤ
with_length s = (s, pos (length s.content))

-- `peekRequestBody`: the body and the length that the handler sees. `io.ReadFull` fails if the body
-- breaks before `limit` bytes; later errors are dropped.
unfoldable pub peek_request_body : ℤ → Stream → Stream × ℤ
peek_request_body content_length s =
    if is_zero_length content_length
    then (s, content_length)
    else if ltb (length s.content) (peek_limit content_length)
    then (if is_broken s.ending
        then (record { content = []; ending = broken }, content_length)
        else with_length (joined (peek_limit content_length) s))
    else with_length (joined (peek_limit content_length) s)

-- `responseRecorder`, with the statuses that it passed on.
pub record ResponseRecorder : Type 0 where
  pub status : ℕ
  pub wrote_header : Bool
  pub bytes : ℕ
  pub body : Text
  pub sent : List ℕ

-- `&responseRecorder{ResponseWriter: w}`
abbrev pub new_recorder : ResponseRecorder
new_recorder = record { status = 0; wrote_header = false; bytes = 0; body = []; sent = [] }

-- `responseRecorder.WriteHeader`
unfoldable pub write_header : ℕ → ResponseRecorder → ResponseRecorder
write_header code r =
    if r.wrote_header
    then r
    else record r { status = code; wrote_header = true; sent = r.sent ++ code ∷ [] }

-- The summary of the body: what it holds behind a write of which `n` bytes were accepted.
unfoldable pub record_body : Text → ℕ → Text → Text
record_body b n body =
    if ltb (length body) 1024
    then (let remaining = 1024 - length body in
        if ltb n remaining then body ++ b else body ++ take remaining b)
    else body

-- `responseRecorder.Write`, where the writer accepts `n` bytes of `b`.
unfoldable pub write : Text → ℕ → ResponseRecorder → ResponseRecorder
unfolding record_body
write b n r = record {
  status = if r.wrote_header then r.status else 200;
  wrote_header = true;
  bytes = r.bytes + n;
  body = record_body b n r.body;
  sent = r.sent;
}

-- What a handler calls.
pub data Call : Type 0 where
  header : ℕ → Call
  chunk : Text → ℕ → Call

unfoldable pub record_call : Call → ResponseRecorder → ResponseRecorder
unfolding write_header write
record_call (header code) r = write_header code r
record_call (chunk b n) r = write b n r

unfoldable pub record_calls : List Call → ResponseRecorder → ResponseRecorder
unfolding record_call
record_calls [] r = r
record_calls (c ∷ cs) r = record_calls cs (record_call c r)
