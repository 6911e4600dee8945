-- ===== src/LogProxy.antt =====
-- programs/client-proxies/bb-monitor-dd-log-proxy/main.cpp, `session::handle_read`: lines are cut out of
-- what a socket delivers. What `handle_line` does with a line is not modelled.
pub mod Buffer
pub mod Framing
pub mod Overrun
pub mod Line
mod Tests
use bb_monitor.Base.{
  ℕ, zero, suc, ◌+◌, ◌-◌, ◌*◌, Bool, true, false, Option, none, some, List, [], ◌∷◌, ◌++◌, Bytes,
  length, take, drop, ◌==◌, ◌≡◌, ◌≤◌,
}
use bb_monitor.Outcome.{Outcome, ok, skipped, undefined, ◌>>=◌, deref}

-- `buffer` are all the bytes of `buffer_`; `lines` are those that `handle_line` was called for.
pub record Session : Type 0 where
  pub remaining : ℕ
  pub buffer : Bytes
  pub line : Bytes
  pub lines : List Bytes

pub max_length : ℕ
max_length = 1024 * 64

abbrev pub new_session : Bytes → Session
new_session uninitialised = record { remaining = 0; buffer = uninitialised; line = []; lines = [] }

-- `memchr` and the place that it finds.
abbrev pub memchr : ℕ → Bytes → Option ℕ
memchr c [] = none
memchr c (x ∷ xs) = elim (x == c) [
  | true ↦ some 0
  | false ↦ elim (memchr c xs) [ none ↦ none | some i ↦ some (suc i) ]
]

-- The C string at the start of an array; `none` if it runs over the end.
abbrev pub c_string : Bytes → Option Bytes
c_string [] = none
c_string (zero ∷ xs) = some []
c_string (suc x ∷ xs) = elim (c_string xs) [ none ↦ none | some s ↦ some (suc x ∷ s) ]

-- Bytes written into an array from a place on.
abbrev pub overwrite : ℕ → Bytes → Bytes → Bytes
overwrite n bs buffer = (take n buffer ++ bs) ++ drop (n + length bs) buffer

-- `line_.append(buffer_, 0, n)`: the array becomes a string first, which ends at a zero byte.
abbrev pub append_line : Bytes → ℕ → Bytes → Outcome Bytes
append_line buffer n line = do s ← deref (c_string buffer); ok (line ++ take n s)

-- `handle_read` without an error, after the socket has written `bytes` behind `remaining`.
unfoldable pub handle_read : Bytes → Session → Outcome Session
handle_read bytes s =
    let buffer = overwrite s.remaining bytes s.buffer in
    let len = s.remaining + length bytes in
    elim (memchr 10 (take len buffer)) [
      | none ↦ do
        line ← append_line buffer len s.line
        ok (record s { remaining = 0; buffer = buffer; line = line })
      | some bytes_2_copy ↦ do
        line ← append_line buffer bytes_2_copy s.line
        let remaining = len - bytes_2_copy - 1
        ok (record {
          remaining = remaining;
          buffer = overwrite 0 (take remaining (drop (suc bytes_2_copy) buffer)) buffer;
          line = [];
          lines = s.lines ++ line ∷ [];
        })
    ]

abbrev pub max_bytes_to_read : Session → ℕ
max_bytes_to_read s = max_length - s.remaining

-- Reads of a socket that honours the sizes it is asked for.
pub data Reads : List Bytes → Session → Session → Type 0 where
  no_reads : {s : Session} → Reads [] s s
  one_read :
      {bytes : Bytes} {reads : List Bytes} {s t u : Session}
      → length bytes ≤ max_bytes_to_read s
      → handle_read bytes s ≡ ok t
      → Reads reads t u
      → Reads (bytes ∷ reads) s u
