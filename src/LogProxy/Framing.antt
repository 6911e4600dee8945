-- ===== src/LogProxy/Framing.antt =====
-- The lines that `session::handle_read` of the log proxy (main.cpp) cuts out of what it reads.
use bb_monitor.Base.{
  ℕ, suc, ◌+◌, ◌-◌, ◌≤◌, ◌<◌, ◌≡◌, refl, sym, ap, ◌∙◌, Bool, true, ◌&&◌, none, some, List, [], ◌∷◌,
  ◌++◌, Bytes, length, take, drop, arith, append_assoc, append-nil, length-drop, Option-cases, inl,
  inr,
}
use bb_monitor.Outcome.{ok}
use bb_monitor.LogProxy.{
  Session, max_length, new_session, memchr, c_string, overwrite, handle_read, max_bytes_to_read,
  Reads, no_reads, one_read,
}
use bb_monitor.Base.Text.{
  is_free_of, is_free_of-append, is_free_of-drop, take-append, take_all, drop-append,
}
use bb_monitor.LogProxy.Buffer.{
  c_string-append, memchr-none, memchr-some, length-overwrite, length-written, take-overwrite,
}

-- Lines, each with its line feed.
abbrev pub frame : List Bytes → Bytes
frame [] = []
frame (l ∷ ls) = l ++ 10 ∷ frame ls

frame-append : (ls : List Bytes) (l : Bytes) → frame (ls ++ l ∷ []) ≡ frame ls ++ (l ++ 10 ∷ [])
frame-append [] l = refl
frame-append (k ∷ ls) l =
    ap (λ r. k ++ 10 ∷ r) (frame-append ls l) ∙ sym (append_assoc k (10 ∷ frame ls) (l ++ 10 ∷ []))

abbrev pub all_free_of : ℕ → List Bytes → Bool
all_free_of c [] = true
all_free_of c (l ∷ ls) = is_free_of c l && all_free_of c ls

all_free_of-append :
    (c : ℕ) (ls : List Bytes) (l : Bytes)
    → all_free_of c (ls ++ l ∷ []) ≡ (all_free_of c ls && is_free_of c l)
all_free_of-append c [] l = ground arith
all_free_of-append c (k ∷ ls) l = ground (arith, all_free_of-append c ls l)

-- The bytes in the buffer that are still to be looked at.
abbrev pub waiting : Session → Bytes
waiting s = take s.remaining s.buffer

-- Every byte that the session has taken in and not thrown away, in order.
abbrev pub seen : Session → Bytes
seen s = frame s.lines ++ (s.line ++ waiting s)

-- The array has its size and room for another byte, and no line so far has a line feed in it.
pub record IsFramed (s : Session) : Type 0 where
  pub whole : length s.buffer ≡ max_length
  pub room : s.remaining < max_length
  pub text : is_free_of 0 (waiting s) ≡ true
  pub open_line : is_free_of 10 s.line ≡ true
  pub closed_lines : all_free_of 10 s.lines ≡ true

module _ (bytes : Bytes) (s : Session) (v : IsFramed s) (fits : length bytes ≤ max_bytes_to_read s)
    (nul_free : is_free_of 0 bytes ≡ true) where
  abbrev written : Bytes
  written = overwrite s.remaining bytes s.buffer

  abbrev data' : Bytes
  data' = waiting s ++ bytes

  abbrev len : ℕ
  len = s.remaining + length bytes

  inside : len ≤ length s.buffer
  inside = omega (arith, v.whole, v.room, fits)

  length-data : length data' ≡ len
  length-data = length-written s.remaining bytes s.buffer inside

  data-clean : is_free_of 0 data' ≡ true
  data-clean = ground (arith, is_free_of-append 0 (waiting s) bytes, v.text, nul_free)

  take-written : take len written ≡ data'
  take-written = take-overwrite s.remaining bytes s.buffer inside

  -- The C string starts with the bytes that were received.
  take-c_string :
      (n : ℕ) (t : Bytes) → n ≤ len → c_string written ≡ some t → take n t ≡ take n data'
  take-c_string n t below e =
      let (r, same) = c_string-append data' (drop len s.buffer) t data-clean e in
      ap (take n) same ∙ take-append n data' r (omega (arith, below, length-data))

  handle_read_open :
      (t : Session)
      → memchr 10 (take len written) ≡ none
      → handle_read bytes s ≡ ok t
      → IsFramed t × (seen t ≡ seen s ++ bytes)
  unfolding handle_read
  handle_read_open t e h = elim (Option-cases (c_string written)) [
    | inl f ↦ absurd (ground (arith, e, f, h))
    | inr (cs, f) ↦
        let all : take len cs ≡ data' =
          take-c_string len cs (omega arith) f ∙ take_all len data' (omega (arith, length-data)) in
        let no_feed : is_free_of 10 data' ≡ true =
          ap (is_free_of 10) (sym take-written) ∙ memchr-none 10 (take len written) e in
        let same : t ≡ record s { remaining = 0; buffer = written; line = s.line ++ data' } =
          ground (arith, e, f, h, all) in
        rw same (
          record {
            whole = length-overwrite s.remaining bytes s.buffer inside ∙ v.whole;
            room = omega (arith, v.room);
            text = refl;
            open_line = ground (arith, is_free_of-append 10 s.line data', v.open_line, no_feed);
            closed_lines = v.closed_lines;
          },
          ap (λ l. frame s.lines ++ l)
                (append-nil (s.line ++ data') ∙ sym (append_assoc s.line (waiting s) bytes))
              ∙ sym (append_assoc (frame s.lines) (s.line ++ waiting s) bytes),
        )
  ]

  -- The bytes behind the line feed at `b`, as they are moved to the front.
  abbrev rest : ℕ → Bytes
  rest b = take (len - b - 1) (drop (suc b) written)

  abbrev closed : ℕ → Session
  closed b = record {
    remaining = len - b - 1;
    buffer = overwrite 0 (rest b) written;
    line = [];
    lines = s.lines ++ (s.line ++ take b data') ∷ [];
  }

  found :
      (b : ℕ)
      → memchr 10 (take len written) ≡ some b
      → (data' ≡ take b data' ++ 10 ∷ drop (suc b) data')
        × (is_free_of 10 (take b data') ≡ true)
        × (b < length data')
  found b e = memchr-some 10 data' b (ap (memchr 10) (sym take-written) ∙ e)

  rest-drop : (b : ℕ) → b < length data' → rest b ≡ drop (suc b) data'
  rest-drop b below =
      ap (take (len - b - 1)) (drop-append (suc b) data' (drop len s.buffer) (omega (arith, below)))
      ∙ take-append (len - b - 1) (drop (suc b) data') (drop len s.buffer)
          (omega (arith, length-drop (suc b) data', length-data, below))
      ∙ take_all (len - b - 1) (drop (suc b) data')
          (omega (arith, length-drop (suc b) data', length-data, below))

  length-rest : (b : ℕ) → b < length data' → length (rest b) ≡ len - b - 1
  length-rest b below =
      omega (arith, ap length (rest-drop b below), length-drop (suc b) data', length-data)

  rest-fits : (b : ℕ) → b < length data' → length (rest b) ≤ length written
  rest-fits b below =
      omega (arith, length-rest b below, length-overwrite s.remaining bytes s.buffer inside, inside)

  waiting-closed : (b : ℕ) → b < length data' → waiting (closed b) ≡ drop (suc b) data'
  waiting-closed b below =
      ap (λ n. take n (overwrite 0 (rest b) written)) (sym (length-rest b below) ∙ omega arith)
      ∙ take-overwrite 0 (rest b) written (omega (arith, rest-fits b below))
      ∙ rest-drop b below

  seen-closed : (b : ℕ) → memchr 10 (take len written) ≡ some b → seen (closed b) ≡ seen s ++ bytes
  seen-closed b e =
      let (parts, _, below) = found b e in
      let l = s.line ++ take b data' in
      let behind = drop (suc b) data' in
      ap (λ w. frame (s.lines ++ l ∷ []) ++ w) (waiting-closed b below)
      ∙ ap (λ r. r ++ behind) (frame-append s.lines l)
      ∙ append_assoc (frame s.lines) (l ++ 10 ∷ []) behind
      ∙ ap (λ r. frame s.lines ++ r)
          (append_assoc l (10 ∷ []) behind
            ∙ append_assoc s.line (take b data') (10 ∷ behind)
            ∙ ap (λ r. s.line ++ r) (sym parts)
            ∙ sym (append_assoc s.line (waiting s) bytes))
      ∙ sym (append_assoc (frame s.lines) (s.line ++ waiting s) bytes)

  handle_read_closed :
      (t : Session) (b : ℕ)
      → memchr 10 (take len written) ≡ some b
      → handle_read bytes s ≡ ok t
      → IsFramed t × (seen t ≡ seen s ++ bytes)
  unfolding handle_read
  handle_read_closed t b e h = elim (Option-cases (c_string written)) [
    | inl f ↦ absurd (ground (arith, e, f, h))
    | inr (cs, f) ↦
        let (parts, no_feed, below) = found b e in
        let some_of : take b cs ≡ take b data' =
          take-c_string b cs (omega (arith, below, length-data)) f in
        let l = s.line ++ take b data' in
        let same : t ≡ closed b = ground (arith, e, f, h, some_of) in
        rw same (
          record {
            whole =
                length-overwrite 0 (rest b) written (omega (arith, rest-fits b below))
                ∙ length-overwrite s.remaining bytes s.buffer inside
                ∙ v.whole;
            room = omega (arith, v.whole, inside, below, length-data);
            text =
                ap (is_free_of 0) (waiting-closed b below)
                ∙ is_free_of-drop 0 (suc b) data' data-clean;
            open_line = refl;
            closed_lines = ground (
              arith,
              all_free_of-append 10 s.lines l,
              is_free_of-append 10 s.line (take b data'),
              v.closed_lines,
              v.open_line,
              no_feed,
            );
          },
          seen-closed b e,
        )
  ]

-- What the reads deliver together, and that each fits into what it was asked for.
abbrev pub received : List Bytes → Bytes
received [] = []
received (bytes ∷ reads) = bytes ++ received reads

handle_read-IsFramed :
    (bytes : Bytes) (s t : Session)
    → IsFramed s
    → length bytes ≤ max_bytes_to_read s
    → is_free_of 0 bytes ≡ true
    → handle_read bytes s ≡ ok t
    → IsFramed t × (seen t ≡ seen s ++ bytes)
handle_read-IsFramed bytes s t v fits clean h =
    elim (Option-cases
      (memchr 10 (take (s.remaining + length bytes) (overwrite s.remaining bytes s.buffer)))) [
        | inl e ↦ handle_read_open bytes s v fits clean t e h
        | inr (b, e) ↦ handle_read_closed bytes s v fits clean t b e h
      ]

Reads-IsFramed :
    {reads : List Bytes} {s u : Session}
    → Reads reads s u
    → IsFramed s
    → all_free_of 0 reads ≡ true
    → IsFramed u × (seen u ≡ seen s ++ received reads)
Reads-IsFramed {s = s} no_reads v clean = (v, sym (append-nil (seen s)))
Reads-IsFramed {s = s} {u = u} (one_read {bytes = bytes} {reads = reads} {t = t} fits h more) v
      clean =
    let (framed, line) = handle_read-IsFramed bytes s t v fits (ground arith) h in
    let (framed', line') = Reads-IsFramed more framed (ground arith) in
    (
      framed',
      line' ∙ ap (λ l. l ++ received reads) line ∙ append_assoc (seen s) bytes (received reads),
    )

new_session-IsFramed :
    (uninitialised : Bytes)
    → length uninitialised ≡ max_length
    → IsFramed (new_session uninitialised)
unfolding max_length
new_session-IsFramed uninitialised size = record {
  whole = size;
  room = omega arith;
  text = refl;
  open_line = refl;
  closed_lines = refl;
}

-- Over any reads of text without a zero byte that the session handled, however the lines are cut up
-- between them: the lines handled, each with its line feed, the open line and what waits in the buffer
-- are together the bytes received, in order; no handled line has a line feed in it; and the buffer
-- keeps its size and room for at least one more byte.
pub Reads-framed :
    {reads : List Bytes} {uninitialised : Bytes} {u : Session}
    → length uninitialised ≡ max_length
    → Reads reads (new_session uninitialised) u
    → all_free_of 0 reads ≡ true
    → (frame u.lines ++ (u.line ++ waiting u) ≡ received reads)
      × (all_free_of 10 u.lines ≡ true)
      × (length u.buffer ≡ max_length)
      × (1 ≤ max_bytes_to_read u)
Reads-framed {uninitialised = uninitialised} size steps clean =
    let (framed, line) = Reads-IsFramed steps (new_session-IsFramed uninitialised size) clean in
    (line, framed.closed_lines, framed.whole, omega (arith, framed.room))
