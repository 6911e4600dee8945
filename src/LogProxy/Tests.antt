-- ===== src/LogProxy/Tests.antt =====
-- `session::handle_read` of the log proxy (main.cpp) on two reads into a zeroed buffer.
use bb_monitor.Base.{
  ℕ, zero, suc, ◌≡◌, ◌≤◌, ◌↔◌, refl, ap, true, [], ◌∷◌, ◌++◌, Bytes, codes, length, arith,
}
use bb_monitor.Outcome.{Outcome, ok, skipped, undefined}
use bb_monitor.LogProxy.{
  Session, max_length, new_session, overwrite, handle_read, max_bytes_to_read, Reads, no_reads,
  one_read,
}
use bb_monitor.Base.Text.{is_free_of}
use bb_monitor.LogProxy.Framing.{frame, all_free_of, waiting, Reads-framed}
use bb_monitor.LogProxy.Overrun.{handle_read_undefined}

zeros : ℕ → Bytes
zeros zero = []
zeros (suc n) = 0 ∷ zeros n

length-zeros : (n : ℕ) → length (zeros n) ≡ n
unfolding zeros
length-zeros zero = refl
length-zeros (suc n) = ap suc (length-zeros n)

abbrev fresh : Session
fresh = new_session (zeros max_length)

abbrev got : Outcome Session → Session
got (ok s) = s
got skipped = new_session []
got undefined = new_session []

abbrev after_one : Session
after_one = got (handle_read (codes "ab\ncd") fresh)

first_read : handle_read (codes "ab\ncd") fresh ≡ ok after_one
unfolding handle_read max_length zeros
first_read = refl

after_one_lines : after_one.lines ≡ codes "ab" ∷ []
unfolding handle_read max_length zeros
after_one_lines = refl

first-Reads : Reads (codes "ab\ncd" ∷ []) fresh after_one
unfolding max_length
first-Reads = one_read (omega arith) first_read no_reads

Reads-framed_example :
    (frame after_one.lines ++ (after_one.line ++ waiting after_one) ≡ codes "ab\ncd")
    × (all_free_of 10 after_one.lines ≡ true)
    × (length after_one.buffer ≡ max_length)
    × (1 ≤ max_bytes_to_read after_one)
Reads-framed_example =
    Reads-framed {reads = codes "ab\ncd" ∷ []} {uninitialised = zeros max_length} {u = after_one}
      (length-zeros max_length) first-Reads refl

handle_read_undefined_example :
    (handle_read (codes "ab") (new_session (codes "xyz")) ≡ undefined)
    ↔ (is_free_of 0 (overwrite 0 (codes "ab") (codes "xyz")) ≡ true)
handle_read_undefined_example = handle_read_undefined (codes "ab") (new_session (codes "xyz"))
