-- ===== src/LogProxy/Overrun.antt =====
-- When `session::handle_read` of the log proxy (main.cpp) runs over the end of its buffer: it turns the
-- array into a string without its length.
use bb_monitor.Base.{
  zero, suc, ◌+◌, ◌≡◌, ◌↔◌, true, none, [], ◌∷◌, Bytes, length, take, arith, Option-cases, inl, inr,
}
use bb_monitor.Outcome.{undefined}
use bb_monitor.LogProxy.{Session, memchr, c_string, overwrite, handle_read}
use bb_monitor.Base.Text.{is_free_of}

c_string-none : (xs : Bytes) → (c_string xs ≡ none) ↔ (is_free_of 0 xs ≡ true)
c_string-none [] = ground arith
c_string-none (zero ∷ xs) = ground arith
c_string-none (suc x ∷ xs) = ground (arith, c_string-none xs)

-- A read is undefined exactly when, after it, no byte of the whole buffer is zero: then the search for
-- the end of the C string leaves the array.
pub handle_read_undefined :
    (bytes : Bytes) (s : Session)
    → (handle_read bytes s ≡ undefined)
      ↔ (is_free_of 0 (overwrite s.remaining bytes s.buffer) ≡ true)
unfolding handle_read
handle_read_undefined bytes s =
    let buffer = overwrite s.remaining bytes s.buffer in
    elim (Option-cases (memchr 10 (take (s.remaining + length bytes) buffer))) [
      | inl e ↦ ground (arith, e, c_string-none buffer)
      | inr (b, e) ↦ ground (arith, e, c_string-none buffer)
    ]
