-- ===== src/Compression/Blocks.antt =====
-- The loop over the blocks in compression.cpp: what zlib writes is what comes out.
use bb_monitor.Base.{
  ℕ, zero, suc, ◌+◌, ◌≤◌, ◌≡◌, refl, ap, [], ◌∷◌, ◌++◌, Bytes, length, take, drop, arith,
  append_assoc, append-nil, length-append,
}
use bb_monitor.Compression.{
  z_ok, z_stream_end, ZStep, returned, outbuffer_size, overwrite, append_block, blocks,
}

-- A stream that is driven with the buffer of the code until its end, and writes a text meanwhile.
pub data Drives {S : Type 0} (step : ℕ → S → ZStep S) : S → Bytes → ℕ → Type 0 where
  ends :
      (zs next : S) (written : Bytes)
      → step outbuffer_size zs ≡ record { ret = z_stream_end; written = written; zs = next }
      → Drives step zs written 1
  goes_on :
      (zs next : S) (written out : Bytes) (rounds : ℕ)
      → step outbuffer_size zs ≡ record { ret = z_ok; written = written; zs = next }
      → Drives step next out rounds
      → Drives step zs (written ++ out) (suc rounds)

take-length-append : (xs ys : Bytes) → take (length xs) (xs ++ ys) ≡ xs
take-length-append [] ys = refl
take-length-append (x ∷ xs) ys = ap (λ zs. x ∷ zs) (take-length-append xs ys)

-- The block that a step wrote is appended, whatever the buffer held.
append_block-overwrite :
    (written outbuffer outstring : Bytes)
    → append_block (length outstring + length written) (overwrite written outbuffer) outstring
      ≡ outstring ++ written
append_block-overwrite [] outbuffer outstring = ground (arith, append-nil outstring)
append_block-overwrite (x ∷ w) outbuffer outstring =
    ground (arith, take-length-append (x ∷ w) (drop (length (x ∷ w)) outbuffer))

after_block :
    {S : Type 0} (step : ℕ → S → ZStep S) (n : ℕ) (z : ZStep S) (outbuffer outstring : Bytes)
    → blocks step n z.zs (length outstring + length z.written) (overwrite z.written outbuffer) (
        append_block
          (length outstring + length z.written)
          (overwrite z.written outbuffer)
          outstring)
      ≡ blocks step n z.zs
          (length (outstring ++ z.written))
          (overwrite z.written outbuffer)
          (outstring ++ z.written)
after_block step n z outbuffer outstring =
    rw (append_block-overwrite z.written outbuffer outstring, length-append outstring z.written)

-- With as many rounds as the stream has blocks, the loop ends with what was written, behind what it had.
pub blocks-driven :
    {S : Type 0} {step : ℕ → S → ZStep S} {zs : S} {out : Bytes} {rounds : ℕ}
    → Drives step zs out rounds
    → (n : ℕ) (outbuffer outstring : Bytes) → rounds ≤ n
    → blocks step n zs (length outstring) outbuffer outstring ≡ returned (outstring ++ out)
unfolding blocks
blocks-driven (ends zs next written e) zero outbuffer outstring h = absurd (omega (arith, h))
blocks-driven (ends zs next written e) (suc n) outbuffer outstring h =
    ground (arith, e, append_block-overwrite written outbuffer outstring)
blocks-driven (goes_on zs next written out rounds e d) zero outbuffer outstring h =
    absurd (omega (arith, h))
blocks-driven {step = step} (goes_on zs next written out rounds e d) (suc n) outbuffer outstring h =
    ground (
      arith,
      e,
      after_block step n (step outbuffer_size zs) outbuffer outstring,
      blocks-driven d n (overwrite written outbuffer) (outstring ++ written) (omega (arith, h)),
      append_assoc outstring written out,
    )
