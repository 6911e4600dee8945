-- ===== src/Compression.antt =====
-- libraries/bb_monitor_utils/compression.cpp: a text through zlib, a block at a time. zlib is the record
-- `Zlib`; its streams are the type `S`. `garbage` is what stands in the output buffer, which the code does
-- not initialise.
pub mod Blocks
pub mod RoundTrip
pub mod Tests
use bb_monitor.Base.{
  ℕ, zero, suc, ◌+◌, ◌-◌, ◌%◌, ◌^◌, Bool, true, false, Option, none, some, List, [], ◌∷◌, ◌++◌,
  Bytes, ℤ, length, take, drop, ltb, if◌then◌else◌,
}

pub data Ret : Type 0 where
  z_ok : Ret
  z_stream_end : Ret
  z_error : Ret

-- What a call of `deflate` or `inflate` does: it moves `next_out` over what it writes to the buffer.
pub record ZStep (S : Type 0) : Type 0 where
  pub ret : Ret
  pub written : Bytes
  pub zs : S

-- `none` stands for an answer that is not `Z_OK`. The window bits are an argument of the `...Init2`
-- functions; the first number of a step is `avail_out`.
pub record Zlib (S : Type 0) : Type 0 where
  pub deflate_init : ℤ → Option S
  pub deflate_init2 : ℤ → ℕ → Option S
  pub inflate_init : Option S
  pub inflate_init2 : ℕ → Option S
  pub set_input : Bytes → S → S
  pub deflate : ℕ → S → ZStep S
  pub inflate : ℕ → S → ZStep S

-- `running` is a loop that has not ended within its bound.
pub data Result : Type 0 where
  returned : Bytes → Result
  thrown : Result
  running : Result

abbrev pub outbuffer_size : ℕ
outbuffer_size = 32768

abbrev pub gzip_bits : ℕ
gzip_bits = 15 + 16

-- `avail_in` has 32 bits.
abbrev pub input_of : Bytes → Bytes
input_of str = take (length str % 2 ^ 32) str

abbrev pub overwrite : Bytes → Bytes → Bytes
overwrite written outbuffer = written ++ drop (length written) outbuffer

-- `if (outstring.size() < zs.total_out) outstring.append(outbuffer, zs.total_out - outstring.size());`
abbrev pub append_block : ℕ → Bytes → Bytes → Bytes
append_block total_out outbuffer outstring =
    if ltb (length outstring) total_out
    then outstring ++ take (total_out - length outstring) outbuffer
    else outstring

-- Behind the loop.
abbrev pub ended : Ret → Bytes → Result
ended z_ok outstring = running
ended z_stream_end outstring = returned outstring
ended z_error outstring = thrown

module _ {S : Type 0} where
  -- The loop, with a bound on its rounds.
  unfoldable pub blocks : (ℕ → S → ZStep S) → ℕ → S → ℕ → Bytes → Bytes → Result
  blocks step zero zs total_out outbuffer outstring = running
  blocks step (suc n) zs total_out outbuffer outstring =
      let z = step outbuffer_size zs in
      let total = total_out + length z.written in
      let block = overwrite z.written outbuffer in
      let out = append_block total block outstring in
      let rest = blocks step n z.zs total block out in
      elim z.ret [
        | z_ok ↦ rest
        | z_stream_end ↦ ended z_stream_end out
        | z_error ↦ ended z_error out
      ]

  -- The body of each of the functions.
  unfoldable pub through : Zlib S → (ℕ → S → ZStep S) → ℕ → Bytes → Option S → Bytes → Result
  through zlib step n garbage none str = thrown
  through zlib step n garbage (some zs) str =
      blocks step n (zlib.set_input (input_of str) zs) 0 garbage []

  module _ (zlib : Zlib S) (n : ℕ) (garbage : Bytes) where
    abbrev pub compress_gzip : Bytes → ℤ → Result
    compress_gzip str compressionlevel =
        through zlib zlib.deflate n garbage (zlib.deflate_init2 compressionlevel gzip_bits) str

    abbrev pub compress_deflate : Bytes → ℤ → Result
    compress_deflate str compressionlevel =
        through zlib zlib.deflate n garbage (zlib.deflate_init compressionlevel) str

    abbrev pub decompress_deflate : Bytes → Result
    decompress_deflate str = through zlib zlib.inflate n garbage zlib.inflate_init str

    abbrev pub decompress_gzip : Bytes → Result
    decompress_gzip str = through zlib zlib.inflate n garbage (zlib.inflate_init2 gzip_bits) str

-- `snappy::Uncompress` answers with whether it succeeded, and with its text.
abbrev pub decompress_snappy : (Bytes → Bool × Bytes) → Bytes → Bytes
decompress_snappy uncompress str = (uncompress str).1
