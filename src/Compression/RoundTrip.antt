-- ===== src/Compression/RoundTrip.antt =====
-- What compression.cpp compresses, it decompresses again.
use bb_monitor.Base.{
  ℕ, ◌+◌, ◌*◌, ◌%◌, ◌^◌, ◌≤◌, ◌<◌, ◌≡◌, refl, ap, ◌∙◌, Bool, true, ◌&&◌, Option, some, [], ◌∷◌,
  Bytes, ℤ, pos, negsuc, int_leb, length, take, arith,
}
use bb_monitor.Compression.{
  ZStep, Zlib, returned, gzip_bits, input_of, through, compress_gzip, compress_deflate,
  decompress_deflate, decompress_gzip,
}
use bb_monitor.Compression.Blocks.{Drives, blocks-driven}

abbrev pub is_level : ℤ → Bool
is_level n = int_leb (negsuc 0) n && int_leb n (pos 9)

-- A text through two streams of zlib, which compress it and decompress that. Compressed text is little
-- longer than the text (`deflateBound`).
pub record IsLossless {S : Type 0} (zlib : Zlib S) (deflating inflating : Option S) (s : Bytes)
    : Type 0 where
  pub compressor : S
  pub decompressor : S
  pub compressed : Bytes
  pub rounds : ℕ
  pub rounds_back : ℕ
  pub deflate_opens : deflating ≡ some compressor
  pub inflate_opens : inflating ≡ some decompressor
  pub deflates : Drives zlib.deflate (zlib.set_input s compressor) compressed rounds
  pub inflates : Drives zlib.inflate (zlib.set_input compressed decompressor) s rounds_back
  pub compressed_bound : length compressed ≤ 2 * length s + 64

-- What zlib documents: nothing is lost, with any level there is, in both formats.
pub record IsZlib {S : Type 0} (zlib : Zlib S) : Type 0 where
  pub gzip :
      (level : ℤ) (s : Bytes)
      → is_level level ≡ true
      → IsLossless zlib (zlib.deflate_init2 level gzip_bits) (zlib.inflate_init2 gzip_bits) s
  pub zlib_format :
      (level : ℤ) (s : Bytes)
      → is_level level ≡ true
      → IsLossless zlib (zlib.deflate_init level) zlib.inflate_init s

take-length : (xs : Bytes) → take (length xs) xs ≡ xs
take-length [] = refl
take-length (x ∷ xs) = ap (λ zs. x ∷ zs) (take-length xs)

input_of-short : (s : Bytes) → length s < 2 ^ 32 → input_of s ≡ s
input_of-short s h =
    let whole : length s % 2 ^ 32 ≡ length s = omega (arith, h) in
    ap (λ n. take n s) whole ∙ take-length s

module _ {S : Type 0} (zlib : Zlib S) where
  through-driven :
      (step : ℕ → S → ZStep S) (opened : Option S) (zs : S) (s out : Bytes) (rounds n : ℕ)
      (garbage : Bytes)
      → opened ≡ some zs
      → length s < 2 ^ 32
      → Drives step (zlib.set_input s zs) out rounds
      → rounds ≤ n
      → through zlib step n garbage opened s ≡ returned out
  unfolding through
  through-driven step opened zs s out rounds n garbage e short d h =
      rw (e, input_of-short s short, blocks-driven d n garbage [] h)

  through-lossless :
      (deflating inflating : Option S) (s : Bytes)
      → IsLossless zlib deflating inflating s
      → 2 * length s + 64 < 2 ^ 32
      → (compressed : Bytes) × (enough : ℕ) × ((n : ℕ) (garbage garbage' : Bytes)
          → enough ≤ n
          → (through zlib zlib.deflate n garbage deflating s ≡ returned compressed)
            × (through zlib zlib.inflate n garbage' inflating compressed ≡ returned s))
  through-lossless deflating inflating s z short = (
    z.compressed,
    z.rounds + z.rounds_back,
    λ n garbage garbage' h. (
      through-driven zlib.deflate deflating z.compressor s z.compressed z.rounds n garbage
          z.deflate_opens (omega (arith, short)) z.deflates (omega (arith, h)),
      through-driven zlib.inflate inflating z.decompressor z.compressed s z.rounds_back n garbage'
          z.inflate_opens (omega (arith, short, z.compressed_bound)) z.inflates (omega (arith, h)),
    ),
  )

  -- A text of less than about 2 GiB, compressed in either format with a level that zlib has, is the
  -- result of decompressing what came out; both loops end, and what the buffers held before does not
  -- show.
  pub decompress-compress :
      IsZlib zlib
      → (level : ℤ) (s : Bytes) → is_level level ≡ true
      → 2 * length s + 64 < 2 ^ 32
      → ((compressed : Bytes) × (enough : ℕ) × ((n : ℕ) (garbage garbage' : Bytes)
            → enough ≤ n
            → (compress_gzip zlib n garbage s level ≡ returned compressed)
              × (decompress_gzip zlib n garbage' compressed ≡ returned s)))
        × ((compressed : Bytes) × (enough : ℕ) × ((n : ℕ) (garbage garbage' : Bytes)
              → enough ≤ n
              → (compress_deflate zlib n garbage s level ≡ returned compressed)
                × (decompress_deflate zlib n garbage' compressed ≡ returned s)))
  decompress-compress z level s h short = (
    through-lossless (zlib.deflate_init2 level gzip_bits) (zlib.inflate_init2 gzip_bits) s
        (z.gzip level s h) short,
    through-lossless (zlib.deflate_init level) zlib.inflate_init s (z.zlib_format level s h) short,
  )
