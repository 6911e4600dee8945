-- ===== src/Compression/Tests.antt =====
-- Runs of compression.cpp with a library that moves each byte up by one and writes a byte a call.
use bb_monitor.Base.{
  ℕ, zero, suc, ◌+◌, ◌*◌, ◌≤◌, ◌≡◌, refl, some, [], ◌∷◌, Bytes, pos, codes, length, arith,
}
use bb_monitor.Compression.{
  z_ok, z_stream_end, z_error, ZStep, Zlib, returned, thrown, compress_gzip, compress_deflate,
  decompress_deflate, decompress_gzip, blocks, through,
}
use bb_monitor.Compression.Blocks.{Drives, ends, goes_on}
use bb_monitor.Compression.RoundTrip.{IsLossless, IsZlib, decompress-compress}

abbrev up : ℕ → Bytes → ZStep Bytes
up room [] = record { ret = z_stream_end; written = []; zs = [] }
up room (x ∷ s) = record { ret = z_ok; written = suc x ∷ []; zs = s }

abbrev down : ℕ → Bytes → ZStep Bytes
down room [] = record { ret = z_stream_end; written = []; zs = [] }
down room (zero ∷ s) = record { ret = z_error; written = []; zs = s }
down room (suc x ∷ s) = record { ret = z_ok; written = x ∷ []; zs = s }

abbrev pub shifting : Zlib Bytes
shifting = record {
  deflate_init = λ level. some [];
  deflate_init2 = λ level bits. some [];
  inflate_init = some [];
  inflate_init2 = λ bits. some [];
  set_input = λ s zs. s;
  deflate = up;
  inflate = down;
}

abbrev shifted : Bytes → Bytes
shifted [] = []
shifted (x ∷ s) = suc x ∷ shifted s

up-Drives : (s : Bytes) → Drives up s (shifted s) (suc (length s))
up-Drives [] = ends [] [] [] refl
up-Drives (x ∷ s) = goes_on (x ∷ s) s (suc x ∷ []) (shifted s) (suc (length s)) refl (up-Drives s)

down-Drives : (s : Bytes) → Drives down (shifted s) s (suc (length s))
down-Drives [] = ends [] [] [] refl
down-Drives (x ∷ s) =
    goes_on (suc x ∷ shifted s) (shifted s) (x ∷ []) s (suc (length s)) refl (down-Drives s)

length-shifted : (s : Bytes) → length (shifted s) ≤ 2 * length s + 64
length-shifted [] = omega arith
length-shifted (x ∷ s) = omega (arith, length-shifted s)

shifting-IsLossless : (s : Bytes) → IsLossless shifting (some []) (some []) s
shifting-IsLossless s = record {
  compressor = [];
  decompressor = [];
  compressed = shifted s;
  rounds = suc (length s);
  rounds_back = suc (length s);
  deflate_opens = refl;
  inflate_opens = refl;
  deflates = up-Drives s;
  inflates = down-Drives s;
  compressed_bound = length-shifted s;
}

pub shifting-IsZlib : IsZlib shifting
shifting-IsZlib = record {
  gzip = λ level s h. shifting-IsLossless s;
  zlib_format = λ level s h. shifting-IsLossless s;
}

decompress-compress_example :
    ((compressed : Bytes) × (enough : ℕ) × ((n : ℕ) (garbage garbage' : Bytes)
        → enough ≤ n
        → (compress_gzip shifting n garbage (codes "up") (pos 9) ≡ returned compressed)
          × (decompress_gzip shifting n garbage' compressed ≡ returned (codes "up"))))
    × ((compressed : Bytes) × (enough : ℕ) × ((n : ℕ) (garbage garbage' : Bytes)
          → enough ≤ n
          → (compress_deflate shifting n garbage (codes "up") (pos 9) ≡ returned compressed)
            × (decompress_deflate shifting n garbage' compressed ≡ returned (codes "up"))))
decompress-compress_example =
    decompress-compress shifting shifting-IsZlib (pos 9) (codes "up") refl (omega arith)

-- An error of zlib is an exception, whatever came before it.
broken_input : decompress_gzip shifting 5 (7 ∷ []) (5 ∷ 0 ∷ 3 ∷ []) ≡ thrown
unfolding through blocks
broken_input = refl

written_blocks : compress_deflate shifting 5 (7 ∷ []) (1 ∷ 2 ∷ []) (pos 1) ≡ returned (2 ∷ 3 ∷ [])
unfolding through blocks
written_blocks = refl
