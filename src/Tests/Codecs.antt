-- ===== src/Tests/Codecs.antt =====
-- The Blosc codec over a library that writes each integer as its sign and its size.
use tmfqsfullstate.Prelude.{
  ◌+◌, ◌*◌, ◌≡◌, refl, ap, true, false, some, leb, if◌then◌else◌, arith, List, [], ◌∷◌, length,
  replicate, length-replicate,
}
use tmfqsfullstate.Prelude.Int.{ℤ, pos, negsuc, eqb_ℤ}
use tmfqsfullstate.Core.Action.{err, overflow_error}
use tmfqsfullstate.Config.{BloscConfig}
use tmfqsfullstate.Storage.Blosc.{Blosc2, BloscCodec, validate_config, compress}
use tmfqsfullstate.Storage.Blosc.Laws.{IsBlosc2, compress-full_chunk_overflow}
use tmfqsfullstate.Tests.Compressed.{encode, decode, decode-encode, config}

length-encode : (values : List ℤ) → length (encode values) ≡ length values * 2
unfolding encode
length-encode [] = refl
length-encode (pos n ∷ values) = let rest = length-encode values in omega (arith, rest)
length-encode (negsuc n ∷ values) = let rest = length-encode values in omega (arith, rest)

-- The one compressor has the code 0, with whose overhead a buffer needs 32 bytes more than the data.
abbrev library : Blosc2 ℤ
library = record {
  max_overhead = 32;
  has_compressor = λ compcode. eqb_ℤ compcode (pos 0);
  creates_cctx = λ cfg. eqb_ℤ cfg.compcode (pos 0);
  creates_dctx = λ cfg. true;
  compress_ctx = λ cfg values size. if leb (length values * 8 + 32) size then encode values else [];
  decompress_ctx = λ cfg bytes size. some (decode bytes);
}

library-IsBlosc2 : IsBlosc2 library
library-IsBlosc2 = record {
  makes_cctx = λ cfg ready. ready.compressor;
  makes_dctx = λ cfg ready. refl;
  writes = λ cfg values size ready some_values large.
      let enough : leb (length values * 8 + 32) size ≡ true = ground arith in
      let same = length-encode values in rw enough (omega (arith, same), omega (arith, same));
  reads = λ cfg values size ready some_values large.
      let enough : leb (length values * 8 + 32) size ≡ true = ground arith in
      rw enough (ap some (decode-encode values));
}

-- a codec as it is constructed
abbrev constructed : BloscConfig → BloscCodec
constructed cfg = record {
  cfg = cfg;
  compression_ctx = false;
  decompression_ctx = false;
  compression_scratch = 0;
}

abbrev codec : BloscCodec
codec = constructed config.blosc_config

abbrev values : List ℤ
values = pos 1 ∷ pos 0 ∷ []

-- The largest chunk that is accepted: 134217727 states are 2147483632 bytes, too many with the overhead of 32.
abbrev largest : BloscCodec
largest = constructed (record config.blosc_config { chunk_states = 134217727 })

full_chunk : List ℤ
full_chunk = replicate 268435454 (pos 0)

length-full_chunk : length full_chunk ≡ 268435454
unfolding full_chunk
length-full_chunk = length-replicate 268435454 (pos 0)

compress-full_chunk_overflow_example :
    ((compress library full_chunk largest).0 ≡ err overflow_error)
    × ((compress library values (compress library full_chunk largest).1).0 ≡ err overflow_error)
unfolding validate_config
compress-full_chunk_overflow_example =
    compress-full_chunk_overflow library library-IsBlosc2 largest full_chunk values (omega arith)
      refl refl (omega arith) length-full_chunk (omega arith) (omega arith)
      (omega (arith, length-full_chunk))
