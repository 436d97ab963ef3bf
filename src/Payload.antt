-- ===== src/Payload.antt =====
-- The payload bytes of a field in C/src/gbf.c: read_payload_bytes, maybe_decompress, compress_maybe and
-- what gbf_read_file and gbf_read_var do for one field. zlib is not part of the repository: its
-- functions are a record. The buffers are allocated.
pub mod Laws
use gbin.Prelude.{
  ℕ, zero, suc, ◌+◌, ◌%◌, ◌^◌, ◌≡◌, Bool, true, false, ◌&&◌, not, List, [], ◌∷◌, Option, none, some,
  Bytes, codes, length, take, drop, leb, ltb, ◌==◌, if◌then◌else◌, str_eq, Result, ok, err, ◌>>=◌,
  ◌>>◌, guard,
}
use gbin.Error.{
  Error, seek_failed, payload_truncated, chunk_too_large, usize_too_large, uncompress_failed,
  uncompressed_too_small, compress_failed, field_crc_mismatch,
}
use gbin.Word.{size_max}
use gbin.Header.{FieldMeta}
use gbin.Value.{Value}
use gbin.Codec.Decode.{decode_field_value}

pub record Zlib : Type 0 where
  -- crc32(0, buf, len)
  pub crc32 : Bytes → ℕ
  -- compress2 at a level (an int, as its 32 bits) into compressBound(len) bytes: `none` where the result is not Z_OK.
  pub compress2 : ℕ → Bytes → Option Bytes
  -- uncompress into a buffer of the given size: the bytes before dst_len.
  pub uncompress : ℕ → Bytes → Option Bytes
  -- Z_DEFAULT_COMPRESSION
  pub default_compression : ℕ

-- (uint32_t)crc32(0u, buf, (uInt)len): of the first len % 2^32 bytes.
abbrev pub buffer_crc : Zlib → Bytes → ℕ
buffer_crc z buf = z.crc32 (take (length buf % 2 ^ 32) buf) % 2 ^ 32

pub data CompressionMode : Type 0 where
  auto always never : CompressionMode

pub record WriteOptions : Type 0 where
  pub compression : CompressionMode
  -- An int, as its 32 bits.
  pub zlib_level : ℕ
  pub include_crc32 : Bool

pub record ReadOptions : Type 0 where
  pub validate : Bool

-- fseek takes a long: an offset of 2 ^ 63 and more is negative.
unfoldable pub read_payload_bytes : Bytes → ℕ → ℕ → Result Error Bytes
read_payload_bytes file abs_offset csize = if csize == 0 then ok [] else (do
  guard (leb csize size_max) chunk_too_large
  guard (ltb abs_offset (2 ^ 63)) seek_failed
  guard (leb csize (length (drop abs_offset file))) payload_truncated
  ok (take csize (drop abs_offset file)))

-- rc != Z_OK || dst_len != usize
abbrev pub exactly : ℕ → Option Bytes → Result Error Bytes
exactly usize none = err uncompress_failed
exactly usize (some u) = if length u == usize then ok u else err uncompress_failed

abbrev pub use_zlib : CompressionMode → Bytes → Bytes → Bool
use_zlib always comp src = true
use_zlib mode comp src = ltb (length comp) (length src)

-- Behind compress2: the name of the compression, and the bytes to write.
unfoldable pub choose : CompressionMode → Bytes → Option Bytes → Result Error (Bytes × Bytes)
choose mode src none = err compress_failed
choose mode src (some comp) =
    if use_zlib mode comp src then ok (codes "zlib", comp) else ok (codes "none", src)

abbrev pub or_never :
    CompressionMode → Bytes → Result Error (Bytes × Bytes) → Result Error (Bytes × Bytes)
or_never never src tried = ok (codes "none", src)
or_never mode src tried = tried

abbrev pub level : ℕ → ℕ → ℕ
level z_default zlib_level = if leb (2 ^ 31) zlib_level then z_default else zlib_level

module _ (z : Zlib) where
  unfoldable pub maybe_decompress : FieldMeta → Bytes → Result Error Bytes
  maybe_decompress meta cbuf =
      if meta.usize == 0
      then ok []
      else if str_eq meta.compression (codes "zlib")
      then (guard (leb meta.usize size_max) usize_too_large
          >> exactly meta.usize (z.uncompress meta.usize cbuf))
      else if ltb (length cbuf) meta.usize
      then err uncompressed_too_small
      else ok (take meta.usize cbuf)

  unfoldable pub compress_maybe : WriteOptions → Bytes → Result Error (Bytes × Bytes)
  unfolding choose
  compress_maybe opt src =
      if length src == 0
      then ok (codes "none", [])
      else or_never opt.compression src (
          choose opt.compression src (z.compress2 (level z.default_compression opt.zlib_level) src))

  -- "CRC validate on uncompressed bytes"
  unfoldable pub check_field_crc : ReadOptions → FieldMeta → Bytes → Result Error (Unit {0})
  check_field_crc opt meta ubuf =
      guard (not (opt.validate && (ltb 0 (length ubuf) && not (buffer_crc z ubuf == meta.crc32))))
        (field_crc_mismatch meta.name meta.crc32 (buffer_crc z ubuf))

  -- The value of one field, whose payload stands at an offset behind payload_start.
  unfoldable pub read_field : ReadOptions → Bytes → ℕ → FieldMeta → Result Error Value
  unfolding read_payload_bytes maybe_decompress check_field_crc
  read_field opt file payload_start meta = do
    cbuf ← read_payload_bytes file ((payload_start + meta.offset) % 2 ^ 64) meta.csize
    ubuf ← maybe_decompress meta cbuf
    check_field_crc opt meta ubuf
    decode_field_value meta ubuf
