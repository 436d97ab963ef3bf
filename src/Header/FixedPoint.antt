-- ===== src/Header/FixedPoint.antt =====
-- The loop of gbf_write_file (C/src/gbf.c) that looks for a payload_start and a file_size which agree
-- with the length of the header that prints them.
pub mod Width
pub mod Text
pub mod Converges
use gbin.Prelude.{
  ℕ, zero, suc, ◌+◌, ◌%◌, ◌^◌, ◌&&◌, List, Bytes, codes, length, ◌==◌, if◌then◌else◌, Result, ok,
  ◌>>=◌,
}
use gbin.Error.{Error}
use gbin.Header.{FieldMeta, Bool}
use gbin.Header.Build.{build_header_json}

-- payload_start, file_size and header_zero behind the loop.
pub record Layout : Type 0 where
  pub payload_start : ℕ
  pub file_size : ℕ
  pub header_zero : Bytes

abbrev pub zeros : Bytes
zeros = codes "00000000"

-- (uint64_t)(8 + 4) + (uint64_t)header_len, of a header_len that is a uint32_t.
unfoldable pub payload_start_of : Bytes → ℕ
payload_start_of header = (8 + 4 + length header % 2 ^ 32) % 2 ^ 64

-- The state behind an iteration that has built that header.
unfoldable pub next_layout : ℕ → Bytes → Layout
unfolding payload_start_of
next_layout payload_size header = record {
  payload_start = payload_start_of header;
  file_size = (payload_start_of header + payload_size) % 2 ^ 64;
  header_zero = header;
}

-- The test for the break.
unfoldable pub is_stable : Layout → Layout → Bool
is_stable l next = next.payload_start == l.payload_start && next.file_size == l.file_size

-- The iterations left, at a payload_start and a file_size.
unfoldable pub iterate : List FieldMeta → ℕ → ℕ → Layout → Result Error Layout
unfolding next_layout is_stable
iterate fields payload_size zero l = ok l
iterate fields payload_size (suc n) l = do
  header ← build_header_json fields l.payload_start l.file_size zeros
  let next = next_layout payload_size header in
      let rest = iterate fields payload_size n next in if is_stable l next then ok next else rest

-- The loop of 8 iterations from 0.
unfoldable pub fixed_point : List FieldMeta → ℕ → Result Error Layout
unfolding iterate
fixed_point fields payload_size =
    iterate fields payload_size 8
      (record { payload_start = 0; file_size = 0; header_zero = codes "" })
