-- ===== src/Header.antt =====
-- The header of C/include/gbin/gbf.h: what gbf_header_t and gbf_field_meta_t hold. A writer_field_t of
-- C/src/gbf.c is a FieldMeta and its payload.
pub mod Text
pub mod Build
pub mod Tail
pub mod Parse
pub mod FixedPoint
pub mod Tree
use gbin.Prelude.{ℕ, Bool, List, Bytes}

pub record FieldMeta : Type 0 where
  pub name : Bytes
  pub kind : Bytes
  pub class_name : Bytes
  pub shape : List ℕ
  pub complex : Bool
  pub encoding : Bytes
  pub compression : Bytes
  pub offset : ℕ
  pub csize : ℕ
  pub usize : ℕ
  pub crc32 : ℕ

pub record Header : Type 0 where
  pub format : Bytes
  pub magic : Bytes
  pub version : ℕ
  pub endianness : Bytes
  pub order : Bytes
  pub root : Bytes
  pub payload_start : ℕ
  pub file_size : ℕ
  pub header_crc32_hex : Bytes
  pub fields : List FieldMeta
