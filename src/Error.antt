-- ===== src/Error.antt =====
-- The messages that the functions of C/src/gbf_json.c and C/src/gbf.c report by json_set_err and
-- gbf_set_err: one constructor for a message, with the values that its format prints. A text
-- argument is the prefix of messages that differ only by it.
use Prim.Native.String.{String}
use gbin.Prelude.{ℕ, Bytes}

pub data JsonError : Type 0 where
  null_input unexpected_end bad_literal trailing_characters : JsonError
  expected_string control_character bad_escape short_u_escape invalid_u_escape : JsonError
  unsupported_escape unterminated_string : JsonError
  expected_number bad_number : JsonError
  expected_array unterminated_array expected_comma_or_bracket : JsonError
  expected_object expected_colon unterminated_object expected_comma_or_brace : JsonError
  -- No message: the recursion of the model ran out of fuel.
  out_of_fuel : JsonError

pub data Error : Type 0 where
  -- The function returns 0 and sets no message.
  silent : Error
  -- An allocation helper prints "gbf: out of memory" and calls abort().
  aborted : Error
  -- Undefined behaviour: the function writes past a block of memory, or reads past one.
  undefined : Error
  -- Values and structs.
  target_not_struct empty_key child_null : Error
  shape_required shape_too_large : String → Error
  data_null : Error
  len_mismatch : String → ℕ → ℕ → Error
  imag_len_mismatch imag_not_complex : Error
  root_not_struct empty_path bad_path : Error
  path_collision : Bytes → Error
  -- Decoding.
  dimension_too_large : Error
  unsupported_class : Bytes → Error
  payload_too_small complex_payload_too_small short_payload : String → Error
  count_mismatch short_mask short_array bad_array : String → Error
  short_element_header short_element_bytes bad_strings bad_category_string short_codes : Error
  -- Encoding.
  encode_null nonempty_struct_leaf element_too_large too_many_categories : Error
  too_many_elements mask_length_mismatch : String → Error
  -- Header.
  json_parse_failed : JsonError → Error
  missing_fields_array : Error
  field_not_object field_missing_names field_missing_shape : ℕ → Error
  -- Reading.
  no_path open_failed missing_magic bad_magic missing_header_len header_truncated : Error
  unreasonable_header_length : ℕ → Error
  header_crc_mismatch payload_start_mismatch file_size_mismatch : ℕ → ℕ → Error
  chunk_too_large seek_failed payload_truncated : Error
  usize_too_large uncompress_failed uncompressed_too_small : Error
  field_crc_mismatch : Bytes → ℕ → ℕ → Error
  var_not_found : Bytes → Error
  -- Writing.
  compress_failed unnamed_leaf write_root_not_struct header_length_changed no_header : Error
  write_failed write_payload_failed : Error
