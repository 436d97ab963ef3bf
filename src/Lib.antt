-- ===== src/Lib.antt =====
-- A model of the C library of GBIN: the GBF container format of C/src/gbf.c with its JSON reader
-- C/src/gbf_json.c, its helpers C/src/gbf_util.c, the types of C/include/gbin/gbf.h, and the layer of
-- entries of C/src/gbf_easy.c and C/include/gbin/gbf_easy.h.
--
-- A GBF file is a magic, the length of a header, the header as JSON text, and the payloads of its
-- fields. A value is a tree of structs whose leaves are arrays. The writer flattens it to fields with
-- dotted names, encodes and compresses each leaf, and prints the header; the reader parses the header,
-- decompresses and decodes each payload, and inserts the leaf under its path. The layer of entries makes
-- leaves of typed buffers, in the order and the bytes of the format, and writes a list of them.
--
-- The files and what they model:
--   * Prelude: the shared names, Boolean tests, lists, C strings and results.
--   * Word: loads, stores and gbf_checked_mul_size of gbf_util.c. Strbuf: gbf_strbuf_t, with the block
--     written out, so that a write past it shows; realloc is a parameter. Strbuf/Content is the same
--     buffer by its bytes and its capacity, for the code that fills one.
--   * Libc: what the code uses of strtoull, strtoul and the decimal formats.
--   * Error: the messages. Value: the values of gbf.h; Value/Class and Value/Shape the tables and the
--     element count; Value/Struct and Value/Path gbf_struct_set, split_path and struct_insert_path;
--     Value/Make and Value/Matrix the constructors. Value/Rebuild puts the
--     leaves of a struct together again. Memory is what memcpy does to a block.
--   * Codec: encode_value_bytes (Codec/Encode), decode_field_value (Codec/Decode) and what the header
--     says of a leaf (Codec/Describe). Codec/RoundTrip and Codec/Elements hold the proofs.
--   * Json: gbf_json.c. Json/Text reads and prints strings, Json/Parse is the parser, Json/Access the
--     accessors, Json/Crc the search for the CRC field with crc_hex8.
--     Json/Parse/Render prints a JSON tree, for the round trips.
--   * Header: build_header_json (Header/Build), parse_header_from_json (Header/Parse) and the loop that
--     finds payload_start and file_size (Header/FixedPoint). An append that writes past the block of the
--     buffer is `err undefined`; Header/Text and Header/FixedPoint/Text are the texts without the
--     buffer, and Header/Build/Held the step between them. Header/Tree is the JSON tree of a header, by
--     which Header/Tree/RoundTrip joins the printer and the parser.
--   * Payload: read_payload_bytes, maybe_decompress, compress_maybe and the reading of one field.
--     Reader: gbf_read_header_only, gbf_read_file and gbf_read_var.
--   * Writer: flatten_fields_rec and gbf_write_file; Writer/Layout is about the layout of the file,
--     Writer/ReadBack about what gbf_read_header_only makes of it, Writer/Leaf about reading one leaf.
--   * Easy: the layer of entries. Easy/Shape has the checks of a shape; Easy/Order to_col_major_bytes and
--     gbf_easy_bswap_inplace, with the proofs below it; Easy/Make the constructors of entries;
--     Easy/Access gbf_easy_get and the typed views; Easy/Insert struct_insert_by_path; Easy/File
--     gbf_easy_write_file. Easy/Paths compares the paths with those of gbf.c; Easy/Built and
--     Easy/Written are about what is written.
--   * Tests: the theorems at concrete inputs.
--
-- Numbers are the native ones; a C integer keeps its wrap-around as `% 2 ^ w`, and a signed one
-- is held as the unsigned number with its bits. size_t has 64 bits. A C string is the list of
-- its bytes before the NUL. Where the code calls an allocation helper that aborts, memory is
-- assumed to suffice, but for products that overflow in calloc. Whether the host is little-
-- endian is a parameter; zlib, strtod, llround, the comparisons of doubles, realloc and the
-- file system are parameters, too.
--
-- gbf_sb_append_fmt writes its NUL past the block where a text fills the block exactly. The code
-- that prints with it (json_append_u64, join_name) therefore returns `err undefined` in such a
-- place. The theorems on header texts have FitsBlocks of Strbuf/Content/Fits as their condition on
-- a text.
--
-- Fuel: the doubling loop of gbf_sb_reserve has 65 steps, since a capacity of 64 or more passes
-- 2 ^ 63 before; the JSON parser has twice the length of the text and 2; the string parser the
-- length of the text and 1; decimal numbers have 20 digits; the loop that swaps the bytes of an
-- element has the size of the element; the loop of gbf_write_file has its own 8 iterations.
--
-- Not modelled: the command line tool and the ports to other languages. The free functions have
-- no result to speak of.
pub mod Prelude
pub mod Word
pub mod Memory
pub mod Strbuf
pub mod Error
pub mod Easy
pub mod Value
pub mod Header
pub mod Codec
pub mod Json
pub mod Libc
pub mod Payload
pub mod Reader
pub mod Writer
pub mod Tests
