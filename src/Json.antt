-- ===== src/Json.antt =====
-- The JSON values of C/src/gbf_json.c. The double of a number is of an abstract type `D`.
pub mod Text
pub mod Parse
pub mod Access
pub mod Crc
use gbin.Prelude.{ℕ, Bool, Bytes}

mutual
  pub data Json (D : Type 0) : Type 0 where
    null : Json D
    bool : Bool → Json D
    -- The number's value, its raw text and is_int.
    number : D → Bytes → Bool → Json D
    string : Bytes → Json D
    array : Items D → Json D
    object : Fields D → Json D

  pub data Items (D : Type 0) : Type 0 where
    no_items : Items D
    item : Json D → Items D → Items D

  pub data Fields (D : Type 0) : Type 0 where
    no_fields : Fields D
    field : Bytes → Json D → Fields D → Fields D
