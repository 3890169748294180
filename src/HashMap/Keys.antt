-- ===== src/HashMap/Keys.antt =====
-- include/nodepp/map.h: `get_key`, of integers and of strings.
use nodepp.Prelude.{ℕ, ◌%◌, ◌^◌, ◌==◌, ap, arith, ==_iff}
use nodepp.Encoder.Hash
use nodepp.Text.{Text, same}
use nodepp.Text.Affix.{same_iff}
use nodepp.HashMap.Look.{IsKey}

-- `(uchar_64) id`
unfoldable pub integral_key : ℕ → ℕ
integral_key id = id % 2 ^ 64

-- `encoder::hash::get( key, SIZE )` with the size that a map has where none is named.
unfoldable pub text_key : Text → ℕ
unfolding Hash.get
text_key id = Hash.get id 65535

pub integral_key-IsKey : IsKey integral_key ◌==◌
unfolding integral_key
integral_key-IsKey = record {
  bits = λ u. omega arith;
  agree = λ a b e. ap integral_key ((==_iff a b).0 e);
}

pub text_key-IsKey : IsKey text_key same
unfolding text_key Hash.get
text_key-IsKey = record {
  bits = λ u. omega arith;
  agree = λ a b e. ap text_key ((same_iff a b).0 e);
}
