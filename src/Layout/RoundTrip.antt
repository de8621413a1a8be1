-- ===== src/Layout/RoundTrip.antt =====
-- What is stored is what is read back, struct by struct.
use blockdevlogger.Base.{
  ℕ, zero, suc, ◌+◌, ◌<◌, ◌^◌, ◌≡◌, refl, ◌∙◌, ap, List, [], ◌∷◌, ◌++◌, take, drop, length,
  length-append, take-append, le_bytes, le_value, le_value-le_bytes, field_at, put_field, arith,
}
use blockdevlogger.Crc32.Reference.{IsBytes}
use blockdevlogger.Device.{field_at-lt, append-IsBytes}
use blockdevlogger.Layout.{
  Header, encode_header_fields, BlockHeader, HintBlock, FitsHeader, FitsBlockHeader, FitsHintBlock,
  encode_header, decode_header, encode_block_header, decode_block_header, encode_hint_block,
  decode_hint_block,
}

-- A hint block whose fields fit their types is read back from its bytes with every field.
pub decode-encode_hint_block :
    (h : HintBlock) → FitsHintBlock h → decode_hint_block (encode_hint_block h) ≡ h
unfolding encode_hint_block decode_hint_block
decode-encode_hint_block h v = λ i. record {
  previous_block_pos = le_value-le_bytes 8 h.previous_block_pos v.previous i;
  previous_tagged_block_pos = le_value-le_bytes 8 h.previous_tagged_block_pos v.tagged i;
  pad = le_value-le_bytes 4 h.pad v.pad i;
  hash = le_value-le_bytes 4 h.hash v.hash i;
}

-- A block header whose fields fit their types is read back from its bytes, with any bytes behind them, with every field.
pub decode-encode_block_header :
    (b : BlockHeader) (rest : List ℕ)
    → FitsBlockHeader b
    → decode_block_header (encode_block_header b ++ rest) ≡ b
unfolding encode_block_header decode_block_header
decode-encode_block_header b rest v = λ i. record {
  timestamp = le_value-le_bytes 8 b.timestamp v.timestamp i;
  application_data = le_value-le_bytes 8 b.application_data v.application_data i;
  data_length = le_value-le_bytes 8 b.data_length v.data_length i;
  pad = le_value-le_bytes 4 b.pad v.pad i;
  hash = le_value-le_bytes 4 b.hash v.hash i;
}

pub length-encode_hint_block : (h : HintBlock) → length (encode_hint_block h) ≡ 24
unfolding encode_hint_block
length-encode_hint_block h = refl

pub length-encode_block_header : (b : BlockHeader) → length (encode_block_header b) ≡ 32
unfolding encode_block_header
length-encode_block_header b = refl

-- Zeroing the hash in the bytes of a block is zeroing it in its header.
pub put_field-encode_block_header :
    (b : BlockHeader) (rest : List ℕ) (x : ℕ)
    → put_field 28 4 x (encode_block_header b ++ rest)
      ≡ encode_block_header (record b { hash = x }) ++ rest
unfolding encode_block_header put_field
put_field-encode_block_header b rest x = refl

pub length-encode_header : (h : Header) → FitsHeader h → length (encode_header h) ≡ 64
unfolding encode_header
length-encode_header h v = rw length-append (rw v.message refl)

drop_past : (xs ys : List ℕ) (m k : ℕ) → length xs ≡ m → drop (m + k) (xs ++ ys) ≡ drop k ys
drop_past [] ys zero k e = ap (λ n. drop n ys) (omega arith)
drop_past [] ys (suc m) k e = absurd (omega arith)
drop_past (x ∷ xs) ys zero k e = absurd (omega arith)
drop_past (x ∷ xs) ys (suc m) k e =
    ap (λ n. drop n (x ∷ (xs ++ ys))) (let c : suc m + k ≡ suc (m + k) = omega arith in c)
    ∙ drop_past xs ys m k (omega arith)

-- A field behind the message stands at its offset among the other fields.
past_message :
    (k n : ℕ) (h : Header)
    → length h.header_begin_message ≡ 32
    → field_at (32 + k) n (encode_header h) ≡ field_at k n (encode_header_fields h)
unfolding encode_header
past_message k n h e =
    ap (λ bs. le_value (take n bs))
      (drop_past h.header_begin_message (encode_header_fields h) 32 k e)

-- A master header whose fields fit their types is read back from its bytes with every field.
pub decode-encode_header : (h : Header) → FitsHeader h → decode_header (encode_header h) ≡ h
unfolding decode_header
decode-encode_header h v = λ i. record {
  header_begin_message = message i;
  blocksystem_version = behind 0 2 h.blocksystem_version v.version refl i;
  pad_character = behind 2 1 h.pad_character v.pad_character refl i;
  default_hash_algorithm = behind 3 1 h.default_hash_algorithm v.algorithm refl i;
  gap = behind 4 4 h.gap v.gap refl i;
  block_size = behind 8 8 h.block_size v.block_size refl i;
  total_size = behind 16 8 h.total_size v.total_size refl i;
  header_size = behind 24 4 h.header_size v.header_size refl i;
  hash = behind 28 4 h.hash v.hash refl i;
}
  where
    message : take 32 (encode_header h) ≡ h.header_begin_message
    message =
        unfold encode_header in
        take-append h.header_begin_message (encode_header_fields h) 32 v.message

    behind :
        (k n x : ℕ)
        → x < 256 ^ n
        → take n (drop k (encode_header_fields h)) ≡ le_bytes n x
        → field_at (32 + k) n (encode_header h) ≡ x
    behind k n x small e =
        past_message k n h v.message ∙ ap le_value e ∙ le_value-le_bytes n x small

-- What is stored are bytes, and what is decoded from bytes fits the fields.
encode_header_fields-IsBytes : (h : Header) → IsBytes (encode_header_fields h)
encode_header_fields-IsBytes h = omega arith

pub encode_header-IsBytes :
    (h : Header) → IsBytes h.header_begin_message → IsBytes (encode_header h)
unfolding encode_header
encode_header-IsBytes h v =
    append-IsBytes h.header_begin_message (encode_header_fields h) v
      (encode_header_fields-IsBytes h)

pub encode_hint_block-IsBytes : (h : HintBlock) → IsBytes (encode_hint_block h)
unfolding encode_hint_block
encode_hint_block-IsBytes h = omega arith

pub encode_block_header-IsBytes : (b : BlockHeader) → IsBytes (encode_block_header b)
unfolding encode_block_header
encode_block_header-IsBytes b = omega arith

pub decode_hint_block-Fits : (bs : List ℕ) → IsBytes bs → FitsHintBlock (decode_hint_block bs)
unfolding decode_hint_block
decode_hint_block-Fits bs v = record {
  previous = field_at-lt 0 8 bs v;
  tagged = field_at-lt 8 8 bs v;
  pad = field_at-lt 16 4 bs v;
  hash = field_at-lt 20 4 bs v;
}

pub decode_block_header-Fits : (bs : List ℕ) → IsBytes bs → FitsBlockHeader (decode_block_header bs)
unfolding decode_block_header
decode_block_header-Fits bs v = record {
  timestamp = field_at-lt 0 8 bs v;
  application_data = field_at-lt 8 8 bs v;
  data_length = field_at-lt 16 8 bs v;
  pad = field_at-lt 24 4 bs v;
  hash = field_at-lt 28 4 bs v;
}
