-- ===== src/Store/Keys/Window.antt =====
-- The index scans of internal/store/read.go over the keys that Append wrote.
use toise.Common.{
  sym, ℕ, zero, suc, ◌+◌, ◌-◌, ◌^◌, ◌<◌, ◌≡◌, refl, ap, arith, Str, ◌++◌, length, length-append,
  drop, drop-length_append,
}
use toise.Store.Keys.{encode_be, encode_u64, decode_be, seq_from_key_suffix}
use toise.Store.Keys.Order.{decode_be-encode_be}

pub length-encode_be : (k n : ℕ) → length (encode_be k n) ≡ k
unfolding encode_be
length-encode_be zero n = refl
length-encode_be (suc k) n = ap suc (length-encode_be k _)

pub drop-append : (front back : Str) (n : ℕ) → length front ≡ n → drop n (front ++ back) ≡ back
drop-append front back n h = rw (sym h) (drop-length_append front back)

-- Every key of Append gives back its sequence, whatever stands before it.
pub seq_from_key_suffix_lem :
    (front : Str) (seq : ℕ) → seq < 2 ^ 64 → seq_from_key_suffix (front ++ encode_u64 seq) ≡ seq
unfolding seq_from_key_suffix encode_u64
seq_from_key_suffix_lem front seq h =
    let n = length (front ++ encode_be 8 seq) in
    let size : n ≡ length front + 8 =
      omega (arith, length-append front (encode_be 8 seq), length-encode_be 8 seq) in
    let tail = drop-append front (encode_be 8 seq) (n - 8) (omega (arith, size)) in
    ground (arith, size, tail, ap (decode_be 0) tail, decode_be-encode_be 8 seq 0)
