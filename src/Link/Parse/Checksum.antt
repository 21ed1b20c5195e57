-- ===== src/Link/Parse/Checksum.antt =====
-- The parser up to its checksum test, on a message of any length that fits.
use mathlib.Core.List.{append_assoc}
use diy_acura_bluetooth.Prelude.{
  ℕ, suc, ◌+◌, ◌-◌, ◌%◌, ◌≤◌, ◌<◌, ◌≡◌, refl, sym, ap, ◌∙◌, bit_xor, false, not, List, [], ◌∷◌,
  ◌++◌, arith, length, length-append, get_or, set, drop, All, get_or-append_here, set-append_here,
  ◌==◌, if◌then◌else◌,
}
use diy_acura_bluetooth.Link.Types.{RxMsg, err_id_checksum, nibble_array_size}
use diy_acura_bluetooth.Link.Parse.{
  is_bad_signal, copy_nibble, copy_loop, xor_loop, take_in, do_check_sum, do_direction, parse_body,
  parse_msg,
}

-- The exclusive or of all nibbles, and the checksum that goes behind them.
abbrev pub xor_all : ℕ → List ℕ → ℕ
xor_all acc [] = acc
xor_all acc (n ∷ ns) = xor_all (bit_xor acc n) ns

unfoldable pub checksum : List ℕ → ℕ
checksum ns = (xor_all 0 ns + 1) % 16

pub checksum-lt : (ns : List ℕ) → checksum ns < 16
unfolding checksum
checksum-lt ns = omega arith

abbrev pub IsGood : ℕ → Type 0
IsGood n = is_bad_signal n ≡ false

-- A nibble, and each code of the physical layer, is no bad signal to the parser.
pub no_signal : (n : ℕ) → n ≤ 18 → IsGood n
no_signal n h = ground arith

-- The array after `ns` has been copied to its start.
abbrev pub overwritten : List ℕ → List ℕ → List ℕ
overwritten ns old = ns ++ drop (length ns) old

abbrev with_nibbles : RxMsg → List ℕ → RxMsg
with_nibbles msg nibbles = record msg { raw_nibbles = record msg.raw_nibbles { nibbles = nibbles } }

copy_good :
    (i n : ℕ) (msg : RxMsg)
    → IsGood n
    → copy_nibble i n msg ≡ with_nibbles msg (set msg.raw_nibbles.nibbles i n)
unfolding copy_nibble
copy_good i n msg g = rw g

copy_loop_lem :
    (pre ns tail old : List ℕ) (i : ℕ) (msg : RxMsg)
    → i ≡ length pre
    → All IsGood ns
    → msg.raw_nibbles.nibbles ≡ pre ++ old
    → length ns ≤ length old
    → copy_loop (length ns) i (pre ++ (ns ++ tail)) msg
      ≡ with_nibbles msg (pre ++ overwritten ns old)
unfolding copy_loop
copy_loop_lem pre [] tail old i msg e good held room = ap (with_nibbles msg) held
copy_loop_lem pre (n ∷ ns) tail [] i msg e good held room = absurd (omega arith)
copy_loop_lem pre (n ∷ ns) tail (o ∷ old) i msg e good held room =
    let seq = pre ++ n ∷ (ns ++ tail) in
    ap (λ m. copy_loop (length ns) (suc i) seq (copy_nibble i m msg))
      (get_or-append_here pre n 0 (ns ++ tail) i e)
    ∙ ap (copy_loop (length ns) (suc i) seq) (
        copy_good i n msg good.0
        ∙ ap (λ l. with_nibbles msg (set l i n)) held
        ∙ ap (with_nibbles msg) (set-append_here pre o n old i e))
    ∙ ap (λ l. copy_loop (length ns) (suc i) l (with_nibbles msg (pre ++ n ∷ old)))
        (sym (append_assoc pre (n ∷ []) (ns ++ tail)))
    ∙ copy_loop_lem (pre ++ n ∷ []) ns tail old (suc i) (with_nibbles msg (pre ++ n ∷ old))
        (omega (arith, e, length-append pre (n ∷ []))) good.1 (sym (append_assoc pre (n ∷ []) old))
        (omega arith)
    ∙ ap (with_nibbles msg) (append_assoc pre (n ∷ []) (overwritten ns old))

xor_loop_lem :
    (pre ns rest : List ℕ) (i acc : ℕ)
    → i ≡ length pre
    → xor_loop (length ns) i (pre ++ (ns ++ rest)) acc ≡ xor_all acc ns
unfolding xor_loop
xor_loop_lem pre [] rest i acc e = refl
xor_loop_lem pre (n ∷ ns) rest i acc e =
    ap (λ m. xor_loop (length ns) (suc i) (pre ++ n ∷ (ns ++ rest)) (bit_xor acc m))
      (get_or-append_here pre n 0 (ns ++ rest) i e)
    ∙ ap (λ l. xor_loop (length ns) (suc i) l (bit_xor acc n))
        (sym (append_assoc pre (n ∷ []) (ns ++ rest)))
    ∙ xor_loop_lem (pre ++ n ∷ []) ns rest (suc i) (bit_xor acc n)
        (omega (arith, e, length-append pre (n ∷ [])))

-- The structure after a message of good nibbles has been copied into it.
abbrev pub filled : RxMsg → List ℕ → RxMsg
filled out ns = record out {
  err_id = 0;
  raw_nibbles = record {
    nibbles = overwritten ns out.raw_nibbles.nibbles;
    num_nibbles = length ns;
  };
}

pub take_in_lem :
    (ns tail : List ℕ) (out : RxMsg)
    → 2 < length ns
    → length ns ≤ nibble_array_size
    → nibble_array_size ≤ length out.raw_nibbles.nibbles
    → All IsGood ns
    → take_in (ns ++ tail) (length ns) out ≡ filled out ns
unfolding take_in
take_in_lem ns tail out long fits room good =
    let copied =
      copy_loop_lem [] ns tail out.raw_nibbles.nibbles 0
        (record out {
          err_id = 0;
          raw_nibbles = record out.raw_nibbles { num_nibbles = length ns };
        })
        refl good refl (omega arith) in
    ground (arith, copied)

do_check_sum_lem :
    (ns : List ℕ) (c : ℕ) (out : RxMsg)
    → do_check_sum (filled out (ns ++ c ∷ [])) ≡ (
        if c == checksum ns
        then filled out (ns ++ c ∷ [])
        else record (filled out (ns ++ c ∷ [])) { err_id = err_id_checksum })
unfolding do_check_sum checksum
do_check_sum_lem ns c out =
    let rest = drop (length (ns ++ c ∷ [])) out.raw_nibbles.nibbles in
    let count : length (ns ++ c ∷ []) - 1 ≡ length ns = omega (arith, length-append ns (c ∷ [])) in
    let last : get_or ((ns ++ c ∷ []) ++ rest) (length ns) 0 ≡ c =
      ap (λ l. get_or l (length ns) 0) (append_assoc ns (c ∷ []) rest)
      ∙ get_or-append_here ns c 0 rest (length ns) refl in
    let sum : xor_loop (length ns) 0 ((ns ++ c ∷ []) ++ rest) 0 ≡ xor_all 0 ns =
      ap (λ l. xor_loop (length ns) 0 l 0) (append_assoc ns (c ∷ []) rest)
      ∙ xor_loop_lem [] ns (c ∷ rest) 0 0 refl in
    rw (count, last, sum) (ground arith)

-- What the parser does behind the checksum.
abbrev pub parse_rest : RxMsg → RxMsg
parse_rest msg =
    if not ((do_direction msg).err_id == 0) then do_direction msg else parse_body (do_direction msg)

-- A message of good nibbles that fits, with whatever stands behind it in the array: with the right checksum at its end it is parsed by direction
-- and type, with any other the result is a checksum error.
pub parse_msg_lem :
    (ns : List ℕ) (c : ℕ) (tail : List ℕ) (out : RxMsg)
    → 2 ≤ length ns
    → length ns < nibble_array_size
    → nibble_array_size ≤ length out.raw_nibbles.nibbles
    → All IsGood (ns ++ c ∷ [])
    → parse_msg ((ns ++ c ∷ []) ++ tail) (length (ns ++ c ∷ [])) out ≡ (
        if c == checksum ns
        then parse_rest (filled out (ns ++ c ∷ []))
        else record (filled out (ns ++ c ∷ [])) { err_id = err_id_checksum })
unfolding parse_msg
parse_msg_lem ns c tail out long fits room good =
    let m = ns ++ c ∷ [] in
    let count = length-append ns (c ∷ []) in
    rw
      (
        take_in_lem m tail out (omega (arith, count)) (omega (arith, count)) room good,
        do_check_sum_lem ns c out,
      )
      (ground arith)
