-- ===== src/Printf/Tests.antt =====
-- Formats of kernel/printf.c at concrete arguments.
use neptune_os.Common.{length, ◌-◌, ◌^◌, ◌≤◌, ◌≡◌, refl, inr, true, some, [], ◌∷◌, arith}
use neptune_os.Printf.{int, unsigned, kvprintf, put_uint_printed, format_uint}
use neptune_os.Printf.Digits.{read_digits, put_uint_printed-value}

-- "a%d" of -7 and "%x" of 48879.
minus_test : kvprintf (97 ∷ 37 ∷ 100 ∷ []) (int (2 ^ 32 - 7) ∷ []) ≡ some (97 ∷ 45 ∷ 55 ∷ [])
unfolding kvprintf
minus_test = refl

hex_test : kvprintf (37 ∷ 120 ∷ []) (unsigned 48879 ∷ []) ≡ some (98 ∷ 101 ∷ 101 ∷ 102 ∷ [])
unfolding kvprintf
hex_test = refl

put_uint_printed-value_example :
    (read_digits 16 0 (put_uint_printed 48879 16 true 64) ≡ 48879)
    × (length (format_uint 48879 16 true 64) ≤ 64)
put_uint_printed-value_example = put_uint_printed-value 48879 16 true (inr refl) (omega arith)
