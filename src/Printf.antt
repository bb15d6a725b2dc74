-- ===== src/Printf.antt =====
-- kernel/printf.c: formatted output, as the list of the characters that go to the console and to the serial
-- port. A format and a string are their bytes without the zero at the end. Where the code reads past the
-- arguments or past the format, which is undefined, the result is `none`.
pub mod Digits
mod Tests
use neptune_os.Common.{
  ltb, leb, ◌==◌, if◌then◌else◌, sub64, ℕ, zero, suc, ◌+◌, ◌-◌, ◌/◌, ◌%◌, ◌^◌, Bool, false, ◌||◌,
  Option, none, some, List, [], ◌∷◌, ◌++◌,
}

-- `digits[d]`.
unfoldable pub digit : Bool → ℕ → ℕ
digit uppercase d = if ltb d 10 then 48 + d else (if uppercase then 55 + d else 87 + d)

-- The loop of `format_uint`, with `room` bytes left in the buffer: the digits, the lowest first.
unfoldable pub format_loop : Bool → ℕ → ℕ → ℕ → List ℕ
unfolding digit
format_loop uppercase base zero value = []
format_loop uppercase base (suc room) value =
    let rest = format_loop uppercase base room (value / base) in
    if value == 0 then [] else digit uppercase (value % base) ∷ rest

unfoldable pub format_uint : ℕ → ℕ → Bool → ℕ → List ℕ
unfolding format_loop
format_uint value base uppercase buf_size =
    if buf_size == 0
    then []
    else (if value == 0 then 48 ∷ [] else format_loop uppercase base buf_size value)

-- The loop that puts out the digits from the last one down.
unfoldable pub put_back : List ℕ → List ℕ
put_back [] = []
put_back (c ∷ cs) = put_back cs ++ c ∷ []

unfoldable pub put_uint_printed : ℕ → ℕ → Bool → ℕ → List ℕ
unfolding format_uint put_back
put_uint_printed value base uppercase buf_size =
    put_back (format_uint value base uppercase buf_size)

-- `value` is the pattern of a 64-bit integer.
unfoldable pub put_int : ℕ → ℕ → List ℕ
unfolding put_uint_printed
put_int value buf_size =
    if leb (2 ^ 63) value
    then 45 ∷ put_uint_printed (sub64 0 value) 10 false buf_size
    else put_uint_printed value 10 false buf_size

-- The arguments, each of the type that its letter reads; an `int` is a pattern of 32 bits.
pub data Arg : Type 0 where
  string : Option (List ℕ) → Arg
  char : ℕ → Arg
  int : ℕ → Arg
  unsigned : ℕ → Arg
  pointer : ℕ → Arg

unfoldable pub extend : ℕ → ℕ
extend val = if leb (2 ^ 31) val then val + (2 ^ 64 - 2 ^ 32) else val

-- A zero puts nothing out.
unfoldable pub put_char : ℕ → List ℕ
put_char c = if c == 0 then [] else c ∷ []

-- What the letter `spec` puts out, and the arguments behind the one that it reads.
unfoldable pub put_spec : ℕ → List Arg → Option (List ℕ × List Arg)
unfolding put_int put_uint_printed extend put_char
put_spec spec args =
    if spec == 37
    then some (37 ∷ [], args)
    else (if spec == 115
        then (elim args [
          | string (some s) ∷ rest ↦ some (s, rest)
          | string none ∷ rest ↦ some (40 ∷ 110 ∷ 117 ∷ 108 ∷ 108 ∷ 41 ∷ [], rest)
          | _ ↦ none
        ])
        else (if spec == 99
            then (elim args [ char c ∷ rest ↦ some (put_char (c % 256), rest) | _ ↦ none ])
            else (if spec == 100 || spec == 105
                then (elim args [
                  | int val ∷ rest ↦ some (put_int (extend val) 64, rest)
                  | _ ↦ none
                ])
                else (if spec == 117
                    then (elim args [
                      | unsigned val ∷ rest ↦ some (put_uint_printed val 10 false 64, rest)
                      | _ ↦ none
                    ])
                    else (if spec == 120 || spec == 88
                        then (elim args [
                          | unsigned val ∷ rest ↦
                              some (put_uint_printed val 16 (spec == 88) 64, rest)
                          | _ ↦ none
                        ])
                        else (if spec == 112
                            then (elim args [
                              | pointer val ∷ rest ↦
                                  some (48 ∷ 120 ∷ put_uint_printed val 16 false 64, rest)
                              | _ ↦ none
                            ])
                            else some (37 ∷ spec ∷ [], args)))))))

unfoldable pub kvprintf : List ℕ → List Arg → Option (List ℕ)
unfolding put_spec
kvprintf [] args = some []
kvprintf (c ∷ []) args = if c == 37 then none else some (c ∷ [])
kvprintf (c ∷ spec ∷ fmt) args =
    if c == 37
    then (elim (put_spec spec args) [
      | none ↦ none
      | some (out, rest) ↦ elim (kvprintf fmt rest) [ none ↦ none | some more ↦ some (out ++ more) ]
    ])
    else (elim (kvprintf (spec ∷ fmt) args) [ none ↦ none | some more ↦ some (c ∷ more) ])
