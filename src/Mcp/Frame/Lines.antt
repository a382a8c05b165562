-- ===== src/Mcp/Frame/Lines.antt =====
-- Messages are lines, whatever the size of the buffer.
use mathlib.Core.List.{append_assoc}
use garmx.Prelude.{
  ℕ, zero, suc, ◌+◌, ◌≤◌, ◌<◌, ◌≡◌, refl, sym, ap, ◌∙◌, subst, true, false, ◌==◌, ltb, Option, none,
  some, [], ◌∷◌, ◌++◌, take, length, length-append, take-length-append, All, ◌≢◌, if◌then◌else◌,
  arith, ◌⊎◌, inl, inr, Bool-cases, Option-cases,
}
use garmx.Prelude.Bytes.{Bytes}
use garmx.Mcp.Frame.{
  max_line_bytes, newline, carriage_return, delimiter, buffer_full, input_ended, read_slice,
  last_is, all_but_last, trim_newline, Read, exceeds, ended, read_on, read_message,
}

abbrev onto : Bytes → Option (Bytes × Bytes) → Option (Bytes × Bytes)
onto chunk none = none
onto chunk (some (line, rest)) = some (chunk ++ line, rest)

-- The first line of an input, without its newline, and what follows it.
abbrev pub first_line : Bytes → Option (Bytes × Bytes)
first_line [] = none
first_line (c ∷ cs) = if c == newline then some ([], cs) else onto (c ∷ []) (first_line cs)

-- A line without a carriage return at its end.
abbrev pub without_return : Bytes → Bytes
without_return line = if last_is carriage_return line then all_but_last line else line

onto-onto :
    (c : ℕ) (chunk : Bytes) (o : Option (Bytes × Bytes))
    → onto (c ∷ []) (onto chunk o) ≡ onto (c ∷ chunk) o
onto-onto c chunk none = refl
onto-onto c chunk (some l) = refl

onto-nil : (o : Option (Bytes × Bytes)) → onto [] o ≡ o
onto-nil none = refl
onto-nil (some l) = refl

-- The slice ends the first line, or it is all that there is, or it fills the buffer.
abbrev Sliced : ℕ → Bytes → Type 0
Sliced room input =
    ((line : Bytes) × (rest : Bytes) × (read_slice room input
        ≡ (line ++ (newline ∷ []), delimiter, rest))
      × (first_line input ≡ some (line, rest)))
    ⊎ (((read_slice room input ≡ (input, input_ended, [])) × (first_line input ≡ none))
        ⊎ ((chunk : Bytes) × (rest : Bytes) × (read_slice room input ≡ (chunk, buffer_full, rest))
            × (length chunk ≡ room)
            × (input ≡ chunk ++ rest)
            × (first_line input ≡ onto chunk (first_line rest))))

read_slice_lem : (room : ℕ) (input : Bytes) → Sliced room input
unfolding read_slice
read_slice_lem zero input =
    inr (inr ([], input, refl, refl, refl, sym (onto-nil (first_line input))))
read_slice_lem (suc room) [] = inr (inl (refl, refl))
read_slice_lem (suc room) (c ∷ cs) = elim (Bool-cases (c == newline)) [
  | inl n ↦ inl ([], cs, ground (arith, n), ground (arith, n))
  | inr o ↦ elim (read_slice_lem room cs) [
    | inl (line, rest, e, f) ↦ inl (c ∷ line, rest, ground (arith, o, e), ground (arith, o, f))
    | inr (inl (e, f)) ↦ inr (inl (ground (arith, o, e), ground (arith, o, f)))
    | inr (inr (chunk, rest, e, l, i, f)) ↦ inr (
        inr (
          c ∷ chunk,
          rest,
          ground (arith, o, e),
          ap suc l,
          ap (◌∷◌ c) i,
          ground (arith, o, f, onto-onto c chunk (first_line rest)),
        ))
  ]
]

-- What is to come of an input, with `buf` read already.
abbrev Verdict : Bytes → Bytes → Option (Bytes × Bytes) → Option (Read × Bytes) → Type 0
Verdict buf input (some (line, rest)) o =
    (length buf + length line < max_line_bytes
      → o
        ≡ some (
          record { message = trim_newline (buf ++ (line ++ (newline ∷ []))); error = none },
          rest,
        ))
    × (max_line_bytes ≤ length buf + length line
        → (r : Bytes) × (o ≡ some (record { message = []; error = some exceeds }, r)))
Verdict buf input none o =
    (length buf + length input ≤ max_line_bytes
      → o ≡ some (record { message = trim_newline (buf ++ input); error = some ended }, []))
    × (max_line_bytes < length buf + length input
        → (r : Bytes) × (o ≡ some (record { message = []; error = some exceeds }, r)))

Verdict-later :
    (buf chunk rest : Bytes) (p : Option (Bytes × Bytes)) (o : Option (Read × Bytes))
    → Verdict (buf ++ chunk) rest p o
    → Verdict buf (chunk ++ rest) (onto chunk p) o
Verdict-later buf chunk rest (some (line, after)) o (fits, big) = (
  λ h.
      fits (omega (arith, h, length-append buf chunk, length-append chunk line))
      ∙ ap (λ m. some (record { message = trim_newline m; error = none }, after))
          (append_assoc buf chunk (line ++ (newline ∷ []))
            ∙ ap (λ m. buf ++ m) (sym (append_assoc chunk line (newline ∷ [])))),
  λ h. big (omega (arith, h, length-append buf chunk, length-append chunk line)),
)
Verdict-later buf chunk rest none o (fits, big) = (
  λ h.
      fits (omega (arith, h, length-append buf chunk, length-append chunk rest))
      ∙ ap (λ m. some (record { message = trim_newline m; error = some ended }, []))
          (append_assoc buf chunk rest),
  λ h. big (omega (arith, h, length-append buf chunk, length-append chunk rest)),
)

Verdict-over :
    (buf chunk rest : Bytes) (p : Option (Bytes × Bytes)) (r : Bytes)
    → max_line_bytes < length buf + length chunk
    → Verdict buf
        (chunk ++ rest)
        (onto chunk p)
        (some (record { message = []; error = some exceeds }, r))
Verdict-over buf chunk rest (some (line, after)) r over =
    ((λ h. absurd (omega (arith, h, over, length-append chunk line))), λ h. (r, refl))
Verdict-over buf chunk rest none r over =
    ((λ h. absurd (omega (arith, h, over, length-append chunk rest))), λ h. (r, refl))

length-line : (line : Bytes) → length (line ++ (newline ∷ [])) ≡ length line + 1
length-line line = length-append line (newline ∷ [])

read_on_lem :
    (size fuel : ℕ) (buf input : Bytes)
    → 0 < size
    → length input < fuel
    → Verdict buf input (first_line input) (read_on size fuel buf input)
unfolding read_on
read_on_lem size zero buf input some_room enough = absurd (omega (arith, enough))
read_on_lem size (suc fuel) buf input some_room enough = elim (read_slice_lem size input) [
  | inl (line, rest, e, f) ↦
      subst (λ p. Verdict buf input p (read_on size (suc fuel) buf input)) (sym f)
        (
          (λ h. ground (arith, e, h, length-line line)),
          λ h. (rest, ground (arith, e, h, length-line line)),
        )
  | inr (inl (e, f)) ↦
      subst (λ p. Verdict buf input p (read_on size (suc fuel) buf input)) (sym f)
        ((λ h. ground (arith, e, h)), λ h. ([], ground (arith, e, h)))
  | inr (inr (chunk, rest, e, l, i, f)) ↦
      let q : length input ≡ length chunk + length rest = ap length i ∙ length-append chunk rest in
      let next =
        read_on_lem size fuel (buf ++ chunk) rest some_room
          (omega (arith, enough, some_room, l, q)) in
      subst (λ p. Verdict buf input p (read_on size (suc fuel) buf input)) (sym f)
        (subst
          (λ z. Verdict buf z (onto chunk (first_line rest)) (read_on size (suc fuel) buf input))
          (sym i)
          (elim (Bool-cases (ltb max_line_bytes (length buf + length chunk))) [
            | inl over ↦
                subst (Verdict buf (chunk ++ rest) (onto chunk (first_line rest)))
                  (sym (ground (arith, e, over)))
                  (Verdict-over buf chunk rest (first_line rest) rest (ground (arith, over)))
            | inr fits ↦
                subst (Verdict buf (chunk ++ rest) (onto chunk (first_line rest)))
                  (sym (ground (arith, e, fits)))
                  (Verdict-later buf chunk rest (first_line rest)
                    (read_on size fuel (buf ++ chunk) rest) next)
          ]))
]

last_is-concat : (c y : ℕ) (xs : Bytes) → last_is c (xs ++ (y ∷ [])) ≡ (y == c)
unfolding last_is
last_is-concat c y [] = refl
last_is-concat c y (x ∷ []) = refl
last_is-concat c y (x ∷ z ∷ zs) = last_is-concat c y (z ∷ zs)

all_but_last-concat : (y : ℕ) (xs : Bytes) → all_but_last (xs ++ (y ∷ [])) ≡ xs
all_but_last-concat y xs =
    ap (λ n. take n (xs ++ (y ∷ []))) (omega (arith, length-append xs (y ∷ [])))
    ∙ take-length-append xs (y ∷ [])

trim_newline-concat : (line : Bytes) → trim_newline (line ++ (newline ∷ [])) ≡ without_return line
unfolding trim_newline
trim_newline-concat line =
    let shorter = all_but_last-concat newline line in
    ground (
      arith,
      last_is-concat newline newline line,
      ap (λ z. if last_is carriage_return z then all_but_last z else z) shorter,
    )

last_is-no_line : (input : Bytes) → first_line input ≡ none → last_is newline input ≡ false
unfolding last_is
last_is-no_line [] h = refl
last_is-no_line (c ∷ []) h = elim (Bool-cases (c == newline)) [
  | inl n ↦ ground (arith, n)
  | inr o ↦ o
]
last_is-no_line (c ∷ d ∷ ds) h =
    last_is-no_line (d ∷ ds) (tail_none (first_line (d ∷ ds)) (Bool-cases (c == newline)) h)
  where
    tail_none :
        (o : Option (Bytes × Bytes))
        → ((c == newline) ≡ true) ⊎ ((c == newline) ≡ false)
        → (if c == newline then some ([], d ∷ ds) else onto (c ∷ []) o) ≡ none
        → o ≡ none
    tail_none none b h = refl
    tail_none (some l) b h = ground arith

-- More than a message may have: the first line, or an input that has no newline.
abbrev pub TooLong : Option (Bytes × Bytes) → Bytes → Type 0
TooLong (some (line, rest)) input = max_line_bytes ≤ length line
TooLong none input = max_line_bytes < length input

-- Reading ends, and what it gives does not depend on the buffer's size if that is not 0: the first
-- line without its line ending, and then what follows is left; or, if there is no newline, all of the
-- input with the error that ended it; or an error and no message, exactly if it is too long.
pub read_message_lem :
    (size : ℕ) (input : Bytes)
    → 0 < size
    → ((line : Bytes) × (rest : Bytes) × (first_line input ≡ some (line, rest))
        × (length line < max_line_bytes)
        × (read_message size input
            ≡ some (record { message = without_return line; error = none }, rest)))
      ⊎ (((first_line input ≡ none)
            × (length input ≤ max_line_bytes)
            × (read_message size input ≡ some (record { message = input; error = some ended }, [])))
          ⊎ (TooLong (first_line input) input
              × ((rest : Bytes) × (read_message size input
                    ≡ some (record { message = []; error = some exceeds }, rest)))))
unfolding read_message trim_newline
read_message_lem size input some_room =
    let verdict = read_on_lem size (length input + 1) [] input some_room (omega arith) in
    elim (Option-cases (first_line input)) [
      | inr ((line, rest), f) ↦
          let (fits, big) = subst (λ p. Verdict [] input p (read_message size input)) f verdict in
          elim (Bool-cases (ltb (length line) max_line_bytes)) [
            | inl h ↦ inl (
              line,
              rest,
              f,
              ground arith,
              fits (ground arith)
                  ∙ ap (λ m. some (record { message = m; error = none }, rest))
                      (trim_newline-concat line),
            )
            | inr h ↦
                inr (inr (subst (λ p. TooLong p input) (sym f) (ground arith), big (ground arith)))
          ]
      | inl f ↦
          let (fits, big) = subst (λ p. Verdict [] input p (read_message size input)) f verdict in
          elim (Bool-cases (ltb max_line_bytes (length input))) [
            | inr h ↦ inr (
                inl (
                  f,
                  ground arith,
                  fits (ground arith)
                      ∙ ap (λ m. some (record { message = m; error = some ended }, []))
                          (ground (arith, last_is-no_line input f)),
                ))
            | inl h ↦
                inr (inr (subst (λ p. TooLong p input) (sym f) (ground arith), big (ground arith)))
          ]
    ]

pub first_line-append :
    (payload rest : Bytes)
    → All (λ c. c ≢ newline) payload
    → first_line (payload ++ (newline ∷ rest)) ≡ some (payload, rest)
first_line-append [] rest h = refl
first_line-append (c ∷ cs) rest h = elim (Bool-cases (c == newline)) [
  | inl e ↦ absurd (h.0 (ground arith))
  | inr o ↦ ground (arith, o, first_line-append cs rest h.1)
]

pub first_line-length :
    (input line rest : Bytes) → first_line input ≡ some (line, rest) → length rest < length input
first_line-length [] line rest h = ground arith
first_line-length (c ∷ cs) line rest h = elim (Bool-cases (c == newline)) [
  | inl e ↦ ground arith
  | inr o ↦ elim (Option-cases (first_line cs)) [
    | inl f ↦ ground arith
    | inr ((l, r), f) ↦ let lower = first_line-length cs l r f in ground arith
  ]
]
