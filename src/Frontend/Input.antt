-- ===== src/Frontend/Input.antt =====
-- The lines of a client.
use mathlib.Core.List.{append_assoc, append-nil}
use garmx.Prelude.{
  ℕ, zero, suc, ◌+◌, ◌<◌, ◌≡◌, ◌≢◌, refl, sym, ap, ◌∙◌, subst, true, false, none, some, List, [],
  ◌∷◌, ◌++◌, length, length-append, is_nil, All, if◌then◌else◌, arith, inl, inr,
}
use garmx.Prelude.Bytes.{Bytes}
use garmx.Mcp.Frame.{
  newline, carriage_return, last_is, max_line_bytes, ReadError, ended, exceeds, read_message, Sink,
  write_message,
}
use garmx.Mcp.Frame.Lines.{
  without_return, TooLong, first_line-length, read_message_lem, first_line-append,
}
use garmx.Frontend.{reader_size, read_from, read_lines}

-- A message that one line can hold: no newline in it, no carriage return at its end, and short enough.
abbrev pub FitsLine : Bytes → Type 0
FitsLine p =
    (p ≢ [])
    × All (λ c. c ≢ newline) p
    × (last_is carriage_return p ≡ false)
    × (length p < max_line_bytes)

-- Messages as they stand on the wire.
abbrev pub framed : List Bytes → Bytes
framed [] = []
framed (p ∷ ps) = p ++ (newline ∷ framed ps)

-- Writing several messages.
abbrev pub write_all : List Bytes → Sink → Sink
write_all [] w = w
write_all (p ∷ ps) w = write_all ps (write_message (some p) w).1

abbrev pub Takes : Sink → Type 0
Takes w = (a b : Bytes) → w.takes a b ≡ true

pub write_message-taken :
    (p : Bytes) (w : Sink)
    → Takes w
    → write_message (some p) w ≡ (true, record w { taken = w.taken ++ (p ++ (newline ∷ [])) })
unfolding write_message
write_message-taken p w takes = ground (
  arith,
  takes w.taken p,
  takes (w.taken ++ p) (newline ∷ []),
  append_assoc w.taken p (newline ∷ []),
)

pub Takes-write_message : (p : Bytes) (w : Sink) → Takes w → Takes (write_message (some p) w).1
Takes-write_message p w takes = subst (λ z. Takes z.1) (sym (write_message-taken p w takes)) takes

write_all-taken :
    (ps : List Bytes) (w : Sink) → Takes w → (write_all ps w).taken ≡ w.taken ++ framed ps
write_all-taken [] w takes = sym (append-nil w.taken)
write_all-taken (p ∷ ps) w takes =
    write_all-taken ps (write_message (some p) w).1 (Takes-write_message p w takes)
    ∙ ap (λ z. z.1.taken ++ framed ps) (write_message-taken p w takes)
    ∙ append_assoc w.taken (p ++ (newline ∷ [])) (framed ps)
    ∙ ap (λ z. w.taken ++ z) (append_assoc p (newline ∷ []) (framed ps))

read_message-framed :
    (size : ℕ) (p rest : Bytes)
    → 0 < size
    → FitsLine p
    → read_message size (p ++ (newline ∷ rest)) ≡ some (record { message = p; error = none }, rest)
read_message-framed size p rest some_room (non_empty, one_line, no_return, short) =
    let f = first_line-append p rest one_line in
    elim (read_message_lem size (p ++ (newline ∷ rest)) some_room) [
      | inl (line, after, g, h, e) ↦ ground (arith, e, f, g, no_return)
      | inr (inl (g, h, e)) ↦ ground (arith, f, g)
      | inr (inr (too_long, (rest', e))) ↦
          absurd (omega (arith, short, subst (λ q. TooLong q (p ++ (newline ∷ rest))) f too_long))
    ]

read_from-framed :
    (fuel : ℕ) (ps : List Bytes)
    → length (framed ps) < fuel
    → All FitsLine ps
    → read_from fuel (framed ps) ≡ some (ps, ended)
unfolding read_from
read_from-framed zero ps enough fit = absurd (omega (arith, enough))
read_from-framed (suc fuel) [] enough fit = elim (read_message_lem reader_size [] (omega arith)) [
  | inl (line, rest, f, h, e) ↦ ground (arith, f)
  | inr (inl (f, h, e)) ↦ ground (arith, e)
  | inr (inr (too_long, (rest, e))) ↦ absurd (omega (arith, too_long))
]
read_from-framed (suc fuel) (p ∷ ps) enough fit =
    let one = read_message-framed reader_size p (framed ps) (omega arith) fit.0 in
    let others =
      read_from-framed fuel ps (omega (arith, enough, length-append p (newline ∷ framed ps)))
        fit.1 in
    ground (arith, one, others, some_bytes p fit.0.0)
  where
    some_bytes : (p : Bytes) → p ≢ [] → is_nil p ≡ false
    some_bytes [] h = absurd (h refl)
    some_bytes (c ∷ cs) h = refl

-- Messages that a writer took, one after another, are read back as these messages, each once and
-- in order, and then comes the end of the input: if none of them is empty, or has a newline, or ends
-- with a carriage return, or is longer than a line may be with its newline.
pub read_lines-write_all :
    (ps : List Bytes) (w : Sink)
    → Takes w
    → w.taken ≡ []
    → All FitsLine ps
    → read_lines (write_all ps w).taken ≡ some (ps, ended)
unfolding read_lines
read_lines-write_all ps w takes empty fit =
    ap read_lines (write_all-taken ps w takes ∙ ap (λ z. z ++ framed ps) empty)
    ∙ read_from-framed (length (framed ps) + 1) ps (omega arith) fit

read_from-total :
    (fuel : ℕ) (input : Bytes)
    → length input < fuel
    → (r : List Bytes × ReadError) × (read_from fuel input ≡ some r)
unfolding read_from
read_from-total zero input enough = absurd (omega (arith, enough))
read_from-total (suc fuel) input enough = elim (read_message_lem reader_size input (omega arith)) [
  | inl (line, rest, f, h, e) ↦
      let (r, q) =
        read_from-total fuel rest (omega (arith, enough, first_line-length input line rest f)) in
      (
        (if is_nil (without_return line) then r.0 else without_return line ∷ r.0, r.1),
        ground (arith, e, q),
      )
  | inr (inl (f, h, e)) ↦ ((if is_nil input then [] else input ∷ [], ended), ground (arith, e))
  | inr (inr (too_long, (rest, e))) ↦ (([], exceeds), ground (arith, e))
]

-- Reading ends for every input.
pub read_lines-total : (input : Bytes) → (r : List Bytes × ReadError) × (read_lines input ≡ some r)
unfolding read_lines
read_lines-total input = read_from-total (length input + 1) input (omega arith)
