-- ===== src/Audit/Entry/Stored.antt =====
-- What reaches the store.
use garmx.Prelude.{
  ℕ, zero, suc, ◌≤◌, ◌<◌, ◌≡◌, refl, Bool, false, ◌&&◌, [], ◌∷◌, length, take, ltb, ◌⊎◌, inl, inr,
  arith, Bool-cases, if_both, if_cases,
}
use garmx.Prelude.Bytes.{Bytes, equal, equal_iff}
use garmx.Prelude.Json.{Value, Raw, absent, malformed, json}
use garmx.Aggregator.Event.{Event}
use garmx.Audit.Redact.{redact}
use garmx.Audit.Redact.Clean.{Clean, CleanRaw, redact-Clean}
use garmx.Audit.Entry.{
  Writer, cap_string, raw_text, truncation, cap_field, cap_given, payloads, to_entry,
  payload_request_response, payload_request,
}

-- Within the size limit, if there is one.
abbrev pub Fits : Writer → Bytes → Type 0
Fits w b = (w.max_bytes ≡ 0) ⊎ (length b ≤ w.max_bytes)

-- A stored payload: none, a document without secrets that fits, or the size of one that does not.
abbrev pub Safe : Writer → Bytes → Type 0
Safe w b =
    (b ≡ [])
    ⊎ (((v : Value) × Clean w.redactor v × (b ≡ w.marshal v) × Fits w b)
        ⊎ ((n : ℕ) × (w.max_bytes < n) × (b ≡ truncation w n)))

take-length : (n : ℕ) (s : Bytes) → length (take n s) ≤ n
take-length zero s = omega arith
take-length (suc n) [] = omega arith
take-length (suc n) (b ∷ s) = omega (arith, take-length n s)

cap_string-Fits : (w : Writer) (s : Bytes) → Fits w (cap_string s w.max_bytes)
unfolding cap_string
cap_string-Fits w s = ground (arith, take-length w.max_bytes s)

raw_text-Safe :
    (w : Writer) (red : Raw)
    → CleanRaw w.redactor red
    → Fits w (raw_text w red)
    → Safe w (raw_text w red)
unfolding CleanRaw
raw_text-Safe w absent c f = inl refl
raw_text-Safe w (malformed b) c f = absurd c
raw_text-Safe w (json v) c f = inr (inl (v, c, refl, f))

cap_field-Safe : (w : Writer) (raw : Raw) → Safe w (cap_field w raw).0
unfolding cap_field
cap_field-Safe w raw =
    let red = redact w.floats w.redactor raw in
    if_cases {A = Bytes × ℕ × Bool} (λ x. Safe w x.0)
      (ltb 0 w.max_bytes && ltb w.max_bytes (length (raw_text w red)))
      (λ h. inr (inr (length (raw_text w red), ground arith, refl)))
      (λ h. raw_text-Safe w red (redact-Clean w.floats w.redactor raw) (ground arith))

cap_given-Safe : (w : Writer) (raw : Raw) → Safe w (cap_given w raw).0
unfolding cap_given
cap_given-Safe w absent = inl refl
cap_given-Safe w (malformed b) = cap_field-Safe w (malformed b)
cap_given-Safe w (json v) = cap_field-Safe w (json v)

-- Whatever the event and the mode, each stored payload is empty, or the text of a document with
-- nothing but the marker under any secret key and within the size limit, or the marker of one that
-- was larger than the limit; and the stored error message is within the limit.
pub to_entry-Safe :
    (w : Writer) (e : Event)
    → Safe w (to_entry w e).request_payload
      × Safe w (to_entry w e).response_payload
      × Fits w (to_entry w e).error_message
unfolding to_entry payloads
to_entry-Safe w e = (
  if_both {A = Bytes × Bytes × ℕ × Bool} (λ x. Safe w x.0)
      (equal w.payload payload_request_response) (cap_given-Safe w e.request_params)
      (if_both {A = Bytes × Bytes × ℕ × Bool} (λ x. Safe w x.0) (equal w.payload payload_request)
        (cap_given-Safe w e.request_params) (inl refl)),
  if_both {A = Bytes × Bytes × ℕ × Bool} (λ x. Safe w x.1)
      (equal w.payload payload_request_response) (cap_given-Safe w e.response_result)
      (if_both {A = Bytes × Bytes × ℕ × Bool} (λ x. Safe w x.1) (equal w.payload payload_request)
        (inl refl) (inl refl)),
  cap_string-Fits w e.error_message,
)

-- The mode is `request-response`; or it is `request`, and no response is stored; or nothing of the
-- payloads is stored, not even a size.
pub to_entry_modes :
    (w : Writer) (e : Event)
    → (w.payload ≡ payload_request_response)
      ⊎ (((w.payload ≡ payload_request) × ((to_entry w e).response_payload ≡ []))
          ⊎ (((to_entry w e).request_payload ≡ [])
              × ((to_entry w e).response_payload ≡ [])
              × ((to_entry w e).payload_bytes ≡ 0)
              × ((to_entry w e).truncated ≡ false)))
unfolding to_entry payloads
to_entry_modes w e = elim (Bool-cases (equal w.payload payload_request_response)) [
  | inl h ↦ inl ((equal_iff w.payload payload_request_response).0 h)
  | inr h ↦ elim (Bool-cases (equal w.payload payload_request)) [
    | inl k ↦ inr (inl ((equal_iff w.payload payload_request).0 k, ground arith))
    | inr k ↦ inr (inr (ground arith, ground arith, ground arith, ground arith))
  ]
]
