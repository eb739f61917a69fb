-- ===== src/Frame/Sending.antt =====
-- SendFrame: what is on the wire when it returns.
use rest_api_gateway.Prelude.{
  ℕ, ◌+◌, ◌-◌, ◌≤◌, ◌<◌, ◌≡◌, subst, refl, ◌↔◌, inl, inr, Bool-cases, true, Bytes, List, [], ◌∷◌,
  length, arith, take, drop, ◌++◌, ap, sym, ◌∙◌, zero, suc, some, ltb, ◌==◌,
}
use rest_api_gateway.Frame.{
  Write, wrote, write_again, write_failed, Sent, sending, sent, send_loop, Frame, send_frame,
}
use rest_api_gateway.Frame.RoundTrip.{wire, IsWire, serialize_frame-wire}

-- What write(2) promises: with `left` bytes offered, it takes at most those.
abbrev pub Honest : List Write → ℕ → Type 0
Honest [] left = Unit {0}
Honest (wrote n ∷ calls) left = (n ≤ left) × Honest calls (left - n)
Honest (_ ∷ calls) left = Honest calls left

-- What is on the wire is a prefix of the bytes, and SendFrame returns true only when it is all.
abbrev pub Delivers : Bytes → Sent → Type 0
Delivers bytes (sending out) = (n : ℕ) × (n < length bytes) × (out ≡ take n bytes)
Delivers bytes (sent out done) =
    (n : ℕ) × (n ≤ length bytes) × (out ≡ take n bytes) × ((done ≡ true) ↔ (n ≡ length bytes))

stop-Delivers :
    (bytes out : Bytes) (total : ℕ)
    → total ≤ length bytes
    → out ≡ take total bytes
    → Delivers bytes (sent out (total == length bytes))
stop-Delivers bytes out total h o = (total, h, o, (λ e. ground arith, λ e. ground arith))

take-nil : (n : ℕ) → ◌≡◌ {A = Bytes} (take n []) []
take-nil zero = refl
take-nil (suc n) = refl

-- What a write takes from the offset continues the prefix.
take-more :
    (total n : ℕ) (bytes : Bytes)
    → take total bytes ++ take n (drop total bytes) ≡ take (total + n) bytes
take-more zero n bytes = ap (λ m. take m bytes) (omega arith)
take-more (suc total) zero [] = sym (take-nil (suc total + 0))
take-more (suc total) (suc n) [] = sym (take-nil (suc total + suc n))
take-more (suc total) n (b ∷ bytes) =
    let same : suc (total + n) ≡ suc total + n = omega arith in
    ap (◌∷◌ b) (take-more total n bytes) ∙ ap (λ m. take m (b ∷ bytes)) same

pub send_loop-Delivers :
    (calls : List Write) (bytes : Bytes) (total : ℕ) (out : Bytes)
    → total ≤ length bytes
    → out ≡ take total bytes
    → Honest calls (length bytes - total)
    → Delivers bytes (send_loop calls bytes total out)
unfolding send_loop
send_loop-Delivers [] bytes total out h o k = elim (Bool-cases (ltb total (length bytes))) [
  | inl more ↦ rw more (total, ground arith, o)
  | inr done ↦ rw done (stop-Delivers bytes out total h o)
]
send_loop-Delivers (wrote n ∷ calls) bytes total out h o (fits, k) =
    elim (Bool-cases (ltb total (length bytes))) [
      | inl more ↦
          let some_taken =
            send_loop-Delivers calls bytes (total + n) (out ++ take n (drop total bytes))
              (omega arith) (ap (λ w. w ++ take n (drop total bytes)) o ∙ take-more total n bytes)
              (subst (Honest calls) (omega arith) k) in
          rw more (elim (Bool-cases (ltb 0 n)) [
            | inl moved ↦ rw moved some_taken
            | inr none_taken ↦ rw none_taken (stop-Delivers bytes out total h o)
          ])
      | inr done ↦ rw done (stop-Delivers bytes out total h o)
    ]
send_loop-Delivers (write_again ∷ calls) bytes total out h o k =
    elim (Bool-cases (ltb total (length bytes))) [
      | inl more ↦ rw more (send_loop-Delivers calls bytes total out h o k)
      | inr done ↦ rw done (stop-Delivers bytes out total h o)
    ]
send_loop-Delivers (write_failed ∷ calls) bytes total out h o k = stop-Delivers bytes out total h o

-- For a well-formed frame and a socket that keeps the contract of write, what SendFrame has put
-- on the wire is a prefix of the frame's bytes, and it returns true exactly when it is all of
-- them.
pub send_frame-Delivers :
    (calls : List Write) (f : Frame)
    → IsWire f
    → Honest calls (length (wire f))
    → (s : Sent) × (send_frame calls f ≡ some s) × Delivers (wire f) s
unfolding send_frame
send_frame-Delivers calls f w k = (
  send_loop calls (wire f) 0 [],
  rw (serialize_frame-wire f w) refl,
  send_loop-Delivers calls (wire f) 0 [] (omega arith) refl (subst (Honest calls) (omega arith) k),
)
