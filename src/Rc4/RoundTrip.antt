-- ===== src/Rc4/RoundTrip.antt =====
-- Two `RC4Encryptor`s of MSE_Rc4encryptor.cpp with exchanged keys understand each other.
use benliud.Common.{ℕ, suc, ◌<◌, ◌≡◌, refl, ap, ap₂, sym, ◌∙◌, arith, List, [], ◌∷◌, length, All}
use benliud.Common.Bytes.{xor_row}
use benliud.Rc4.{
  Rc4, Rc4Encryptor, new, advance, output, process_byte, process, new_encryptor, encrypt, decrypt,
}
use benliud.Rc4.State.{
  IsValid, new-IsValid, skip-IsValid, advance-IsValid, output-lt, process-IsValid,
}

-- The cipher's state after a message does not depend on the bytes.
process-state :
    (c : Rc4) (xs ys : List ℕ) → length xs ≡ length ys → (process c xs).0 ≡ (process c ys).0
unfolding process process_byte
process-state c [] [] h = refl
process-state c [] (y ∷ ys) h = absurd (omega arith)
process-state c (x ∷ xs) [] h = absurd (omega arith)
process-state c (x ∷ xs) (y ∷ ys) h = process-state (advance c) xs ys (omega arith)

length-process : (c : Rc4) (xs : List ℕ) → length (process c xs).1 ≡ length xs
unfolding process process_byte
length-process c [] = refl
length-process c (x ∷ xs) = ap suc (length-process (advance c) xs)

-- Processing twice from one state gives the bytes back.
process_twice :
    (c : Rc4) (bs : List ℕ)
    → IsValid c
    → All (λ b. b < 256) bs
    → (process c (process c bs).1).1 ≡ bs
unfolding process process_byte
process_twice c [] v h = refl
process_twice c (b ∷ bs) v h =
    ap₂ ◌∷◌ (xor_row (output (advance c)) b (output-lt (advance c) (advance-IsValid c v)) h.0).0
      (process_twice (advance c) bs (advance-IsValid c v) h.1)

-- The sender's cipher and the receiver's stand at the same place of the same key stream.
pub record InStep (sender receiver : Rc4Encryptor) : Type 0 where
  pub state : sender.enc ≡ receiver.dec
  pub valid : IsValid sender.enc

-- Encryptors made with exchanged keys are in step.
pub new_encryptor-InStep : (dk ek : List ℕ) → InStep (new_encryptor dk ek) (new_encryptor ek dk)
unfolding new_encryptor
new_encryptor-InStep dk ek = record {
  state = refl;
  valid = skip-IsValid 1024 (new ek) (new-IsValid ek);
}

-- Between encryptors in step each message of bytes is read as it was sent, and they stay in step
-- for the next one.
pub decrypt-encrypt :
    (sender receiver : Rc4Encryptor) (message : List ℕ)
    → InStep sender receiver
    → All (λ b. b < 256) message
    → let (sender', sent) = encrypt sender message in
      let (receiver', read) = decrypt receiver sent in (read ≡ message) × InStep sender' receiver'
unfolding encrypt decrypt
decrypt-encrypt sender receiver message p h = (
  ap (λ c. (process c sent).1) (sym p.state) ∙ process_twice sender.enc message p.valid h,
  record {
    state =
        process-state sender.enc message sent (sym (length-process sender.enc message))
        ∙ ap (λ c. (process c sent).0) p.state;
    valid = process-IsValid sender.enc message p.valid;
  },
)
  where
    sent : List ℕ
    sent = (process sender.enc message).1
