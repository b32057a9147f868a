-- ===== src/Rc4/Tests.antt =====
-- MSE_Rc4encryptor.cpp at concrete inputs, and its theorems where their hypotheses hold.
use benliud.Common.{ℕ, ◌≡◌, refl, arith, List, [], ◌∷◌}
use benliud.Rc4.{
  Rc4Encryptor, swap, count_up, mix, new, advance, output, process_byte, process, new_encryptor,
  encrypt, decrypt,
}
use benliud.Rc4.RoundTrip.{InStep, new_encryptor-InStep, decrypt-encrypt}

abbrev sender : Rc4Encryptor
sender = new_encryptor (1 ∷ 2 ∷ []) (3 ∷ [])

abbrev receiver : Rc4Encryptor
receiver = new_encryptor (3 ∷ []) (1 ∷ 2 ∷ [])

abbrev message : List ℕ
message = 104 ∷ 105 ∷ []

decrypt-encrypt_example :
    ((decrypt receiver (encrypt sender message).1).1 ≡ message)
    × InStep (encrypt sender message).0 (decrypt receiver (encrypt sender message).1).0
decrypt-encrypt_example =
    decrypt-encrypt sender receiver message (new_encryptor-InStep (1 ∷ 2 ∷ []) (3 ∷ []))
      (omega arith)

-- The published vector for the key `Key` and the text `Plain`: the first bytes are BB F3.
vector : (process (new (75 ∷ 101 ∷ 121 ∷ [])) (80 ∷ 108 ∷ [])).1 ≡ 187 ∷ 243 ∷ []
unfolding process process_byte new mix count_up swap advance output
vector = refl
