-- ===== src/Dht/Key/Tests.antt =====
-- BTDHTKey.cpp at concrete inputs.
use benliud.Common.{◌≡◌, refl, true, false, [], ◌∷◌}
use benliud.Dht.Key.{eq, lt, minus, random}

random_three : random (300 ∷ 255 ∷ 7 ∷ []) ≡ 45 ∷ 0 ∷ 7 ∷ []
unfolding random
random_three = refl

distances :
    (minus (5 ∷ 1 ∷ []) (3 ∷ 1 ∷ []) ≡ 6 ∷ 0 ∷ [])
    × (lt (5 ∷ 1 ∷ []) (5 ∷ 2 ∷ []) ≡ true)
    × (eq (5 ∷ 1 ∷ []) (5 ∷ 2 ∷ []) ≡ false)
unfolding minus lt eq
distances = (refl, refl, refl)
