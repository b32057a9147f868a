-- ===== src/Dht/Lookup/Tests.antt =====
-- `GetClosestNodes` and `GetClosestGoodNodes` of KBucket.cpp at concrete inputs.
use benliud.Common.{◌≡◌, refl, [], ◌∷◌}
use benliud.Common.Search.{keep}
use benliud.Dht.Entry.{is_good}
use benliud.Dht.Bucket.{KBucket}
use benliud.Dht.Store.{new}
use benliud.Dht.Lookup.{insert_all, get_closest_good_nodes}

-- The second node has been silent for too long.
abbrev bucket : KBucket
bucket = record {
  waiting = [];
  entries =
      record {
        addr = record { iip = 1; iport = 1 };
        key = 1 ∷ [];
        last_active = 1000000;
        failed = 0;
      }
      ∷ record { addr = record { iip = 2; iport = 1 }; key = 2 ∷ []; last_active = 0; failed = 0 }
      ∷ [];
  last_modify = 0;
  slot_limit = 8;
}

found :
    get_closest_good_nodes 1000001 (λ e. 0) bucket (new (0 ∷ []) 5)
    ≡ insert_all 1000001
        (λ e. 0)
        (new (0 ∷ []) 5)
        (record {
          addr = record { iip = 1; iport = 1 };
          key = 1 ∷ [];
          last_active = 1000000;
          failed = 0;
        }
          ∷ [])
unfolding get_closest_good_nodes keep is_good
found = refl
