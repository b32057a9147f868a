-- ===== src/Dht/Entry.antt =====
-- benliud_btkad/src/KBucketEntry.cpp: a node of the DHT, and how long ago it was heard of.
use benliud.Common.{ℕ, ◌+◌, ◌-◌, ◌*◌, ◌%◌, ◌^◌, Bool, ltb, leb}
use benliud.Dht.Key.{Key}
use benliud.Dht.Key

-- `TInetAddr4`: address and port.
pub record InetAddr : Type 0 where
  pub iip : ℕ
  pub iport : ℕ

pub record KBucketEntry : Type 0 where
  pub addr : InetAddr
  pub key : Key
  pub last_active : ℕ
  pub failed : ℕ

-- `CKBucketEntry()`; the address and the key are the ones that their own constructors leave.
unfoldable pub new_entry : InetAddr → ℕ → KBucketEntry
new_entry addr now = record { addr = addr; key = Key.zero_key; last_active = now; failed = 0 }

-- `CKBucketEntry(addr, id)`, which leaves `m_nFailed` uninitialised: `raw`.
unfoldable pub make_entry : InetAddr → Key → ℕ → ℕ → KBucketEntry
make_entry addr id now raw = record { addr = addr; key = id; last_active = now; failed = raw }

-- The copy constructor. It stamps the copy with the present tick, and leaves `m_nFailed`
-- uninitialised: `raw`.
unfoldable pub copy : ℕ → ℕ → KBucketEntry → KBucketEntry
copy now raw other = record { addr = other.addr; key = other.key; last_active = now; failed = raw }

-- `operator=`
unfoldable pub assign : KBucketEntry → KBucketEntry → KBucketEntry
assign e other = record e { addr = other.addr; key = other.key }

-- `operator==`: the keys are compared.
unfoldable pub same_key : KBucketEntry → KBucketEntry → Bool
same_key e other = Key.eq e.key other.key

-- `GetTickCount() - m_nLastActive`, on `unsigned int`
abbrev pub idle_time : ℕ → KBucketEntry → ℕ
idle_time now e = (now + 2 ^ 32 - e.last_active) % 2 ^ 32

-- `isGood`
unfoldable pub is_good : ℕ → KBucketEntry → Bool
is_good now e = ltb (idle_time now e) (15 * 60 * 1000)

-- `isQuestionable`
unfoldable pub is_questionable : ℕ → KBucketEntry → Bool
is_questionable now e = leb (15 * 60 * 1000) (idle_time now e)

-- `isBad`
unfoldable pub is_bad : KBucketEntry → Bool
is_bad e = ltb 2 e.failed

-- `hasResponded`
unfoldable pub has_responded : ℕ → KBucketEntry → KBucketEntry
has_responded now e = record e { last_active = now; failed = 0 }

-- `requestTimeout`
unfoldable pub request_timeout : KBucketEntry → KBucketEntry
request_timeout e = record e { failed = (e.failed + 1) % 2 ^ 32 }
