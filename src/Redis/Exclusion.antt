-- ===== src/Redis/Exclusion.antt =====
-- pkg/redis/redis.go: the commands of other holders and a lock that is held.
use ridesharing.Prelude.{
  ℕ, suc, ◌+◌, ◌<◌, ◌≡◌, ◌≢◌, refl, String, true, false, none, some, List, [], ◌∷◌, arith, All,
  same_text, same_text_iff, if◌then◌else◌, Bool-cases, inl, inr,
}
use ridesharing.Models.{Uuid, Time}
use ridesharing.Database.{Lease}
use ridesharing.Redis.{DistLock, get, delete, set_nx, compare_and_delete}

-- A command of a holder, at a time: to take its lock or to give it back.
pub data Command : Type 0 where
  take_lock give_back : DistLock → Time → Command

abbrev pub holder : Command → DistLock
holder (take_lock l now) = l
holder (give_back l now) = l

abbrev pub time_of : Command → Time
time_of (take_lock l now) = now
time_of (give_back l now) = now

unfoldable pub run : List Command → List Lease → List Lease
run [] leases = leases
run (take_lock l now ∷ cs) leases = run cs (set_nx l now leases).1
run (give_back l now ∷ cs) leases = run cs (compare_and_delete l now leases).1

-- How many commands take the lock of that key.
unfoldable pub taken : String → List Command → List Lease → ℕ
taken k [] leases = 0
taken k (take_lock l now ∷ cs) leases =
    let (won, leases') = set_nx l now leases in
    let rest = taken k cs leases' in
    if same_text l.key k then (if won then suc rest else rest) else rest
taken k (give_back l now ∷ cs) leases = taken k cs (compare_and_delete l now leases).1

-- Until that time the key holds that value.
abbrev Holds : String → Uuid → Time → List Lease → Type 0
Holds k v end leases = (now : Time) → now < end → get k now leases ≡ some v

get-delete_self :
    (k : String) (now : Time) (leases : List Lease) → get k now (delete k leases) ≡ none
unfolding get delete
get-delete_self k now [] = refl
get-delete_self k now (l ∷ ls) = ground (arith, get-delete_self k now ls)

get-delete_other :
    (k j : String) (now : Time) (leases : List Lease)
    → same_text j k ≡ false
    → get k now (delete j leases) ≡ get k now leases
unfolding get delete
get-delete_other k j now [] h = refl
get-delete_other k j now (l ∷ ls) h =
    ground (arith, same_text_iff l.key j, get-delete_other k j now ls h)

same_self : (k : String) → same_text k k ≡ true
same_self k = (same_text_iff k k).1 refl

set_nx-Holds :
    (l : DistLock) (t : Time) (leases : List Lease)
    → (set_nx l t leases).0 ≡ true
    → Holds l.key l.value (t + l.ttl) (set_nx l t leases).1
unfolding get
set_nx-Holds l t leases won now h = ground (arith, same_self l.key)

-- A command of another holder before that time leaves the value, and does not take the lock.
others_fail :
    (k : String) (v : Uuid) (end : Time) (m : DistLock) (t : Time) (leases : List Lease)
    → Holds k v end leases
    → t < end
    → same_text m.key k ≡ true
    → set_nx m t leases ≡ (false, leases)
others_fail k v end m t leases held h same = ground (arith, held t h, same_text_iff m.key k)

set_nx-others :
    (k : String) (v : Uuid) (end : Time) (m : DistLock) (t : Time) (leases : List Lease)
    → Holds k v end leases
    → t < end
    → Holds k v end (set_nx m t leases).1
unfolding get
set_nx-others k v end m t leases held h now before = elim (Bool-cases (same_text m.key k)) [
  | inl same ↦ ground (arith, held now before, others_fail k v end m t leases held h same)
  | inr other ↦ ground (arith, held now before, get-delete_other k m.key now leases other)
]

compare_and_delete-others :
    (k : String) (v : Uuid) (end : Time) (m : DistLock) (t : Time) (leases : List Lease)
    → Holds k v end leases
    → t < end
    → m.value ≢ v
    → Holds k v end (compare_and_delete m t leases).1
compare_and_delete-others k v end m t leases held h ne now before =
    elim (Bool-cases (same_text m.key k)) [
      | inl same ↦ ground (arith, held now before, held t h, same_text_iff m.key k)
      | inr other ↦ ground (arith, held now before, get-delete_other k m.key now leases other)
    ]

-- Commands of other holders before the lock runs out.
abbrev pub IsForeign : Uuid → Time → Command → Type 0
IsForeign v end c = ((holder c).value ≢ v) × (time_of c < end)

while_held :
    (k : String) (v : Uuid) (end : Time) (cs : List Command) (leases : List Lease)
    → Holds k v end leases
    → All (IsForeign v end) cs
    → (taken k cs leases ≡ 0) × Holds k v end (run cs leases)
unfolding taken run
while_held k v end [] leases held h = (refl, held)
while_held k v end (take_lock m t ∷ cs) leases held h =
    let rest =
      while_held k v end cs (set_nx m t leases).1 (set_nx-others k v end m t leases held h.0.1)
        h.1 in
    (ground (arith, rest.0, others_fail k v end m t leases held h.0.1), rest.1)
while_held k v end (give_back m t ∷ cs) leases held h =
    while_held k v end cs (compare_and_delete m t leases).1
      (compare_and_delete-others k v end m t leases held h.0.1 h.0.0) h.1

-- Once a SETNX has taken a lock, no command of a holder with another value takes it before its time
-- to live is over, whether these holders try to take it or to give back locks of theirs; and until
-- then the key holds the value of the one who took it.
pub lock_exclusive :
    (l : DistLock) (t : Time) (leases : List Lease) (cs : List Command)
    → (set_nx l t leases).0 ≡ true
    → All (IsForeign l.value (t + l.ttl)) cs
    → (taken l.key cs (set_nx l t leases).1 ≡ 0)
      × ((now : Time)
          → now < t + l.ttl
          → get l.key now (run cs (set_nx l t leases).1) ≡ some l.value)
lock_exclusive l t leases cs won h =
    while_held l.key l.value (t + l.ttl) cs (set_nx l t leases).1 (set_nx-Holds l t leases won) h

-- After the holder's compare-and-delete, in time, the lock is free at every time; a compare-and-delete
-- with a value that the key does not hold changes nothing; and neither touches another key.
pub release_own :
    (l : DistLock) (t : Time) (leases : List Lease)
    → let after = (compare_and_delete l t leases).1 in
      (get l.key t leases ≡ some l.value → (now : Time) → get l.key now after ≡ none)
      × (get l.key t leases ≢ some l.value → after ≡ leases)
      × ((k : String) (now : Time) → same_text l.key k ≡ false → get k now after ≡ get k now leases)
release_own l t leases = (
  λ held now. ground (arith, get-delete_self l.key now leases),
  (λ ne. ground arith),
  λ k now other. ground (arith, get-delete_other k l.key now leases other),
)
