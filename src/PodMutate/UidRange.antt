-- ===== src/PodMutate/UidRange.antt =====
-- The block of user ids of a namespace.
use picoshift.Prelude.{ℕ, ◌+◌, ◌≤◌, String, ◌≡◌, ◌⊎◌, arith}
use picoshift.PodMutate.{uid_range_for_namespace}

-- Two numbers of 10000 ids each are the start of one block or of two that share no id.
abbrev pub AreApart : ℕ → ℕ → Type 0
AreApart m n = (m ≡ n) ⊎ (m + 10000 ≤ n) ⊎ (n + 10000 ≤ m)

-- Whatever the hash gives: the block of a namespace lies in the thousand million ids from 1000000000,
-- so it fits in 31 bits, and the blocks of two namespaces are the same or share no id.
pub uid_range_for_namespace-AreApart :
    (hash : String → ℕ) (a b : String)
    → (1000000000 ≤ uid_range_for_namespace hash a)
      × (uid_range_for_namespace hash a + 10000 ≤ 2000000000)
      × AreApart (uid_range_for_namespace hash a) (uid_range_for_namespace hash b)
unfolding uid_range_for_namespace
uid_range_for_namespace-AreApart hash a b = (omega arith, omega arith, ground arith)
