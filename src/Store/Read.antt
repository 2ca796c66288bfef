-- ===== src/Store/Read.antt =====
-- src/store.c: a read from a record, as a caller sees it.
use Prim.Native.String.{String}
use libspill.Base.{
  ℕ, ◌+◌, ◌≤◌, ◌<◌, ◌≡◌, ◌⊎◌, true, false, Option, none, some, List, length, get_or,
}
use libspill.Toc.{Rec, key_ok, toc_find}
use libspill.Status.{Status, range, nokey, errno, inval, Result, ok, fail}
use libspill.Os.{Os, IsPosix}
use libspill.Extents.Holding.{Holding}
use libspill.Store.{Store}
use libspill.Store.Invariant.{IsStore, SameView, rec_byte}
use libspill.Store.Listed.{IsTier}

module _ (os : Os) (posix : IsPosix os) where
  -- How a read ends.
  pub record Reads (s : Store os) (key : List ℕ) (off n : ℕ)
      (res : Store os × Option (Result (List ℕ))) : Type 0 where
    pub answer : Result (List ℕ)
    pub reported : res.1 ≡ some answer
    pub store : IsStore os posix res.0
    pub tier : IsTier os res.0
    pub view : (j : List ℕ) → SameView os posix s res.0 j
    pub missing : toc_find s.table key ≡ none → answer ≡ fail nokey
    pub past : (r : Rec) → toc_find s.table key ≡ some r → r.size < off + n → answer ≡ fail range
    pub within :
        (r : Rec)
        → toc_find s.table key ≡ some r
        → off + n ≤ r.size
        → ((bs : List ℕ) × (answer ≡ ok bs)) ⊎ ((c : ℕ) × (answer ≡ fail (errno c)))
    pub bytes :
        (r : Rec) (bs : List ℕ)
        → toc_find s.table key ≡ some r
        → answer ≡ ok bs
        → (off + n ≤ r.size)
          × (length bs ≡ n)
          × ((i : ℕ)
              → i < n
              → get_or bs i 0 ≡ rec_byte (some r) (os.byte_at s.space.file) (off + i))

  -- What a call does: a key that is not one is refused before the store is touched.
  pub data ReadsOrRefuses (s : Store os) (key : List ℕ) (off n : ℕ)
      (res : Store os × Option (Result (List ℕ))) : Type 0 where
    invalid :
        key_ok (some key) ≡ false → res ≡ (s, some (fail inval)) → ReadsOrRefuses s key off n res
    answers : key_ok (some key) ≡ true → Reads s key off n res → ReadsOrRefuses s key off n res
