-- ===== src/Toc.antt =====
-- src/toc.c: the table of contents, a chained hash table of records, and the record of
-- src/internal.h. A record that the code reaches through a pointer is written back by its key,
-- which finds it again: it is the first of its chain with that key. `grants` says of each coming
-- memory request of the table whether it succeeds; past its end they all do.
pub mod Chain
pub mod Homed
pub mod Grow
pub mod Count
pub mod Laws
use Prim.Native.Nat.{bit_and}
use libspill.Base.{
  ℕ, zero, suc, ◌+◌, ◌-◌, ◌*◌, ◌/◌, ◌%◌, ◌^◌, Bool, true, false, ◌&&◌, Option, none, some, List, [],
  ◌∷◌, ◌++◌, bit_xor, ltb, leb, if◌then◌else◌, ◌==◌, length, get_or, set, replicate, ◌+₆₄◌, ◌-₆₄◌,
  u64_mod,
}
use libspill.Alloc.{Extent, granted, later_grants}

-- `ls_rec`, less the links of the two lists that it is in. A key is its bytes before the NUL,
-- `mem` the `mem_cap` bytes of a resident record, `attr` the `attrlen` bytes of the blob, `ext`
-- the `next` extents of the array, and `map` a live mapping's address and length.
pub record Rec : Type 0 where
  pub key : List ℕ
  pub size : ℕ
  pub mem : Option (List ℕ)
  pub busy : ℕ
  pub attr : List ℕ
  pub map : Option (ℕ × ℕ)
  pub ext : List Extent
  pub ncap : ℕ
  pub ext_total : ℕ

abbrev pub key_max : ℕ
key_max = 255

abbrev pub attr_max : ℕ
attr_max = 256

-- `key == NULL` is `none`
unfoldable pub key_ok : Option (List ℕ) → Bool
key_ok none = false
key_ok (some key) = ltb 0 (length key) && leb (length key) key_max

-- `strcmp(a, b) == 0`
unfoldable pub key_eq : List ℕ → List ℕ → Bool
key_eq [] [] = true
key_eq [] (b ∷ ys) = false
key_eq (a ∷ xs) [] = false
key_eq (a ∷ xs) (b ∷ ys) = a == b && key_eq xs ys

unfoldable pub hash_loop : List ℕ → ℕ → ℕ
hash_loop [] h = h
hash_loop (c ∷ k) h = hash_loop k (bit_xor h c * 1099511628211 % u64_mod)

unfoldable pub hash_of : List ℕ → ℕ
unfolding hash_loop
hash_of k = hash_loop k 1469598103934665603

pub record Table : Type 0 where
  pub tab : List (List Rec)
  pub nrec : ℕ
  pub grants : List Bool

-- `hash_of(key) & (nbuckets - 1)`
unfoldable pub bucket_of : ℕ → List ℕ → ℕ
bucket_of nbuckets key = bit_and (hash_of key) (nbuckets - 1)

unfoldable pub find_chain : List ℕ → List Rec → Option Rec
find_chain key [] = none
find_chain key (r ∷ c) = if key_eq r.key key then some r else find_chain key c

unfoldable pub chain_at : List (List Rec) → List ℕ → List Rec
chain_at tab key = get_or tab (bucket_of (length tab) key) []

unfoldable pub toc_find : Table → List ℕ → Option Rec
unfolding chain_at
toc_find t key = find_chain key (chain_at t.tab key)

-- `r->hnext = t[b]; t[b] = r`
unfoldable pub push : Rec → List (List Rec) → List (List Rec)
unfolding chain_at
push r tab = set tab (bucket_of (length tab) r.key) (r ∷ chain_at tab r.key)

-- the inner loop of `toc_grow`, over one chain
unfoldable pub move_chain : List Rec → List (List Rec) → List (List Rec)
move_chain [] t = t
move_chain (r ∷ c) t = move_chain c (push r t)

unfoldable pub move_all : List (List Rec) → List (List Rec) → List (List Rec)
move_all [] t = t
move_all (c ∷ cs) t = move_all cs (move_chain c t)

-- `false` is -ENOMEM
unfoldable pub toc_grow : Table → Table × Bool
toc_grow t =
    if granted t.grants
    then (
      record t {
        tab = move_all t.tab (replicate (length t.tab * 2) []);
        grants = later_grants t.grants;
      },
      true,
    )
    else (record t { grants = later_grants t.grants }, false)

-- The table that `ls_open` makes: `s->nbuckets = 64`, and `calloc` for the buckets.
unfoldable pub new_table : List Bool → Table
new_table grants = record { tab = replicate 64 []; nrec = 0; grants = grants }

abbrev pub fresh_rec : List ℕ → Rec
fresh_rec key = record {
  key = key;
  size = 0;
  mem = none;
  busy = 0;
  attr = [];
  map = none;
  ext = [];
  ncap = 0;
  ext_total = 0;
}

-- the two requests of `ls_toc_insert` itself, for the record and for the copy of its key
unfoldable pub insert_fresh : Table → List ℕ → Table × Option Rec
insert_fresh t key =
    if granted t.grants && granted (later_grants t.grants)
    then (
      record {
        tab = push (fresh_rec key) t.tab;
        nrec = t.nrec + 1;
        grants = later_grants (later_grants t.grants);
      },
      some (fresh_rec key),
    )
    else (
      record t {
        grants =
            if granted t.grants
            then later_grants (later_grants t.grants)
            else later_grants t.grants;
      },
      none,
    )

-- whether one more record would fill more than three quarters of the buckets
unfoldable pub is_full : Table → Bool
is_full t = ltb (length t.tab - length t.tab / 4) (t.nrec + 1)

-- `none` is NULL
unfoldable pub toc_insert : Table → List ℕ → Table × Option Rec
toc_insert t key =
    if is_full t
    then (let (t', grown) = toc_grow t in if grown then insert_fresh t' key else (t', none))
    else insert_fresh t key

-- `while (*pp && *pp != r) pp = &(*pp)->hnext; if (*pp) *pp = r->hnext`
unfoldable pub drop_chain : List ℕ → List Rec → List Rec
drop_chain key [] = []
drop_chain key (r ∷ c) = if key_eq r.key key then c else r ∷ drop_chain key c

unfoldable pub toc_unlink : Table → List ℕ → Table
unfolding chain_at
toc_unlink t key = elim (toc_find t key) [
  | none ↦ t
  | some r ↦ record t {
    tab = set t.tab (bucket_of (length t.tab) key) (drop_chain key (chain_at t.tab key));
    nrec = t.nrec - 1;
  }
]

-- A write through the pointer to the record of this key.
unfoldable pub write_chain : Rec → List Rec → List Rec
write_chain r [] = []
write_chain r (q ∷ c) = if key_eq q.key r.key then r ∷ c else q ∷ write_chain r c

unfoldable pub toc_write : Table → Rec → Table
unfolding chain_at
toc_write t r = record t {
  tab = set t.tab (bucket_of (length t.tab) r.key) (write_chain r (chain_at t.tab r.key));
}
