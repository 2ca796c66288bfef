-- ===== src/Store/Keys.antt =====
-- src/store.c: `ls_exists`, `ls_size`, `ls_erase`, `ls_reserve`, `ls_keys`, `ls_set_attr`,
-- `ls_get_attr`, and `ls_rec_free` of src/toc.c.
use libspill.Base.{
  ℕ, ◌-◌, Bool, true, false, ◌||◌, not, Option, none, some, List, [], ◌∷◌, ◌++◌, ltb, leb,
  if◌then◌else◌, length,
}
use libspill.Extents.{give_all_back}
use libspill.Alloc.{granted, later_grants}
use libspill.Toc.{Rec, key_ok, toc_find, toc_unlink, attr_max}
use libspill.Status.{Status, done, nokey, range, inval, wrong_mode, no_memory, Result, ok, fail}
use libspill.Os.{Os}
use libspill.Options.{is_shared}
use libspill.Spill.{lru_drop}
use libspill.Store.{Store, ls_report, put, find_or_insert}
use libspill.Store.Capacity.{ensure_cap}
use libspill.Store.Transfer.{key_bytes, no_buffer, is_given, buffer_bytes, stretched}

module _ (os : Os) where
  unfoldable pub ls_exists : Store os → Option (List ℕ) → Result Bool
  ls_exists s key =
      if not (key_ok key)
      then fail inval
      else ok (elim (toc_find s.table (key_bytes key)) [ none ↦ false | some r ↦ true ])

  unfoldable pub ls_size : Store os → Option (List ℕ) → Result ℕ
  ls_size s key =
      if not (key_ok key)
      then fail inval
      else elim (toc_find s.table (key_bytes key)) [ none ↦ fail nokey | some r ↦ ok r.size ]

  -- `ls_rec_free`: the buffer and the extents of an unlinked record are given back
  unfoldable pub rec_free : Store os → Rec → Store os
  rec_free s r = record s {
    tier = record s.tier {
      resident = elim r.mem [
        | none ↦ s.tier.resident
        | some m ↦
            if leb (length m) s.tier.resident then s.tier.resident - length m else s.tier.resident
      ];
    };
    space = give_all_back os s.space r.ext;
  }

  unfoldable pub erase_rec : Store os → Rec → Store os
  unfolding rec_free
  erase_rec s r =
      rec_free
        (record s {
          table = toc_unlink s.table r.key;
          tier = record s.tier { lru = lru_drop r.key s.tier.lru };
        })
        r

  unfoldable pub ls_erase : Store os → Option (List ℕ) → Store os × Status
  unfolding erase_rec
  ls_erase s key =
      if not (key_ok key)
      then (s, inval)
      else if is_shared s.opts.parallel
      then (s, wrong_mode)
      else elim (toc_find s.table (key_bytes key)) [
        | none ↦ (s, nokey)
        | some r ↦ (erase_rec s r, done)
      ]

  abbrev pub after_reserve : List ℕ → ℕ → Store os × Rec × Option Status → Store os × Option Status
  after_reserve key nbytes (s, r, some done) = (put os s (stretched os r nbytes), some done)
  after_reserve key nbytes (s, r, some e) = (ls_report os s e key 0 0 "reserve", some e)
  after_reserve key nbytes (s, r, none) = (s, none)

  unfoldable pub reserve_in : List ℕ → ℕ → Store os × Option Rec → Store os × Option Status
  unfolding ensure_cap ls_report
  reserve_in key nbytes (s, none) = (s, some no_memory)
  reserve_in key nbytes (s, some r) = after_reserve key nbytes (ensure_cap os s r nbytes)

  unfoldable pub ls_reserve : Store os → Option (List ℕ) → ℕ → Store os × Option Status
  unfolding reserve_in find_or_insert
  ls_reserve s key nbytes =
      if not (key_ok key)
      then (s, some inval)
      else if is_shared s.opts.parallel
      then (s, some wrong_mode)
      else (reserve_in (key_bytes key) nbytes (find_or_insert os s (key_bytes key)))

  abbrev pub attr_set : List ℕ → Store os × Option Rec → Store os × Status
  attr_set blob (s, none) = (s, no_memory)
  attr_set blob (s, some r) = (put os s (record r { attr = blob }), done)

  unfoldable pub ls_set_attr : Store os → Option (List ℕ) → Option (List ℕ) → ℕ → Store os × Status
  ls_set_attr s key blob n =
      if not (key_ok key)
      then (s, inval)
      else if ltb attr_max n || no_buffer n (is_given blob)
      then (s, inval)
      else if is_shared s.opts.parallel
      then (s, wrong_mode)
      else (attr_set (buffer_bytes n blob) (find_or_insert os s (key_bytes key)))

  -- The status, the new value of `*n`, and the bytes copied to the caller's blob.
  pub record Attr : Type 0 where
    pub status : Status
    pub n : ℕ
    pub blob : List ℕ

  -- `given` says whether there is a blob, and `room` is `*n`
  unfoldable pub ls_get_attr : Store os → Option (List ℕ) → Bool → ℕ → Attr
  ls_get_attr s key given room =
      if not (key_ok key)
      then record { status = inval; n = room; blob = [] }
      else elim (toc_find s.table (key_bytes key)) [
        | none ↦ record { status = nokey; n = room; blob = [] }
        | some r ↦
            if not given
            then record { status = done; n = length r.attr; blob = [] }
            else (if ltb room (length r.attr)
                then record { status = range; n = length r.attr; blob = [] }
                else record { status = done; n = length r.attr; blob = r.attr })
      ]

-- the loop of `ls_keys` over one chain; `none` when a `strdup` fails
unfoldable pub copy_chain : List Rec → List Bool → Option (List (List ℕ)) × List Bool
copy_chain [] grants = (some [], grants)
copy_chain (r ∷ c) grants =
    let (keys, grants') = copy_chain c (later_grants grants) in
    if granted grants
    then (elim keys [ none ↦ none | some ks ↦ some (r.key ∷ ks) ], grants')
    else (none, later_grants grants)

unfoldable pub copy_tab : List (List Rec) → List Bool → Option (List (List ℕ)) × List Bool
unfolding copy_chain
copy_tab [] grants = (some [], grants)
copy_tab (c ∷ cs) grants =
    let (keys, grants') = copy_chain c grants in
    elim keys [
      | none ↦ (none, grants')
      | some ks ↦
          let (more, grants'') = copy_tab cs grants' in
          (elim more [ none ↦ none | some js ↦ some (ks ++ js) ], grants'')
    ]

abbrev pub or_no_memory : Option (List (List ℕ)) → Result (List (List ℕ))
or_no_memory none = fail no_memory
or_no_memory (some keys) = ok keys

module _ (os : Os) where
  unfoldable pub ls_keys : Store os → Store os × Result (List (List ℕ))
  unfolding copy_tab
  ls_keys s =
      let t = s.table in
      let (keys, grants) = copy_tab t.tab (later_grants t.grants) in
      if granted t.grants
      then (record s { table = record t { grants = grants } }, or_no_memory keys)
      else (record s { table = record t { grants = later_grants t.grants } }, fail no_memory)
