-- ===== src/Stores/SortedSet.antt =====
-- stores/SortedSet.ts: sets of members with scores, by key, and the sorted views that it caches. The
-- scores are whole and not negative. `localeCompare` is the parameter `member_le` (its result is not
-- positive), `Array.prototype.sort` is stable, so it is written as an insertion sort. The events that
-- a write emits, the file of a snapshot and its timer are left out, and so is `globalLeaderboard`.
pub mod Cache
pub mod Ranks
use oblivinx.Base.{
  ℕ, zero, suc, ◌+◌, ◌-◌, ◌*◌, Bool, true, false, String, Option, none, some, List, [], ◌∷◌, ◌++◌,
  if◌then◌else◌, ltb, leb, ◌&&◌, str_eq, length, drop, keep_if, map, default_to, not, take,
}
use oblivinx.Base.Dict.{Dict, lookup, insert, erase, has, keys}
use mathlib.Core.Option
use Prim.Native.String.{◌++◌ as join}

pub record ZMember : Type 0 where
  pub member : String
  pub score : ℕ

pub record SortedSet : Type 0 where
  pub sets : Dict (Dict ℕ)
  pub cache : Dict (List ZMember)

abbrev pub new_set : SortedSet
new_set = record { sets = []; cache = [] }

-- An index of `zrange`: it is not negative, or counts from the end (`back 1` is -1).
pub data Index : Type 0 where
  at : ℕ → Index
  back : ℕ → Index

abbrev pub members_of : Dict ℕ → List ZMember
members_of [] = []
members_of ((member, score) ∷ rest) = record { member = member; score = score } ∷ members_of rest

-- `this.sets.get(key)`, and a new set if there is none.
abbrev pub set_at : String → SortedSet → Dict ℕ
set_at key s = default_to (lookup key s.sets) []

-- A write of one set, which drops its sorted view.
abbrev pub put_set : String → Dict ℕ → SortedSet → SortedSet
put_set key set s = record s { sets = insert key set s.sets; cache = erase key s.cache }

unfoldable pub zadd : String → ℕ → String → SortedSet → ℕ × SortedSet
zadd key score member s =
    (if has member (set_at key s) then 0 else 1, put_set key (insert member score (set_at key s)) s)

unfoldable pub zincrby : String → ℕ → String → SortedSet → ℕ × SortedSet
zincrby key by member s =
    let next = default_to (lookup member (set_at key s)) 0 + by in
    (next, put_set key (insert member next (set_at key s)) s)

-- The loop of `zrem` over the members.
abbrev pub remove_each : List String → Dict ℕ → ℕ × Dict ℕ
remove_each [] set = (0, set)
remove_each (m ∷ members) set =
    let (count, rest) = remove_each members (erase m set) in
    (if has m set then count + 1 else count, rest)

abbrev pub remove_found : String → List String → Option (Dict ℕ) → SortedSet → ℕ × SortedSet
remove_found key members none s = (0, s)
remove_found key members (some set) s =
    let (count, rest) = remove_each members set in
    (
      count,
      record {
        sets = insert key rest s.sets;
        cache = if ltb 0 count then erase key s.cache else s.cache;
      },
    )

unfoldable pub zrem : String → List String → SortedSet → ℕ × SortedSet
zrem key members s = remove_found key members (lookup key s.sets) s

unfoldable pub del : String → SortedSet → Bool × SortedSet
del key s = (has key s.sets, record { sets = erase key s.sets; cache = erase key s.cache })

abbrev pub zscore : String → String → SortedSet → Option ℕ
zscore key member s = lookup member (set_at key s)

abbrev pub zcard : String → SortedSet → ℕ
zcard key s = length (set_at key s)

abbrev pub set_keys : SortedSet → List String
set_keys s = keys s.sets

abbrev pub index_of : String → List ZMember → Option ℕ
index_of member [] = none
index_of member (e ∷ es) =
    let rest = Option.map (λ n. n + 1) (index_of member es) in
    if str_eq e.member member then some 0 else rest

abbrev pub reverse {ℓ} : {A : Type ℓ} → List A → List A
reverse [] = []
reverse (x ∷ l) = reverse l ++ x ∷ []

-- `start < 0 ? Math.max(0, len + start) : start`.
abbrev pub first_index : ℕ → Index → ℕ
first_index len (at n) = n
first_index len (back n) = len - n

-- One more than `stop < 0 ? len + stop : Math.min(stop, len - 1)`, as the end of a `slice`: where
-- it is negative, it counts from the end again.
abbrev pub end_index : ℕ → Index → ℕ
end_index len (at n) = if ltb n len then n + 1 else len
end_index len (back n) = if leb n (len + 1) then len + 1 - n else 2 * len + 1 - n

abbrev pub slice : Index → Index → List ZMember → List ZMember
slice start stop l =
    let s = first_index (length l) start in take (end_index (length l) stop - s) (drop s l)

pub record Ranked : Type 0 where
  pub rank : ℕ
  pub member : String
  pub score : ℕ

abbrev pub ranked_from : ℕ → List ZMember → List Ranked
ranked_from i [] = []
ranked_from i (e ∷ es) =
    record { rank = i + 1; member = e.member; score = e.score } ∷ ranked_from (i + 1) es

abbrev pub board_key : String → String → String
board_key game_type group = join "lb:" (join game_type (join ":" group))

-- `limit - 1`.
abbrev pub last_index : ℕ → Index
last_index zero = back 1
last_index (suc n) = at n

module _ (member_le : String → String → Bool) where
  -- The order of `_sorted`: by score, then by member.
  abbrev pub comes_first : ZMember → ZMember → Bool
  comes_first a b =
      if ltb a.score b.score
      then true
      else if ltb b.score a.score
      then false
      else member_le a.member b.member

  abbrev pub insert_sorted : ZMember → List ZMember → List ZMember
  insert_sorted x [] = x ∷ []
  insert_sorted x (y ∷ l) =
      let rest = insert_sorted x l in if comes_first x y then x ∷ y ∷ l else y ∷ rest

  abbrev pub sort : List ZMember → List ZMember
  sort [] = []
  sort (x ∷ l) = insert_sorted x (sort l)

  abbrev pub sorted_set : String → Option (Dict ℕ) → SortedSet → List ZMember × SortedSet
  sorted_set key none s = ([], s)
  sorted_set key (some set) s =
      let view = sort (members_of set) in (view, record s { cache = insert key view s.cache })

  abbrev pub sorted_cached : String → Option (List ZMember) → SortedSet → List ZMember × SortedSet
  sorted_cached key (some view) s = (view, s)
  sorted_cached key none s = sorted_set key (lookup key s.sets) s

  -- `_sorted`.
  unfoldable pub sorted : String → SortedSet → List ZMember × SortedSet
  sorted key s = sorted_cached key (lookup key s.cache) s

  unfoldable pub zrank : String → String → SortedSet → Option ℕ × SortedSet
  zrank key member s = let (view, t) = sorted key s in (index_of member view, t)

  unfoldable pub zrevrank : String → String → SortedSet → Option ℕ × SortedSet
  zrevrank key member s =
      let (view, t) = sorted key s in
      (Option.map (λ i. length view - 1 - i) (index_of member view), t)

  unfoldable pub zrange : String → Index → Index → SortedSet → List ZMember × SortedSet
  zrange key start stop s = let (view, t) = sorted key s in (slice start stop view, t)

  unfoldable pub zrevrange : String → Index → Index → SortedSet → List ZMember × SortedSet
  zrevrange key start stop s = let (view, t) = sorted key s in (slice start stop (reverse view), t)

  unfoldable pub zrangebyscore : String → ℕ → ℕ → SortedSet → List ZMember × SortedSet
  zrangebyscore key min max s =
      let (view, t) = sorted key s in (keep_if (λ e. leb min e.score && leb e.score max) view, t)

  unfoldable pub leaderboard : String → String → ℕ → SortedSet → List Ranked × SortedSet
  leaderboard game_type group limit s =
      let (top, t) = zrevrange (board_key game_type group) (at 0) (last_index limit) s in
      (ranked_from 0 top, t)

  unfoldable pub award : String → String → String → ℕ → SortedSet → (ℕ × ℕ) × SortedSet
  award game_type group user points s =
      let (score, t) = zincrby (board_key game_type group) points user s in
      let (rank, u) = zrevrank (board_key game_type group) user t in
      ((score, default_to rank 0 + 1), u)

  abbrev pub reset_leaderboard : String → String → SortedSet → SortedSet
  reset_leaderboard game_type group s = (del (board_key game_type group) s).1
